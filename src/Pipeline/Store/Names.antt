-- ===== src/Pipeline/Store/Names.antt =====
-- The names of the files of pipelines.
use claw.Base.{
  ◌-◌, String, ◌≡◌, refl, sym, ap, ◌∙◌, ◌<◌, Bool-cases, inl, inr, true, false, [], ◌∷◌, arith,
  length, length-append, take, take-length, drop, drop-length, ltb, ◌==◌, string_eq, eq_iff,
}
use claw.Base.Bytes.{Bytes, codes, text_of, text_of-codes, bytes_eq, same_bytes_iff}
use claw.Pipeline.Store.{file_name, is_pipeline_file}

-- The name of a file gives back the id.
stem : Bytes → String
stem name = text_of (take (length name - 5) name)

length-file_name : (id : String) → length (file_name id) - 5 ≡ length (codes id)
length-file_name id = omega (arith, length-append (codes id) (codes ".json"))

stem-file_name : (id : String) → stem (file_name id) ≡ id
unfolding stem
stem-file_name id =
    ap (λ n. text_of (take n (file_name id))) (length-file_name id)
    ∙ ap text_of (take-length (codes id) (codes ".json"))
    ∙ text_of-codes id

file_name-inj : (a b : String) → file_name a ≡ file_name b → a ≡ b
file_name-inj a b e = sym (stem-file_name a) ∙ ap stem e ∙ stem-file_name b

pub same_file : (a b : String) → (file_name a == file_name b) ≡ (a == b)
same_file a b = elim (Bool-cases (file_name a == file_name b)) [
  | inl e ↦
      e
      ∙ sym ((eq_iff a b).1 (file_name-inj a b ((same_bytes_iff (file_name a) (file_name b)).0 e)))
  | inr e ↦ elim (Bool-cases (a == b)) [
    | inl same ↦
        (same_bytes_iff (file_name a) (file_name b)).1 (ap file_name ((eq_iff a b).0 same))
        ∙ sym same
    | inr other ↦ e ∙ sym other
  ]
]

codes-pos : (b : Bytes) (id : String) → codes id ≡ b → (id == "") ≡ false → 0 < length b
codes-pos [] id e h =
    absurd (ground (arith, h, (eq_iff id "").1 (sym (text_of-codes id) ∙ ap text_of e)))
codes-pos (c ∷ b) id e h = omega arith

pub named_file : (id : String) → (id == "") ≡ false → is_pipeline_file (file_name id) ≡ true
unfolding is_pipeline_file
named_file id h =
    let long : ltb (length (file_name id)) 6 ≡ false =
      ground (arith, codes-pos (codes id) id refl h, length-append (codes id) (codes ".json")) in
    let last : drop (length (file_name id) - 5) (file_name id) ≡ codes ".json" =
      ap (λ n. drop n (file_name id)) (length-file_name id)
      ∙ drop-length (codes id) (codes ".json") in
    rw (long, last) refl
