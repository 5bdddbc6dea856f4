-- ===== src/Workflow/Interpolate/Substitution.antt =====
-- When no value of a template is empty or holds a brace, Interpolate puts its value in the place of
-- every placeholder at once.
use claw.Base.{
  ℕ, zero, suc, ◌≤◌, ◌≡◌, refl, sym, ap, ◌∙◌, subst, inl, inr, false, Option, none, some,
  Option-cases, [], ◌∷◌, ◌++◌, ◌==◌, nat_eq, string_eq, String, length, length-append, arith,
  append_assoc, All,
}
use mathlib.Core.Option.{none-ne-some}
use claw.Base.Bytes.{Bytes, codes, text_of}
use claw.Base.Dict.{Dict}
use claw.Json.{JsonLib}
use claw.Workflow.Interpolate.{
  placeholder, found_or, search, target, put_at, replace_first, replace_all, value_of, interpolate,
}
use claw.Workflow.Interpolate.Matches.{
  marked-target, placeholder-marked, find-Quiet, Found, search-Found,
}
use claw.Workflow.Interpolate.Stops.{Quiet, IsPlain, marked, Quiet-swap, brace_first}

-- The text with the value of each placeholder in its place, from left to right.
pub data Substituted (value : Bytes → Bytes) : Bytes → Bytes → Type 0 where
  ended : Substituted value [] []
  literal :
      {c : ℕ} {text out : Bytes}
      → placeholder (c ∷ text) ≡ none
      → Substituted value text out
      → Substituted value (c ∷ text) (c ∷ out)
  variable :
      {text name suffix out : Bytes}
      → placeholder text ≡ some (name, suffix)
      → Substituted value suffix out
      → Substituted value text (value name ++ out)

-- A template mentions a name.
abbrev pub Mentions : Bytes → Bytes → Type 0
Mentions text name = (before : Bytes) × (rest : Bytes) × (text ≡ before ++ (target name ++ rest))

none_found :
    {value : Bytes → Bytes} (text : Bytes) → search text ≡ none → Substituted value text text
none_found [] e = ended
none_found (c ∷ text) e = elim (Option-cases (placeholder (c ∷ text))) [
  | inl e' ↦ literal e' (none_found text (ap (λ o. found_or o (search text)) (sym e') ∙ e))
  | inr (m, e') ↦ absurd (none-ne-some m (sym e ∙ ap (λ o. found_or o (search text)) e'))
]

literals :
    {value : Bytes → Bytes} {rest out : Bytes} (text : Bytes)
    → Quiet text rest
    → Substituted value rest out
    → Substituted value (text ++ rest) (text ++ out)
literals [] quiet s = s
literals (c ∷ text) quiet s = literal quiet.0 (literals text quiet.1 s)

Quiet-append : (x y rest : Bytes) → Quiet x (y ++ rest) → Quiet y rest → Quiet (x ++ y) rest
Quiet-append [] y rest hx hy = hy
Quiet-append (c ∷ x) y rest hx hy =
    (ap (λ t. placeholder (c ∷ t)) (append_assoc x y rest) ∙ hx.0, Quiet-append x y rest hx.1 hy)

no_brace : (c : ℕ) (rest : Bytes) → (c == 0x7b) ≡ false → placeholder (c ∷ rest) ≡ none
no_brace c rest h = rw (brace_first 0x7b c h) refl

plain_Quiet :
    (value rest : Bytes)
    → All (λ b. ((b == 0x7b) ≡ false) × ((b == 0x7d) ≡ false)) value
    → Quiet value rest
plain_Quiet [] rest h = tt
plain_Quiet (c ∷ value) rest h = (no_brace c (value ++ rest) h.0.0, plain_Quiet value rest h.1)

IsPlain-Quiet : (value rest : Bytes) → IsPlain value → Quiet value rest
IsPlain-Quiet [] rest h = elim h [ ]
IsPlain-Quiet (c ∷ value) rest h = plain_Quiet (c ∷ value) rest h

shorter :
    (working before name suffix : Bytes) (fuel : ℕ)
    → working ≡ before ++ marked name suffix
    → length working ≤ suc fuel
    → length suffix ≤ fuel
shorter working before name suffix fuel e l = omega (
  arith,
  l,
  ap length e,
  length-append before (marked name suffix),
  length-append name (0x7d ∷ 0x7d ∷ suffix),
)

module _ (value : Bytes → Bytes) where
  -- What the loop makes of what it has still to search.
  record Loops (fuel : ℕ) (done working : Bytes) : Type 0 where
    out : Bytes
    result : replace_all value fuel working (done ++ working) ≡ done ++ out
    substituted : Substituted value working out

  -- A turn of the loop, from what the search finds.
  abbrev turn : ℕ → Bytes → Option (Bytes × Bytes) → Bytes
  turn fuel result none = result
  turn fuel result (some (name, suffix)) =
      replace_all value fuel suffix (replace_first (target name) (value name) result)

  replaced :
      (done working name suffix : Bytes) (f : Found working name suffix)
      → Quiet (done ++ f.before) (marked name suffix)
      → replace_first (target name) (value name) (done ++ working)
        ≡ ((done ++ f.before) ++ value name) ++ suffix
  replaced done working name suffix f quiet =
      let v = value name in
      ap (λ t. replace_first (target name) v t)
        (ap (◌++◌ done) f.splits ∙ sym (append_assoc done f.before (marked name suffix)))
      ∙ ap (put_at ((done ++ f.before) ++ marked name suffix) v)
          (find-Quiet name suffix (done ++ f.before) f.is_name f.ne-nil quiet)
      ∙ sym (append_assoc (done ++ f.before) v suffix)

  Mentions-later :
      (working name suffix n : Bytes) (f : Found working name suffix)
      → Mentions suffix n
      → Mentions working n
  Mentions-later working name suffix n f (b, r, e) = (
    f.before ++ (target name ++ b),
    r,
    f.splits
        ∙ ap (◌++◌ f.before) (
            marked-target name suffix
            ∙ ap (◌++◌ (target name)) e
            ∙ sym (append_assoc (target name) b (target n ++ r)))
        ∙ sym (append_assoc f.before (target name ++ b) (target n ++ r)),
  )

  loop :
      (fuel : ℕ) (done working : Bytes)
      → length working ≤ fuel
      → Quiet done working
      → ((name : Bytes) → Mentions working name → IsPlain (value name))
      → Loops fuel done working
  unfolding replace_all
  loop zero done [] l quiet plain = record { out = []; result = refl; substituted = ended }
  loop zero done (c ∷ working) l quiet plain = absurd (omega (arith, l))
  loop (suc fuel) done working l quiet plain = elim (Option-cases (search working)) [
    | inl e ↦ record {
      out = working;
      result = ap (turn fuel (done ++ working)) e;
      substituted = none_found working e;
    }
    | inr ((name, suffix), e) ↦
        let f = search-Found working name suffix e in
        let v = value name in
        let before = f.before in
        let pl =
          plain name (before, suffix, f.splits ∙ ap (◌++◌ before) (marked-target name suffix)) in
        let here_ =
          Quiet-append done before (marked name suffix) (subst (Quiet done) f.splits quiet)
            f.quiet in
        let later =
          loop fuel ((done ++ before) ++ v) suffix
            (shorter working before name suffix fuel f.splits l)
            (Quiet-append (done ++ before) v suffix
              (Quiet-swap name suffix v f.is_name pl (done ++ before) here_)
              (IsPlain-Quiet v suffix pl))
            (λ n m. plain n (Mentions-later working name suffix n f m)) in
        record {
          out = before ++ (v ++ later.out);
          result =
              ap (turn fuel (done ++ working)) e
              ∙ ap (replace_all value fuel suffix) (replaced done working name suffix f here_)
              ∙ later.result
              ∙ append_assoc (done ++ before) v later.out
              ∙ append_assoc done before (v ++ later.out);
          substituted =
              subst (λ w. Substituted value w (before ++ (v ++ later.out))) (sym f.splits)
                (literals before f.quiet
                  (variable (placeholder-marked name suffix f.is_name f.ne-nil) later.substituted));
        }
  ]

-- For a template whose variables all have a value that is not empty and without braces, Interpolate
-- replaces every placeholder by its value and nothing else, although it searches for each of them in
-- the text where the ones before are replaced already.
pub interpolate-Substituted :
    (json : JsonLib) (tmpl : String) (vars : Dict String json.Json)
    → ((name : Bytes) → Mentions (codes tmpl) name → IsPlain (value_of json vars name))
    → (out : Bytes) × Substituted (value_of json vars) (codes tmpl) out
      × (interpolate json tmpl vars ≡ text_of out)
unfolding interpolate
interpolate-Substituted json tmpl vars plain =
    let l =
      loop (value_of json vars) (length (codes tmpl)) [] (codes tmpl) (omega arith) tt plain in
    (l.out, l.substituted, ap text_of l.result)
