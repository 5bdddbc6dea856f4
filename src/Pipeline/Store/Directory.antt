-- ===== src/Pipeline/Store/Directory.antt =====
-- The directory of a table of pipelines, read in any order.
use claw.Base.{
  String, ◌≡◌, refl, sym, subst, ap, ◌∙◌, if_cases, Bool-cases, inl, inr, false, Option, none, some,
  [], ◌∷◌, map, All, ◌==◌, string_eq, eq_iff, if◌then◌else◌,
}
use claw.Base.Bytes.{Bytes, bytes_eq, same_bytes_iff}
use claw.Base.Dict.{Dict, lookup, insert, erase, lookup-insert, lookup-nil, Distinct, Distinct-All}
use claw.Json.{JsonLib, ConfigFile, missing, malformed, holds}
use claw.Json.Standard.{IsStandard}
use claw.Pipeline.Defs.{Pipeline}
use claw.Pipeline.Store.{
  file_name, is_pipeline_file, pipeline_json, load_pipeline_file, load_each, load_json,
}
use claw.Pipeline.Store.Files.{kept, load_pipeline_file_lem}
use claw.Pipeline.Store.Names.{same_file, named_file}

module _ {J : Type 0} where
  -- Every pipeline stands under its id, which is not empty.
  abbrev pub AreNamed : Dict String (Pipeline J) → Type 0
  AreNamed = All (λ q. (q.1.id ≡ q.0) × ((q.0 == "") ≡ false))

  pub insert-AreNamed :
      (id : String) (p : Pipeline J) (m : Dict String (Pipeline J))
      → p.id ≡ id
      → (id == "") ≡ false
      → AreNamed m
      → AreNamed (insert id p m)
  unfolding insert
  insert-AreNamed id p [] h n a = ((h, n), tt)
  insert-AreNamed id p ((j, q) ∷ m) h n a =
      if_cases AreNamed (j == id) ((id, p) ∷ m) ((j, q) ∷ insert id p m) (λ _. ((h, n), a.1))
        (λ _. (a.0, insert-AreNamed id p m h n a.1))

  pub erase-AreNamed :
      (id : String) (m : Dict String (Pipeline J)) → AreNamed m → AreNamed (erase id m)
  unfolding erase
  erase-AreNamed id [] a = tt
  erase-AreNamed id ((j, q) ∷ m) a =
      if_cases AreNamed (j == id) (erase id m) ((j, q) ∷ erase id m) (λ _. erase-AreNamed id m a.1)
        (λ _. (a.0, erase-AreNamed id m a.1))

module _ (json : JsonLib) where
  open json use {Json}

  abbrev pub entry : String × Pipeline Json → Bytes × ConfigFile Json
  entry (id, p) = (file_name id, holds (pipeline_json json p))

  pub insert-entries :
      (id : String) (p : Pipeline Json) (m : Dict String (Pipeline Json))
      → insert (file_name id) (holds (pipeline_json json p)) (map entry m)
        ≡ map entry (insert id p m)
  unfolding insert
  insert-entries id p [] = refl
  insert-entries id p ((j, q) ∷ m) = elim (Bool-cases (j == id)) [
    | inl e ↦ rw (same_file j id, e) refl
    | inr e ↦ rw (same_file j id, e) (ap (◌∷◌ (entry (j, q))) (insert-entries id p m))
  ]

  pub erase-entries :
      (id : String) (m : Dict String (Pipeline Json))
      → erase (file_name id) (map entry m) ≡ map entry (erase id m)
  unfolding erase
  erase-entries id [] = refl
  erase-entries id ((j, q) ∷ m) = elim (Bool-cases (j == id)) [
    | inl e ↦ rw (same_file j id, e) (erase-entries id m)
    | inr e ↦ rw (same_file j id, e) (ap (◌∷◌ (entry (j, q))) (erase-entries id m))
  ]

  abbrev pub restored : Option (Pipeline Json) → Option (Pipeline Json) → Option (Pipeline Json)
  restored none old = old
  restored (some p) old = some (kept json p)

  abbrev saved_as : Option (Pipeline Json) → Option (ConfigFile Json)
  saved_as none = none
  saved_as (some p) = some (holds (pipeline_json json p))

  abbrev found : Option (ConfigFile Json) → Option (Pipeline Json)
  found none = none
  found (some missing) = none
  found (some malformed) = none
  found (some (holds j)) = load_pipeline_file json j

  -- A file that SavePipeline wrote.
  abbrev IsEntry : Bytes × ConfigFile Json → Type 0
  IsEntry q =
      (p : Pipeline Json) × (q.0 ≡ file_name p.id)
      × (q.1 ≡ holds (pipeline_json json p))
      × ((p.id == "") ≡ false)

module _ (json : JsonLib) (standard : IsStandard json) where
  open json use {Json}

  restored-first :
      (id i : String) (p : Pipeline Json) (m : Dict String (Pipeline Json))
      (old : Option (Pipeline Json))
      → lookup id m ≡ none
      → restored json (lookup i m) (if id == i then some (kept json p) else old)
        ≡ restored json (if id == i then some p else lookup i m) old
  restored-first id i p m old h = elim (Bool-cases (id == i)) [
    | inl e ↦ rw e (
        ap (λ o. restored json o (some (kept json p)))
          (ap (λ k. lookup k m) (sym ((eq_iff id i).0 e)) ∙ h))
    | inr e ↦ rw e refl
  ]

  read_entry :
      (id : String) (p : Pipeline Json) (acc : Dict String (Pipeline Json))
      → p.id ≡ id
      → (id == "") ≡ false
      → (if is_pipeline_file (file_name id)
          then load_json json (holds (pipeline_json json p)) acc
          else acc)
        ≡ insert id (kept json p) acc
  read_entry id p acc e n =
      let named : (p.id == "") ≡ false = ap (λ k. k == "") e ∙ n in
      rw (named_file id n, load_pipeline_file_lem json standard p, named)
        (ap (λ k. insert k (kept json p) acc) e)

  load_each-entries :
      (i : String) (m acc : Dict String (Pipeline Json))
      → AreNamed m
      → Distinct m
      → lookup i (load_each json (map (entry json) m) acc)
        ≡ restored json (lookup i m) (lookup i acc)
  unfolding load_each lookup
  load_each-entries i [] acc a d = refl
  load_each-entries i ((id, p) ∷ m) acc a d =
      ap (λ read. lookup i (load_each json (map (entry json) m) read))
        (read_entry id p acc a.0.0 a.0.1)
      ∙ load_each-entries i m (insert id (kept json p) acc) a.1 d.1
      ∙ ap (restored json (lookup i m)) (lookup-insert id i (kept json p) acc)
      ∙ restored-first id i p m (lookup i acc) d.0

  lookup-entries :
      (id : String) (m : Dict String (Pipeline Json))
      → lookup (file_name id) (map (entry json) m) ≡ saved_as json (lookup id m)
  unfolding lookup
  lookup-entries id [] = refl
  lookup-entries id ((j, q) ∷ m) = elim (Bool-cases (j == id)) [
    | inl e ↦ rw (same_file j id, e) refl
    | inr e ↦ rw (same_file j id, e) (lookup-entries id m)
  ]

  unsaved : (o : Option (Pipeline Json)) → saved_as json o ≡ none → o ≡ none
  unsaved none h = refl
  unsaved (some p) h = cc

  Distinct-entries : (m : Dict String (Pipeline Json)) → Distinct (map (entry json) m) → Distinct m
  Distinct-entries [] d = tt
  Distinct-entries ((id, p) ∷ m) d =
      (unsaved (lookup id m) (sym (lookup-entries id m) ∙ d.0), Distinct-entries m d.1)

  restored-saved_as :
      (o : Option (Pipeline Json)) → restored json o none ≡ found json (saved_as json o)
  restored-saved_as none = refl
  restored-saved_as (some p) = sym (load_pipeline_file_lem json standard p)

  lookup-IsEntry :
      (n : Bytes) (c : ConfigFile Json) (m : Dict String (Pipeline Json))
      → AreNamed m
      → lookup n (map (entry json) m) ≡ some c
      → IsEntry json (n, c)
  unfolding lookup
  lookup-IsEntry n c [] a e = cc
  lookup-IsEntry n c ((id, p) ∷ m) a e = elim (Bool-cases (file_name id == n)) [
    | inl same ↦
        (let this : some (holds (pipeline_json json p)) ≡ some c = rw same at e in
          (
            p,
            sym ((same_bytes_iff (file_name id) n).0 same) ∙ ap file_name (sym a.0.0),
            cc this,
            ap (λ k. k == "") a.0.0 ∙ a.0.1,
          ))
    | inr other ↦ lookup-IsEntry n c m a.1 (rw other at e)
  ]

  -- The files of a table in another order are the files of that table in another order.
  reordered :
      (files : Dict Bytes (ConfigFile Json))
      → All (IsEntry json) files
      → (m : Dict String (Pipeline Json)) × (files ≡ map (entry json) m) × AreNamed m
  reordered [] h = ([], refl, tt)
  reordered ((n, c) ∷ files) h =
      let (p, en, ec, ep) = h.0 in
      let (m, e, a) = reordered files h.1 in
      ((p.id, p) ∷ m, (λ i. (en i, ec i) ∷ e i), ((refl, ep), a))

  pub load_each-lookup :
      (i : String) (files : Dict Bytes (ConfigFile Json)) (m : Dict String (Pipeline Json))
      → AreNamed m
      → Distinct files
      → ((n : Bytes) → lookup n files ≡ lookup n (map (entry json) m))
      → lookup i (load_each json files []) ≡ restored json (lookup i m) none
  load_each-lookup i files m a d same =
      let entries =
        Distinct-All (IsEntry json) files d (λ n c e. lookup-IsEntry n c m a (sym (same n) ∙ e)) in
      let (m', e, a') = reordered files entries in
      ap (λ f. lookup i (load_each json f [])) e
      ∙ load_each-entries i m' [] a' (Distinct-entries m' (subst Distinct e d))
      ∙ ap (restored json (lookup i m')) (lookup-nil i)
      ∙ restored-saved_as (lookup i m')
      ∙ ap (found json) (
          sym (lookup-entries i m')
          ∙ ap (lookup (file_name i)) (sym e)
          ∙ same (file_name i)
          ∙ lookup-entries i m)
      ∙ sym (restored-saved_as (lookup i m))
