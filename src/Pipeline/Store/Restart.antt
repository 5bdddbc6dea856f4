-- ===== src/Pipeline/Store/Restart.antt =====
-- The table of pipelines after a restart.
use claw.Base.{
  String, ◌≡◌, refl, ap, ◌∙◌, if_cases, Bool, true, false, Option, none, some, List, [], ◌∷◌, map,
  arith, All, ◌==◌, string_eq,
}
use claw.Base.Bytes.{Bytes, bytes_eq}
use claw.Base.Options.{◌>>=◌}
use claw.Base.Dict.{Dict, lookup, insert, erase, member, Distinct, Distinct-insert, Distinct-erase}
use claw.Json.{JsonLib, ConfigFile, holds}
use claw.Json.Standard.{IsStandard}
use claw.Pipeline.Defs.{Pipeline}
use claw.Pipeline.Store.{
  Store, file_name, pipeline_json, load_pipelines, save_pipeline, store_defined, define_pipeline,
  create_pipeline, delete_pipeline,
}
use claw.Pipeline.Store.Directory.{
  AreNamed, insert-AreNamed, erase-AreNamed, entry, insert-entries, erase-entries, restored,
  load_each-lookup,
}

-- What happens to the store: a definition is submitted, with the id that is generated for it, or a
-- pipeline is deleted.
pub data Change (J : Type 0) : Type 0 where
  creates : String → J → Change J
  deletes : String → Change J

abbrev pub Names : {J : Type 0} → Change J → Type 0
Names (creates id def) = (id == "") ≡ false
Names (deletes id) = Unit

module _ (json : JsonLib) where
  open json use {Json}

  unfoldable pub after_create : Option (Store Json × String) → Store Json → Store Json
  after_create none s = s
  after_create (some (s', id)) s = s'

  -- The store after a change, with a directory that can be written. A creation that throws leaves it.
  unfoldable pub change : Store Json → Change Json → Store Json
  change s (creates id def) = after_create (create_pipeline json true id def s) s
  change s (deletes id) = (delete_pipeline json id s).0

  unfoldable pub changes : Store Json → List (Change Json) → Store Json
  changes s [] = s
  changes s (c ∷ cs) = changes (change s c) cs

  abbrev pub empty : Store Json
  empty = record { pipelines = []; files = [] }

module _ (json : JsonLib) (standard : IsStandard json) where
  open json use {Json}

  -- The directory holds the files of the table and no others.
  record IsSaved (s : Store Json) : Type 0 where
    files : s.files ≡ map (entry json) s.pipelines
    named : AreNamed s.pipelines
    distinct : Distinct s.pipelines

  pub define_pipeline-id :
      (id : String) (def : Json) (p : Pipeline Json)
      → define_pipeline json id def ≡ some (some p)
      → p.id ≡ id
  unfolding define_pipeline
  define_pipeline-id id def p e = ground (arith, e)

  created :
      (s : Store Json) (id : String) (def : Json) (o : Option (Option (Pipeline Json)))
      → define_pipeline json id def ≡ o
      → (id == "") ≡ false
      → IsSaved s
      → IsSaved (after_create json (o >>= λ p. some (store_defined json true p s)) s)
  unfolding after_create save_pipeline
  created s id def none e n h = h
  created s id def (some none) e n h = h
  created s id def (some (some p)) e n h = record {
    files =
        ap (insert (file_name p.id) (holds (pipeline_json json p))) h.files
        ∙ insert-entries json p.id p s.pipelines;
    named =
        insert-AreNamed p.id p s.pipelines refl
          (ap (λ k. k == "") (define_pipeline-id id def p e) ∙ n) h.named;
    distinct = Distinct-insert p.id p s.pipelines h.distinct;
  }

  change-IsSaved :
      (s : Store Json) (c : Change Json) → Names c → IsSaved s → IsSaved (change json s c)
  unfolding change create_pipeline delete_pipeline
  change-IsSaved s (creates id def) n h = created s id def (define_pipeline json id def) refl n h
  change-IsSaved s (deletes id) n h =
      if_cases (λ (r : Store Json × Bool). IsSaved r.0) (member id s.pipelines)
        (record s { pipelines = erase id s.pipelines; files = erase (file_name id) s.files }, true)
        (s, false)
        (λ _. record {
          files = ap (erase (file_name id)) h.files ∙ erase-entries json id s.pipelines;
          named = erase-AreNamed id s.pipelines h.named;
          distinct = Distinct-erase id s.pipelines h.distinct;
        })
        (λ _. h)

  changes-IsSaved :
      (cs : List (Change Json)) (s : Store Json)
      → All Names cs
      → IsSaved s
      → IsSaved (changes json s cs)
  unfolding changes
  changes-IsSaved [] s n h = h
  changes-IsSaved (c ∷ cs) s n h =
      changes-IsSaved cs (change json s c) n.1 (change-IsSaved s c n.0 h)

  -- From an empty directory, after any creations, refused and throwing ones included, under ids that
  -- are not empty, and any deletions, while the directory can be written: LoadPipelines, which meets
  -- the same files in any order, finds under each id the pipeline that the table held, with null in
  -- place of empty arguments and no retries in place of a negative number of them, and none where the
  -- table held none.
  pub load_pipelines-changes :
      (cs : List (Change Json)) (i : String) (files : Dict Bytes (ConfigFile Json))
      → All Names cs
      → Distinct files
      → ((n : Bytes) → lookup n files ≡ lookup n (changes json (empty json) cs).files)
      → lookup i
          (load_pipelines json (record (changes json (empty json) cs) { files = files })).pipelines
        ≡ restored json (lookup i (changes json (empty json) cs).pipelines) none
  load_pipelines-changes cs i files n d same =
      let saved =
        changes-IsSaved cs (empty json) n (record { files = refl; named = tt; distinct = tt }) in
      load_each-lookup json standard i files (changes json (empty json) cs).pipelines saved.named d
        (λ name. same name ∙ ap (lookup name) saved.files)
