-- ===== src/ChatHistory/Tests.antt =====
-- Histories of one session at concrete inputs.
use claw.Base.{
  ℕ, suc, ◌+◌, ◌≤◌, ◌<◌, String, ◌≡◌, ◌⊎◌, refl, true, false, not, none, some, inl, inr, List, [],
  ◌∷◌, ◌++◌, length, drop, keep_if, All, replicate, string_eq, arith, ◌==◌,
}
use claw.TestJson.{Value, null}
use claw.ChatHistory.Defs.{
  LlmMessage, Sessions, ChatOutcome, threw, answered, is_tool, is_compacting, history_of,
  valid_tool_call_ids, sanitize_history, compacted_count, compressed, compaction_prompt, fifo_trim,
  trim_history, max_history_size,
}
use claw.ChatHistory.Sanitize.{Filtered, Belongs, sanitize_history_lem}
use claw.ChatHistory.Bounds.{length-trim_history}
use claw.ChatHistory.Pairs.{StartsClean, compacted_count-StartsClean}
use claw.ChatHistory.Stuck.{turns, untold, turns-after_throw}

abbrev said : String → LlmMessage Value
said role = record {
  role = role;
  text = "hello";
  tool_calls = [];
  tool_name = "";
  tool_call_id = "";
  tool_result = none;
}

abbrev calling : LlmMessage Value
calling = record (said "assistant") {
  tool_calls = record { id = "7"; name = "get"; args = null } ∷ [];
}

abbrev answering : String → LlmMessage Value
answering id = record (said "tool") { tool_call_id = id; tool_result = some null }

-- An answer to a call, and one to a call that was compacted away.
abbrev loaded : List (LlmMessage Value)
loaded = calling ∷ answering "7" ∷ answering "3" ∷ said "user" ∷ []

sanitize_history_lem_example :
    Filtered (Belongs loaded) loaded (sanitize_history loaded)
    × All (Belongs (sanitize_history loaded)) (sanitize_history loaded)
    × (sanitize_history (sanitize_history loaded) ≡ sanitize_history loaded)
sanitize_history_lem_example = sanitize_history_lem loaded

sanitize_history_test : sanitize_history loaded ≡ calling ∷ answering "7" ∷ said "user" ∷ []
unfolding sanitize_history valid_tool_call_ids
sanitize_history_test = refl

-- The tenth message calls a tool, and two answers follow.
abbrev long : List (LlmMessage Value)
long =
    replicate 9 (said "user")
    ++ (calling ∷ answering "7" ∷ answering "7" ∷ replicate 4 (said "user"))

compacted_count_test : compacted_count long ≡ 12
unfolding compacted_count claw.ChatHistory.Defs.extend_from claw.ChatHistory.Defs.extend
    claw.ChatHistory.Defs.tool_run
compacted_count_test = refl

compacted_count-StartsClean_example :
    (compacted_count long + 2 ≡ 16) ⊎ StartsClean (drop (compacted_count long) long)
compacted_count-StartsClean_example =
    compacted_count-StartsClean long
      (
        inl refl,
        (
          inl refl,
          (
            inl refl,
            (
              inl refl,
              (
                inl refl,
                (
                  inl refl,
                  (
                    inl refl,
                    (
                      inl refl,
                      (
                        inl refl,
                        (
                          inr (inr refl),
                          (inr (inl refl), (inl refl, (inl refl, (inl refl, (inl refl, tt))))),
                        ),
                      ),
                    ),
                  ),
                ),
              ),
            ),
          ),
        ),
      )
      (omega arith)

abbrev state : Sessions Value
state = record { sessions = ("s", long) ∷ []; compacting = []; has_backend = true }

length-trim_history_example :
    length (history_of (trim_history (λ p. threw) (λ t. t) state "s") "s") ≤ 30
length-trim_history_example = length-trim_history (λ p. threw) (λ t. t) state "s" (λ t m. m)

state-long : 15 < length (history_of state "s")
unfolding claw.Base.Dict.entry claw.Base.Dict.lookup
state-long = omega arith

abbrev later : List ((String → ChatOutcome) × List (LlmMessage Value))
later = ((λ p. answered "talk"), long) ∷ []

turns-after_throw_example :
    history_of (turns later "s" (trim_history (λ p. threw) (λ t. t) state "s")) "s"
    ≡ untold later (fifo_trim max_history_size (history_of state "s"))
turns-after_throw_example = turns-after_throw (λ p. threw) state "s" later state-long refl refl refl
