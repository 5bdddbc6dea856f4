-- ===== src/ChatHistory/Defs.antt =====
-- Messages (llm/llm_backend.hh), SessionStore::SanitizeHistory, AgentCore::CompactHistory and
-- AgentCore::TrimHistory. The session mutex is held but for the call of the backend: what other
-- threads do to the agent meanwhile is an argument.
use claw.Base.{
  ℕ, suc, ◌+◌, ◌-◌, String, ◌⧺◌, Bool, true, false, Option, none, some, List, [], ◌∷◌, ◌++◌, ltb,
  leb, any, keep_if, not, length, take, drop, ◌&&◌, ◌==◌, string_eq, if◌then◌else◌,
}
use claw.ToolGate.{ToolCall}
use claw.Base.Dict.{Dict, insert, entry, member}

pub record LlmMessage (J : Type 0) : Type 0 where
  pub role : String
  pub text : String
  pub tool_calls : List (ToolCall J)
  pub tool_name : String
  pub tool_call_id : String
  pub tool_result : Option J

abbrev pub max_history_size : ℕ
max_history_size = 30

abbrev pub compaction_threshold : ℕ
compaction_threshold = 15

abbrev pub compaction_count : ℕ
compaction_count = 10

-- How the call of the backend for a summary ends.
pub data ChatOutcome : Type 0 where
  threw : ChatOutcome
  failed : ChatOutcome
  answered : String → ChatOutcome

abbrev pub in_ids : String → List String → Bool
in_ids id = any (λ i. i == id)

module _ {J : Type 0} where
  abbrev pub is_tool : LlmMessage J → Bool
  is_tool m = m.role == "tool"

  abbrev pub is_empty : List (ToolCall J) → Bool
  is_empty [] = true
  is_empty (x ∷ xs) = false

  abbrev pub calls_tools : LlmMessage J → Bool
  calls_tools m = m.role == "assistant" && not (is_empty m.tool_calls)

  unfoldable pub call_ids : List (ToolCall J) → List String
  call_ids [] = []
  call_ids (tc ∷ rest) = if tc.id == "" then call_ids rest else tc.id ∷ call_ids rest

  -- The non-empty ids of the calls of assistant messages.
  unfoldable pub valid_tool_call_ids : List (LlmMessage J) → List String
  unfolding call_ids
  valid_tool_call_ids [] = []
  valid_tool_call_ids (m ∷ rest) =
      if m.role == "assistant"
      then call_ids m.tool_calls ++ valid_tool_call_ids rest
      else valid_tool_call_ids rest

  abbrev pub is_orphan : List String → LlmMessage J → Bool
  is_orphan ids m =
      if not (is_tool m)
      then false
      else if m.tool_call_id == ""
      then true
      else not (in_ids m.tool_call_id ids)

  unfoldable pub sanitize_history : List (LlmMessage J) → List (LlmMessage J)
  sanitize_history history = keep_if (λ m. not (is_orphan (valid_tool_call_ids history) m)) history

  -- Tool results that follow a call, as far as there is room.
  unfoldable pub tool_run : List (LlmMessage J) → ℕ → ℕ
  tool_run (m ∷ rest) (suc room) = if is_tool m then suc (tool_run rest room) else 0
  tool_run _ _ = 0

  -- The loop that extends the count: `last` is the last message counted so far, `rest` what follows
  -- it, and `room` how far the count is from leaving two messages.
  unfoldable pub extend : LlmMessage J → List (LlmMessage J) → ℕ → ℕ
  extend last (m ∷ rest) (suc room) =
      let further = extend m rest room in
      if calls_tools last
      then tool_run (m ∷ rest) (suc room)
      else if is_tool last
      then suc further
      else 0
  extend last _ _ = 0

  unfoldable pub extend_from : List (LlmMessage J) → ℕ → ℕ
  extend_from [] room = 0
  extend_from (last ∷ rest) room = extend last rest room

  -- How many messages a compaction takes. The history is longer than the threshold, so that
  -- min(10, size - 2) is 10 and the early return for fewer than 2 is never taken.
  unfoldable pub compacted_count : List (LlmMessage J) → ℕ
  compacted_count history =
      compaction_count
      + extend_from (drop (compaction_count - 1) history) (length history - 2 - compaction_count)

  called_tools : List (ToolCall J) → String
  called_tools [] = ""
  called_tools (tc ∷ rest) = (tc.name ⧺ " ") ⧺ called_tools rest

  summary_line : LlmMessage J → String
  unfolding called_tools
  summary_line m =
      (m.role ⧺ ": ")
      ⧺ (m.text
          ⧺ ((if is_empty m.tool_calls
                then ""
                else "[called tools: " ⧺ (called_tools m.tool_calls ⧺ "]"))
              ⧺ ((if is_tool m && not (m.tool_name == "")
                    then "[" ⧺ (m.tool_name ⧺ " result]")
                    else "")
                  ⧺ "\n")))

  summary_lines : List (LlmMessage J) → String
  unfolding summary_line
  summary_lines [] = ""
  summary_lines (m ∷ rest) = summary_line m ⧺ summary_lines rest

  unfoldable pub compaction_prompt : List (LlmMessage J) → String
  unfolding summary_lines
  compaction_prompt messages =
      "Summarize this conversation concisely in 2-3 sentences. Preserve key facts, decisions, and results. Respond ONLY with the summary, nothing else:\n\n"
      ⧺ summary_lines messages

  unfoldable pub compressed : String → LlmMessage J
  compressed text = record {
    role = "assistant";
    text = "[compressed] " ⧺ text;
    tool_calls = [];
    tool_name = "";
    tool_call_id = "";
    tool_result = none;
  }

  -- while (hist.size() > limit) hist.erase(hist.begin());
  unfoldable pub fifo_trim : ℕ → List (LlmMessage J) → List (LlmMessage J)
  fifo_trim limit [] = []
  fifo_trim limit (m ∷ rest) =
      if ltb limit (length (m ∷ rest)) then fifo_trim limit rest else m ∷ rest

pub record Sessions (J : Type 0) : Type 0 where
  pub sessions : Dict String (List (LlmMessage J))
  pub compacting : List String
  pub has_backend : Bool

module _ {J : Type 0} where
  abbrev pub history_of : Sessions J → String → List (LlmMessage J)
  history_of s session = entry [] session s.sessions

  abbrev pub with_history : Sessions J → String → List (LlmMessage J) → Sessions J
  with_history s session h = record s { sessions = insert session h s.sessions }

  abbrev pub is_compacting : Sessions J → String → Bool
  is_compacting s session = any (λ k. k == session) s.compacting

  -- CompactHistory up to the call of the backend: `some n` if it is called, to replace n messages.
  unfoldable pub begin_compaction : Sessions J → String → Sessions J × Option ℕ
  begin_compaction s session =
      let history = history_of s session in
      if leb (length history) compaction_threshold
      then (s, none)
      else if not s.has_backend
      then (s, none)
      else if is_compacting s session
      then (s, none)
      else (record s { compacting = session ∷ s.compacting }, some (compacted_count history))

  -- What is done with the answer, for a session that still exists.
  abbrev pub replaced : ChatOutcome → ℕ → List (LlmMessage J) → List (LlmMessage J)
  replaced (answered text) count h =
      if text == ""
      then fifo_trim compaction_threshold h
      else if ltb (length h) count
      then h
      else compressed text ∷ drop count h
  replaced _ count h = fifo_trim compaction_threshold h

  -- session_compacting_.erase(session_id)
  abbrev pub unmark : Sessions J → String → Sessions J
  unmark s session = record s { compacting = keep_if (λ k. not (k == session)) s.compacting }

  -- CompactHistory after the call: a throw leaves at once.
  unfoldable pub finish_compaction : Sessions J → String → ℕ → ChatOutcome → Sessions J
  finish_compaction s session count threw = s
  finish_compaction s session count outcome =
      if member session s.sessions
      then with_history (unmark s session) session (replaced outcome count (history_of s session))
      else unmark s session

  -- `chat` is the backend, and `others` what happens to the sessions while it runs.
  unfoldable pub compact_history :
      (String → ChatOutcome) → (Sessions J → Sessions J) → Sessions J → String → Sessions J
  compact_history chat others s session =
      let history = history_of s session in
      let (marked, called) = begin_compaction s session in
      elim called [
        | none ↦ marked
        | some count ↦
            finish_compaction (others marked) session count
              (chat (compaction_prompt (take count history)))
      ]

  -- TrimHistory holds a reference to the history while the backend runs, so that `others` may not
  -- erase the session.
  unfoldable pub trim_history :
      (String → ChatOutcome) → (Sessions J → Sessions J) → Sessions J → String → Sessions J
  trim_history chat others s session =
      let s' =
        if ltb compaction_threshold (length (history_of s session))
        then compact_history chat others s session
        else s in
      with_history s' session (fifo_trim max_history_size (history_of s' session))
