-- ===== src/ChatHistory/Bounds.antt =====
-- How long a history can be after TrimHistory, and what a compaction leaves of it.
use claw.Base.{
  ℕ, zero, suc, ◌+◌, ◌-◌, ◌≤◌, ◌<◌, String, ◌≡◌, refl, ap, ◌∙◌, true, false, some, List, [], ◌∷◌,
  arith, length, take, drop, ltb, leb, any, keep_if, not, ◌==◌, eq_iff, string_eq,
}
use claw.Base.Dict.{member, Dict, entry, insert, entry-insert}
use claw.ChatHistory.Defs.{
  LlmMessage, Sessions, ChatOutcome, answered, history_of, with_history, unmark, is_compacting,
  tool_run, extend, extend_from, compacted_count, fifo_trim, compressed, compaction_prompt,
  begin_compaction, finish_compaction, compact_history, trim_history, max_history_size,
  compaction_threshold,
}

unmark-idle :
    (session : String) (l : List String)
    → any (λ k. k == session) (keep_if (λ k. not (k == session)) l) ≡ false
unmark-idle session [] = refl
unmark-idle session (k ∷ l) = ground (arith, unmark-idle session l)

module _ {J : Type 0} where
  length-fifo_trim : (limit : ℕ) (h : List (LlmMessage J)) → length (fifo_trim limit h) ≤ limit
  unfolding fifo_trim
  length-fifo_trim limit [] = omega arith
  length-fifo_trim limit (m ∷ h) = ground (arith, length-fifo_trim limit h)

  pub entry-inserted :
      (m : Dict String (List (LlmMessage J))) (session : String) (h : List (LlmMessage J))
      → entry [] session (insert session h m) ≡ h
  entry-inserted m session h =
      ground (arith, entry-insert [] session session h m, eq_iff session session)

  tool_run-le : (h : List (LlmMessage J)) (room : ℕ) → tool_run h room ≤ room
  unfolding tool_run
  tool_run-le [] room = omega arith
  tool_run-le (m ∷ h) zero = omega arith
  tool_run-le (m ∷ h) (suc room) = ground (arith, tool_run-le h room)

  extend-le : (last : LlmMessage J) (h : List (LlmMessage J)) (room : ℕ) → extend last h room ≤ room
  unfolding extend
  extend-le last [] room = omega arith
  extend-le last (m ∷ h) zero = omega arith
  extend-le last (m ∷ h) (suc room) =
      ground (arith, tool_run-le (m ∷ h) (suc room), extend-le m h room)

  extend_from-le : (h : List (LlmMessage J)) (room : ℕ) → extend_from h room ≤ room
  unfolding extend_from
  extend_from-le [] room = omega arith
  extend_from-le (m ∷ h) room = extend-le m h room

  -- However the backend answers, throws or fails, and whatever other threads do to the sessions
  -- meanwhile, if only they do not erase the session, TrimHistory leaves at most kMaxHistorySize
  -- messages in the history.
  pub length-trim_history :
      (chat : String → ChatOutcome) (others : Sessions J → Sessions J) (s : Sessions J)
      (session : String)
      → ((t : Sessions J)
          → member session t.sessions ≡ true
          → member session (others t).sessions ≡ true)
      → length (history_of (trim_history chat others s session) session) ≤ max_history_size
  unfolding trim_history
  length-trim_history chat others s session stays =
      rw entry-inserted (length-fifo_trim max_history_size _)

  compacted_count-le :
      (h : List (LlmMessage J)) → compaction_threshold < length h → compacted_count h ≤ length h - 2
  unfolding compacted_count
  compacted_count-le h long = ground (arith, extend_from-le (drop 9 h) (length h - 2 - 10))

  pub begin_compaction-some :
      (s : Sessions J) (session : String)
      → compaction_threshold < length (history_of s session)
      → s.has_backend ≡ true
      → is_compacting s session ≡ false
      → begin_compaction s session ≡ (
        record s { compacting = session ∷ s.compacting },
        some (compacted_count (history_of s session)),
      )
  unfolding begin_compaction
  begin_compaction-some s session long backend idle =
      let e : leb (length (history_of s session)) compaction_threshold ≡ false =
        ground (arith, long) in
      simp (e, backend, idle) refl

  member-history :
      (session : String) (m : Dict String (List (LlmMessage J)))
      → 0 < length (entry [] session m)
      → member session m ≡ true
  unfolding entry
  member-history session m some_left = ground (arith, some_left)

  compact_history-answered :
      (chat : String → ChatOutcome) (s : Sessions J) (session text : String)
      → let h = history_of s session in
        let n = compacted_count h in
        compaction_threshold < length h
        → s.has_backend ≡ true
        → is_compacting s session ≡ false
        → chat (compaction_prompt (take n h)) ≡ answered text
        → (text == "") ≡ false
        → compact_history chat (λ t. t) s session
          ≡ with_history
              (unmark (record s { compacting = session ∷ s.compacting }) session)
              session
              (compressed text ∷ drop n h)
  unfolding compact_history finish_compaction begin_compaction
  compact_history-answered chat s session text long backend idle says full =
      let h = history_of s session in
      let fits : ltb (length h) (compacted_count h) ≡ false =
        ground (arith, compacted_count-le h long) in
      simp
        (
          begin_compaction-some s session long backend idle,
          says,
          member-history session s.sessions (omega (arith, long)),
          full,
          fits,
          compact_history,
          finish_compaction,
        )
        refl

  -- If the history is over the threshold, a backend is there, no compaction of the session is
  -- marked as running, nothing else happens meanwhile and the backend answers with a text that is
  -- not empty, then TrimHistory puts the compressed summary in the place of the oldest messages,
  -- keeps all the others, at least the last two, in their order, and unmarks the session; the hard
  -- limit then applies to that.
  pub trim_history-compacts :
      (chat : String → ChatOutcome) (s : Sessions J) (session text : String)
      → let h = history_of s session in
        let n = compacted_count h in
        compaction_threshold < length h
        → s.has_backend ≡ true
        → is_compacting s session ≡ false
        → chat (compaction_prompt (take n h)) ≡ answered text
        → (text == "") ≡ false
        → (history_of (trim_history chat (λ t. t) s session) session
            ≡ fifo_trim max_history_size (compressed text ∷ drop n h))
          × (n + 2 ≤ length h)
          × (is_compacting (trim_history chat (λ t. t) s session) session ≡ false)
  unfolding trim_history
  trim_history-compacts chat s session text long backend idle says full =
      let over : ltb compaction_threshold (length (history_of s session)) ≡ true =
        ground (arith, long) in
      rw (over, compact_history-answered chat s session text long backend idle says full)
        (
          entry-inserted _ session _ ∙ ap (fifo_trim max_history_size) (entry-inserted _ session _),
          omega (arith, compacted_count-le (history_of s session) long),
          unmark-idle session (session ∷ s.compacting),
        )
