-- ===== src/ChatHistory/Stuck.antt =====
-- What a throw of the backend in CompactHistory leaves behind: the mark of the session is erased
-- only on the ways that do not throw.
use claw.Base.{
  ◌<◌, String, none, ◌≡◌, refl, ap, ◌∙◌, Bool-cases, true, false, inl, inr, List, [], ◌∷◌, ◌++◌,
  arith, length, take, ltb, eq_iff, string_eq,
}
use claw.ChatHistory.Defs.{
  LlmMessage, Sessions, ChatOutcome, threw, history_of, with_history, is_compacting,
  compacted_count, fifo_trim, compaction_prompt, begin_compaction, finish_compaction,
  compact_history, trim_history, max_history_size, compaction_threshold,
}
use claw.ChatHistory.Bounds.{begin_compaction-some, entry-inserted}

module _ {J : Type 0} where
  begin_compaction-none :
      (s : Sessions J) (session : String)
      → is_compacting s session ≡ true
      → begin_compaction s session ≡ (s, none)
  unfolding begin_compaction
  begin_compaction-none s session marked = ground (arith, marked)

  compact_history-marked :
      (chat : String → ChatOutcome) (others : Sessions J → Sessions J) (s : Sessions J)
      (session : String)
      → is_compacting s session ≡ true
      → compact_history chat others s session ≡ s
  unfolding compact_history
  compact_history-marked chat others s session marked =
      simp (begin_compaction-none s session marked, compact_history) refl

  trim_history-marked :
      (chat : String → ChatOutcome) (others : Sessions J → Sessions J) (s : Sessions J)
      (session : String)
      → is_compacting s session ≡ true
      → trim_history chat others s session
        ≡ with_history s session (fifo_trim max_history_size (history_of s session))
  unfolding trim_history
  trim_history-marked chat others s session marked =
      elim (Bool-cases (ltb compaction_threshold (length (history_of s session)))) [
        | inl e ↦ rw (e, compact_history-marked chat others s session marked) refl
        | inr e ↦ rw e refl
      ]

  -- The messages of a turn are appended, then the history is trimmed. While the backend runs, other
  -- threads leave the sessions as they are.
  unfoldable pub turns :
      List ((String → ChatOutcome) × List (LlmMessage J)) → String → Sessions J → Sessions J
  turns [] session s = s
  turns ((chat, added) ∷ later) session s =
      turns later session (
        trim_history chat (λ t. t) (with_history s session (history_of s session ++ added)) session)

  -- The turns without any compaction.
  unfoldable pub untold :
      List ((String → ChatOutcome) × List (LlmMessage J))
      → List (LlmMessage J)
      → List (LlmMessage J)
  untold [] h = h
  untold ((chat, added) ∷ later) h = untold later (fifo_trim max_history_size (h ++ added))

  turns-marked :
      (later : List ((String → ChatOutcome) × List (LlmMessage J))) (session : String)
      (s : Sessions J)
      → is_compacting s session ≡ true
      → history_of (turns later session s) session ≡ untold later (history_of s session)
  unfolding turns untold
  turns-marked [] session s marked = refl
  turns-marked ((chat, added) ∷ later) session s marked =
      rw
        (
          trim_history-marked chat (λ t. t) (with_history s session (history_of s session ++ added))
              session marked,
          turns,
        )
        (turns-marked later session _ marked
          ∙ ap (untold later) (
              entry-inserted _ session _
              ∙ ap (fifo_trim max_history_size) (entry-inserted _ session _)))

  trim_history-threw :
      (chat : String → ChatOutcome) (s : Sessions J) (session : String)
      → let h = history_of s session in
        compaction_threshold < length h
        → s.has_backend ≡ true
        → is_compacting s session ≡ false
        → chat (compaction_prompt (take (compacted_count h) h)) ≡ threw
        → trim_history chat (λ t. t) s session
          ≡ with_history
              (record s { compacting = session ∷ s.compacting })
              session
              (fifo_trim max_history_size h)
  unfolding trim_history compact_history finish_compaction
  trim_history-threw chat s session long backend idle throws =
      let over : ltb compaction_threshold (length (history_of s session)) ≡ true =
        ground (arith, long) in
      simp
        (
          over,
          begin_compaction-some s session long backend idle,
          throws,
          compact_history,
          finish_compaction,
        )
        refl

  -- If the backend throws when it is asked for the summary of a history over the threshold, the
  -- session stays marked as being compacted: in all later turns, whatever messages they add and
  -- whatever the backend answers, the history is only cut to kMaxHistorySize and never compacted.
  pub turns-after_throw :
      (chat : String → ChatOutcome) (s : Sessions J) (session : String)
      (later : List ((String → ChatOutcome) × List (LlmMessage J)))
      → let h = history_of s session in
        compaction_threshold < length h
        → s.has_backend ≡ true
        → is_compacting s session ≡ false
        → chat (compaction_prompt (take (compacted_count h) h)) ≡ threw
        → history_of (turns later session (trim_history chat (λ t. t) s session)) session
          ≡ untold later (fifo_trim max_history_size h)
  turns-after_throw chat s session later long backend idle throws =
      let s' =
        with_history (record s { compacting = session ∷ s.compacting }) session
          (fifo_trim max_history_size (history_of s session)) in
      let marked : is_compacting s' session ≡ true = ground (arith, eq_iff session session) in
      rw (trim_history-threw chat s session long backend idle throws)
        (turns-marked later session s' marked ∙ ap (untold later) (entry-inserted _ session _))
