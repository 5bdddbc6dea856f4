-- ===== src/EventBus/Queue.antt =====
-- Publishing and dispatching in any order: what is delivered, and what is lost.
use claw.Base.{
  ℕ, ◌≤◌, sym, Bool-cases, inl, inr, none, some, List, [], ◌∷◌, ◌++◌, append-nil, append_assoc,
  arith, length, length-append, length-drop, drop, leb, subst, ◌<◌,
}
use claw.EventBus.Defs.{
  SystemEvent, EventBus, enqueue, publish, dispatch, stamped, max_queue_size, new,
}

-- What happens to the queue.
pub data Step (J : Type 0) : Type 0 where
  published : ℕ → SystemEvent J → Step J
  dispatched : Step J

-- `Within xs ys`: xs is ys with some elements left out.
pub data Within {A : Type 0} : List A → List A → Type 0 where
  none_left : Within [] []
  keep : (a : A) {xs ys : List A} → Within xs ys → Within (a ∷ xs) (a ∷ ys)
  leave_out : (a : A) {xs ys : List A} → Within xs ys → Within xs (a ∷ ys)

module _ {A : Type 0} where
  Within-snoc : {xs ys : List A} (a : A) → Within xs ys → Within (xs ++ (a ∷ [])) (ys ++ (a ∷ []))
  Within-snoc a none_left = keep a none_left
  Within-snoc a (keep b w) = keep b (Within-snoc a w)
  Within-snoc a (leave_out b w) = leave_out b (Within-snoc a w)

  Within-drop_middle :
      (xs : List A) (a : A) (ys zs : List A) → Within (xs ++ (a ∷ ys)) zs → Within (xs ++ ys) zs
  Within-drop_middle [] a ys [] w = elim w [ ]
  Within-drop_middle (x ∷ xs) a ys [] w = elim w [ ]
  Within-drop_middle [] a ys (z ∷ zs) (keep _ w) = leave_out a w
  Within-drop_middle [] a ys (z ∷ zs) (leave_out _ w) =
      leave_out z (Within-drop_middle [] a ys zs w)
  Within-drop_middle (x ∷ xs) a ys (z ∷ zs) (keep _ w) = keep x (Within-drop_middle xs a ys zs w)
  Within-drop_middle (x ∷ xs) a ys (z ∷ zs) (leave_out _ w) =
      leave_out z (Within-drop_middle (x ∷ xs) a ys zs w)

module _ {J C : Type 0} where
  -- The bus after the steps, behind the events delivered so far.
  unfoldable pub deliver :
      List (Step J) → List (SystemEvent J) × EventBus J C → List (SystemEvent J) × EventBus J C
  deliver [] (sent, bus) = (sent, bus)
  deliver (published now event ∷ steps) (sent, bus) = deliver steps (sent, publish bus now event)
  deliver (dispatched ∷ steps) (sent, bus) =
      let (bus', taken) = dispatch bus in
      deliver steps (elim taken [ none ↦ sent | some e ↦ sent ++ (e.0 ∷ []) ], bus')

abbrev pub all_published : {J : Type 0} → List (Step J) → List (SystemEvent J)
all_published [] = []
all_published (published now event ∷ steps) = stamped now event ∷ all_published steps
all_published (dispatched ∷ steps) = all_published steps

module _ {J : Type 0} where
  length-enqueue :
      (q : List (SystemEvent J)) (e : SystemEvent J)
      → length q ≤ max_queue_size
      → length (enqueue q e) ≤ max_queue_size
  unfolding enqueue
  length-enqueue q e fits = elim (Bool-cases (leb max_queue_size (length q))) [
    | inl full ↦ rw full (omega (arith, length-append (drop 1 q) (e ∷ []), length-drop 1 q, fits))
    | inr free ↦
        let room : length q < max_queue_size = ground (arith, free) in
        rw free (omega (arith, length-append q (e ∷ []), room))
  ]

  Within-drop_first :
      (sent q all : List (SystemEvent J)) → Within (sent ++ q) all → Within (sent ++ drop 1 q) all
  Within-drop_first sent [] all w = w
  Within-drop_first sent (e ∷ q) all w = Within-drop_middle sent e q all w

  Within-enqueue :
      (sent q all : List (SystemEvent J)) (e : SystemEvent J)
      → Within (sent ++ q) all
      → Within (sent ++ enqueue q e) (all ++ (e ∷ []))
  unfolding enqueue
  Within-enqueue sent q all e w = elim (Bool-cases (leb max_queue_size (length q))) [
    | inl full ↦ rw full (
        subst (λ l. Within l (all ++ (e ∷ []))) (append_assoc sent (drop 1 q) (e ∷ []))
          (Within-snoc e (Within-drop_first sent q all w)))
    | inr free ↦
        rw free
          (subst (λ l. Within l (all ++ (e ∷ []))) (append_assoc sent q (e ∷ [])) (Within-snoc e w))
  ]

module _ {J C : Type 0} where
  deliver-Within_from :
      (steps : List (Step J)) (sent all : List (SystemEvent J)) (bus : EventBus J C)
      → Within (sent ++ bus.queue) all
      → length bus.queue ≤ max_queue_size
      → let (sent', bus') = deliver steps (sent, bus) in
        Within (sent' ++ bus'.queue) (all ++ all_published steps)
        × (length bus'.queue ≤ max_queue_size)
  unfolding deliver publish dispatch
  deliver-Within_from [] sent all bus w fits = (rw (append-nil all) w, fits)
  deliver-Within_from (published now event ∷ steps) sent all bus w fits =
      let e = stamped now event in
      subst
        (λ l.
          let (sent', bus') = deliver steps (sent, publish bus now event) in
          Within (sent' ++ bus'.queue) l × (length bus'.queue ≤ max_queue_size))
        (append_assoc all (e ∷ []) (all_published steps))
        (deliver-Within_from steps sent (all ++ (e ∷ [])) (publish bus now event)
          (Within-enqueue sent bus.queue all e w) (length-enqueue bus.queue e fits))
  deliver-Within_from (dispatched ∷ steps) sent all bus w fits =
      (elim bus.queue
          as (λ q.
            Within (sent ++ q) all
            → length q ≤ max_queue_size
            → let (sent', bus') = deliver (dispatched ∷ steps) (sent, record bus { queue = q }) in
              Within (sent' ++ bus'.queue) (all ++ all_published steps)
              × (length bus'.queue ≤ max_queue_size)) [
                | [] ↦ λ w f. deliver-Within_from steps sent all (record bus { queue = [] }) w f
                | e ∷ rest ↦ λ w f.
                    deliver-Within_from steps (sent ++ (e ∷ [])) all (record bus { queue = rest })
                      (subst (λ l. Within l all) (sym (append_assoc sent (e ∷ []) rest)) w)
                      (omega (arith, f))
              ])
        w fits

-- From a new bus, whatever is published and however the dispatch loop is interleaved with it: the
-- events delivered and then those still in the queue are events published, each at most once and
-- in the order in which they were published, and the queue never holds more than kMaxQueueSize.
pub deliver-Within :
    {J : Type 0} (C : Type 0) (steps : List (Step J))
    → let (sent, bus) = deliver steps ([], new {J = J} {C = C}) in
      Within (sent ++ bus.queue) (all_published steps) × (length bus.queue ≤ max_queue_size)
deliver-Within C steps = deliver-Within_from steps [] [] new none_left (omega arith)
