-- ===== src/Swarm/Peers.antt =====
-- The table of peers over time.
use claw.Base.{
  String, ◌≡◌, refl, ap, ◌∙◌, subst, Bool, true, false, Option, none, some, List, [], ◌∷◌, ◌==◌,
  string_eq, arith, if_cases, if◌then◌else◌,
}
use claw.Base.Int.{ℤ, pos, ◌-ℤ◌, ltb_ℤ}
use claw.Base.Dict.{
  lookup, erase, lookup-insert, lookup-erase, lookup-nil, Distinct, Distinct-insert, Distinct-erase,
  lookup-keep_if, Distinct-keep_if,
}
use claw.Json.{JsonLib, value}
use claw.Base.Options.{◌>>=◌}
use claw.Swarm.Defs.{
  SwarmPeer, Peers, is_fresh, remove_stale_peers, peer_timeout_ms, update_peer, update_with,
  write_peer, heard, peer_before, set_type, set_capabilities, get_strings,
}

module _ (json : JsonLib) where
  open json use {Json, get_string}

  -- What happens to the table: a heartbeat packet from an address, and a turn of HeartbeatLoop.
  pub data Step : Type 0 where
    packet : String → Json → ℤ → Step
    sweep : ℤ → Step

  unfoldable pub after_step : Step → Peers → Option Peers
  after_step (packet ip info now) peers = update_peer json peers ip info now
  after_step (sweep now) peers = some (remove_stale_peers now peers)

  -- The table after some steps; `none` where a packet ended the program.
  abbrev pub after_steps : List Step → Peers → Option Peers
  after_steps [] peers = some peers
  after_steps (s ∷ steps) peers = elim (after_step s peers) [
    | none ↦ none
    | some peers' ↦ after_steps steps peers'
  ]

  -- What a packet does to the time at which its sender was last heard.
  abbrev pub heard_at : Json → ℤ → Option ℤ
  heard_at info now = elim (value json get_string info "status" "active") [
    | none ↦ none
    | some status ↦ if status == "leaving" then none else some now
  ]

  abbrev pub not_timed_out : ℤ → Option ℤ → Option ℤ
  not_timed_out now none = none
  not_timed_out now (some t) = if ltb_ℤ t (now -ℤ pos peer_timeout_ms) then none else some t

  -- What a step does to the time at which an address was last heard.
  abbrev pub step_heard : String → Step → Option ℤ → Option ℤ
  step_heard ip (packet sender info now) before = if sender == ip then heard_at info now else before
  step_heard ip (sweep now) before = not_timed_out now before

  -- When an address was last heard, from its own packets alone: none before the first, after it left,
  -- and after a sweep that comes more than the timeout later.
  abbrev pub last_heard : String → List Step → Option ℤ → Option ℤ
  last_heard ip [] before = before
  last_heard ip (s ∷ steps) before = last_heard ip steps (step_heard ip s before)

  abbrev pub seen : Option SwarmPeer → Option ℤ
  seen none = none
  seen (some peer) = some peer.last_seen_ms

  -- A peer that was heard of at this time, where there is one.
  abbrev SeenAt : ℤ → Option SwarmPeer → Type 0
  SeenAt now none = Unit
  SeenAt now (some peer) = peer.last_seen_ms ≡ now

  bind-SeenAt :
      {A : Type 0} (now : ℤ) (o : Option A) (f : A → Option SwarmPeer)
      → ((a : A) → SeenAt now (f a))
      → SeenAt now (o >>= f)
  bind-SeenAt now none f h = tt
  bind-SeenAt now (some a) f h = h a

  set_type-SeenAt :
      (o : Option Json) (now : ℤ) (peer : SwarmPeer)
      → SeenAt now (set_type json o (record peer { last_seen_ms = now }))
  set_type-SeenAt none now peer = refl
  set_type-SeenAt (some j) now peer =
      bind-SeenAt now (get_string j)
        (λ t. some (record peer { device_type = t; last_seen_ms = now })) (λ t. refl)

  set_capabilities-SeenAt :
      (o : Option Json) (now : ℤ) (peer : SwarmPeer)
      → peer.last_seen_ms ≡ now
      → SeenAt now (set_capabilities json o peer)
  set_capabilities-SeenAt none now peer h = h
  set_capabilities-SeenAt (some j) now peer h =
      if_cases (SeenAt now) (json.is_array j) _ _
        (λ e.
          bind-SeenAt now (get_strings json (json.elements j))
            (λ c. some (record peer { capabilities = c })) (λ c. h))
        (λ e. h)

  heard-SeenAt : (info : Json) (now : ℤ) (peer : SwarmPeer) → SeenAt now (heard json info now peer)
  heard-SeenAt info now peer =
      with_type (set_type json (json.at info "device_type") (record peer { last_seen_ms = now }))
        (set_type-SeenAt (json.at info "device_type") now peer)
    where
      with_type :
          (o : Option SwarmPeer)
          → SeenAt now o
          → SeenAt now (o >>= set_capabilities json (json.at info "capabilities"))
      with_type none h = tt
      with_type (some p) h = set_capabilities-SeenAt (json.at info "capabilities") now p h

  abbrev Follows : String → Option ℤ → Option Peers → Type 0
  Follows ip time none = Unit
  Follows ip time (some peers) = Distinct peers × (seen (lookup ip peers) ≡ time)

  write_peer-Follows :
      (ip sender : String) (now : ℤ) (peers : Peers) (o : Option SwarmPeer)
      → Distinct peers
      → SeenAt now o
      → Follows ip
          (if sender == ip then some now else seen (lookup ip peers))
          (write_peer json peers sender o)
  write_peer-Follows ip sender now peers none d h = tt
  write_peer-Follows ip sender now peers (some p) d h =
      (Distinct-insert sender p peers d, ground (arith, lookup-insert sender ip p peers, h))

  seen-sweep :
      (now : ℤ) (o : Option SwarmPeer)
      → seen (elim o [ none ↦ none | some p ↦ if is_fresh now p then some p else none ])
        ≡ not_timed_out now (seen o)
  seen-sweep now none = refl
  seen-sweep now (some p) = ground arith

  leaving-Follows :
      (ip sender : String) (info : Json) (now : ℤ) (peers : Peers) (leaving : Bool)
      → Distinct peers
      → Follows ip
          (if sender == ip then (if leaving then none else some now) else seen (lookup ip peers))
          (if leaving
            then some (erase sender peers)
            else write_peer json peers sender
                (heard json info now (peer_before json (lookup sender peers) sender)))
  leaving-Follows ip sender info now peers true d =
      (Distinct-erase sender peers d, ground (arith, lookup-erase sender ip peers))
  leaving-Follows ip sender info now peers false d =
      let before = peer_before json (lookup sender peers) sender in
      write_peer-Follows ip sender now peers (heard json info now before) d
        (heard-SeenAt info now before)

  step-Follows :
      (ip : String) (s : Step) (peers : Peers)
      → Distinct peers
      → Follows ip (step_heard ip s (seen (lookup ip peers))) (after_step s peers)
  unfolding after_step remove_stale_peers update_peer
  step-Follows ip (sweep now) peers d = (
    Distinct-keep_if (λ (b : String × SwarmPeer). is_fresh now b.1) peers d,
    ap seen (lookup-keep_if (is_fresh now) ip peers d) ∙ seen-sweep now (lookup ip peers),
  )
  step-Follows ip (packet sender info now) peers d =
      by_status (value json get_string info "status" "active")
    where
      by_status :
          (o : Option String)
          → Follows ip
              (if sender == ip
                then (elim o as (λ _. Option ℤ) [
                  | none ↦ none
                  | some status ↦ if status == "leaving" then none else some now
                ])
                else seen (lookup ip peers))
              (update_with json peers sender info now o)
      by_status none = tt
      by_status (some status) = leaving-Follows ip sender info now peers (status == "leaving") d

  -- The rest of the steps, from what a step left of the table.
  abbrev go_on : List Step → Option Peers → Option Peers
  go_on steps none = none
  go_on steps (some peers) = after_steps steps peers

  steps-Follow :
      (ip : String) (steps : List Step) (peers : Peers) (before : Option ℤ)
      → Distinct peers
      → seen (lookup ip peers) ≡ before
      → Follows ip (last_heard ip steps before) (after_steps steps peers)
  steps-Follow ip [] peers before d e = (d, e)
  steps-Follow ip (s ∷ steps) peers before d e =
      by_table (after_step s peers)
        (subst (λ t. Follows ip (step_heard ip s t) (after_step s peers)) e
          (step-Follows ip s peers d))
        (λ peers' h. steps-Follow ip steps peers' (step_heard ip s before) h.0 h.1)
    where
      by_table :
          (o : Option Peers)
          → Follows ip (step_heard ip s before) o
          → ((peers' : Peers)
              → Follows ip (step_heard ip s before) (some peers')
              → Follows ip (last_heard ip (s ∷ steps) before) (after_steps steps peers'))
          → Follows ip (last_heard ip (s ∷ steps) before) (go_on steps o)
      by_table none h later = tt
      by_table (some peers') h later = later peers' h

  -- After any packets and sweeps that did not end the program, the table has a peer at an address if
  -- and only if that address was heard of since it last left and no sweep came more than the timeout
  -- after that; and its time is that of the last packet of the address. Packets of other addresses
  -- play no part.
  pub seen-after_steps :
      (ip : String) (steps : List Step) (peers : Peers)
      → after_steps steps [] ≡ some peers
      → seen (lookup ip peers) ≡ last_heard ip steps none
  seen-after_steps ip steps peers e =
      (subst (Follows ip (last_heard ip steps none)) e
        (steps-Follow ip steps [] none tt (ap seen (lookup-nil {V = SwarmPeer} ip)))).1
