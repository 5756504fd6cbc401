-- ===== src/Hybrid/Preprepare.antt =====
-- ConnManager_Hybrid.cpp: dispatcher_round2_preprepare, which lets a message on the connectivity of a
-- cycle wait until the cycle is ready for it.
use rcanopus_membership.Prelude.{
  true, false, not, ◌||◌, ◌==◌, if◌then◌else◌, ◌⊎◌, inl, inr, ◌≡◌, ◌≢◌, ap, ◌∙◌, none, some, arith,
  lookup, Option-cases,
}
use rcanopus_membership.Const.{request_type_local_connectivity}
use rcanopus_membership.Outcome.{Outcome, done, ◌>>◌, debug_throw, debug_throw_else_return}
use rcanopus_membership.Config.{num_bg}
use rcanopus_membership.Message.{MessageRound2Preprepare, message_round2_preprepare}
use rcanopus_membership.Manager.{
  ConnManager, Host, QueueElement, CycleStatus, is_round2_leader, juggle, is_state,
  round2_start_status, round3_waiting_for_local_connectivity,
}
use rcanopus_membership.Round2.Replica.{
  is_later, take_up_preprepare, preprepare_in_status, dispatcher_round2_preprepare,
}

-- What follows the checks of the view and sequence number.
unfoldable pub take_up_in_order :
    Host → ConnManager → CycleStatus → MessageRound2Preprepare → Outcome ConnManager
unfolding take_up_preprepare
take_up_in_order h s st p =
    debug_throw_else_return h.debug_failfast (p.view == s.round2_next_view) s (do
      debug_throw h.debug_failfast (is_round2_leader s || p.seq == s.round2_next_seq)
      take_up_preprepare h s st p)

-- "Ensure Round 3 has been finished".
unfoldable pub if_connectivity_ready :
    Host
    → ConnManager
    → QueueElement
    → MessageRound2Preprepare
    → Outcome ConnManager
    → Outcome ConnManager
unfolding juggle
if_connectivity_ready h s e p rest =
    if p.request_type == request_type_local_connectivity
    then (elim (lookup p.cycle s.map_round3_status) [
      | none ↦ debug_throw_else_return h.debug_failfast false s (done s)
      | some cycle_status ↦
          if is_state round3_waiting_for_local_connectivity cycle_status
          then rest
          else done (juggle s e)
    ])
    else rest

-- dispatcher_round2_preprepare with a current status.
unfoldable pub hybrid_preprepare_in_status :
    Host → ConnManager → CycleStatus → QueueElement → MessageRound2Preprepare → Outcome ConnManager
unfolding take_up_in_order if_connectivity_ready is_later juggle
hybrid_preprepare_in_status h s st e p =
    if not (st.awaiting_message_type == message_round2_preprepare) then done (juggle s e) else (do
      debug_throw h.debug_failfast (st.message_received_counter == 0)
      debug_throw h.debug_failfast (st.message_required == 1)
      if is_later s p
          then done (juggle s e)
          else if_connectivity_ready h s e p (take_up_in_order h s st p))

unfoldable pub dispatcher_hybrid_preprepare :
    Host → ConnManager → QueueElement → MessageRound2Preprepare → Outcome ConnManager
unfolding hybrid_preprepare_in_status round2_start_status
dispatcher_hybrid_preprepare h s e p = elim s.round2_current_status [
  | none ↦
      let st = round2_start_status (num_bg s.config) in
      hybrid_preprepare_in_status h (record s { round2_current_status = some st }) st e p
  | some st ↦ hybrid_preprepare_in_status h s st e p
]

-- The cycle of the message waits for its local connectivity.
abbrev pub IsReady : ConnManager → MessageRound2Preprepare → Type 0
IsReady s p =
    (cycle_status : CycleStatus) × (lookup p.cycle s.map_round3_status ≡ some cycle_status)
    × (is_state round3_waiting_for_local_connectivity cycle_status ≡ true)

ready_lem :
    (h : Host) (s : ConnManager) (e : QueueElement) (p : MessageRound2Preprepare)
    (rest : Outcome ConnManager)
    → (p.request_type ≢ 2) ⊎ IsReady s p
    → if_connectivity_ready h s e p rest ≡ rest
unfolding if_connectivity_ready
ready_lem h s e p rest (inl other) = ground arith
ready_lem h s e p rest (inr (cycle_status, there, ready)) = ground (arith, there, ready)

-- The checks that come first, before the rest.
abbrev in_order :
    Host
    → ConnManager
    → CycleStatus
    → QueueElement
    → MessageRound2Preprepare
    → Outcome ConnManager
    → Outcome ConnManager
in_order h s st e p rest =
    if not (st.awaiting_message_type == message_round2_preprepare) then done (juggle s e) else (do
      debug_throw h.debug_failfast (st.message_received_counter == 0)
      debug_throw h.debug_failfast (st.message_required == 1)
      if is_later s p then done (juggle s e) else rest)

in_status_lem :
    (h : Host) (s : ConnManager) (st : CycleStatus) (e : QueueElement) (p : MessageRound2Preprepare)
    → (p.request_type ≢ 2) ⊎ IsReady s p
    → hybrid_preprepare_in_status h s st e p ≡ preprepare_in_status h s st e p
unfolding hybrid_preprepare_in_status preprepare_in_status
in_status_lem h s st e p ready =
    ap (in_order h s st e p) (ready_lem h s e p (take_up_in_order h s st p) ready)

-- A preprepare of the hybrid variant that is not on the connectivity, or on that of a cycle that waits
-- for it, is handled as in ConnManager.cpp.
pub dispatcher_hybrid_preprepare_same :
    (h : Host) (s : ConnManager) (e : QueueElement) (p : MessageRound2Preprepare)
    → (p.request_type ≢ 2) ⊎ IsReady s p
    → dispatcher_hybrid_preprepare h s e p ≡ dispatcher_round2_preprepare h s e p
unfolding dispatcher_hybrid_preprepare dispatcher_round2_preprepare
dispatcher_hybrid_preprepare_same h s e p ready = elim (Option-cases s.round2_current_status) [
  | inl idle ↦
      rw (idle, dispatcher_hybrid_preprepare, dispatcher_round2_preprepare)
        (in_status_lem h
          (record s { round2_current_status = some (round2_start_status (num_bg s.config)) })
          (round2_start_status (num_bg s.config)) e p ready)
  | inr (st, current) ↦
      rw (current, dispatcher_hybrid_preprepare, dispatcher_round2_preprepare)
        (in_status_lem h s st e p ready)
]

-- A message on the connectivity of a cycle in Round 3 that is not ready for it.
abbrev pub IsEarly : ConnManager → MessageRound2Preprepare → Type 0
IsEarly s p =
    (p.request_type ≡ 2)
    × ((cycle_status : CycleStatus) × (lookup p.cycle s.map_round3_status ≡ some cycle_status)
        × (is_state round3_waiting_for_local_connectivity cycle_status ≡ false))

-- A node that has no status yet gets one.
abbrev pub entered : ConnManager → ConnManager
entered s = elim s.round2_current_status [
  | none ↦ record s { round2_current_status = some (round2_start_status (num_bg s.config)) }
  | some st ↦ s
]

early_lem :
    (h : Host) (s : ConnManager) (e : QueueElement) (p : MessageRound2Preprepare)
    (rest : Outcome ConnManager)
    → IsEarly s p
    → if_connectivity_ready h s e p rest ≡ done (juggle s e)
unfolding if_connectivity_ready
early_lem h s e p rest (of_type, (cycle_status, there, early)) = ground (arith, there, early)

in_status_early :
    (h : Host) (s : ConnManager) (st : CycleStatus) (e : QueueElement) (p : MessageRound2Preprepare)
    → h.debug_failfast ≡ false
    → IsEarly s p
    → hybrid_preprepare_in_status h s st e p ≡ done (juggle s e)
unfolding hybrid_preprepare_in_status
in_status_early h s st e p release early =
    ap (in_order h s st e p) (early_lem h s e p (take_up_in_order h s st p) early)
    ∙ ground (arith, release)

-- Without DEBUG_FAILFAST, a preprepare of the hybrid variant on the connectivity of a cycle in Round 3
-- that does not wait for it is put back, and nothing else happens than that a node without a status
-- gets one.
pub dispatcher_hybrid_preprepare_early :
    (h : Host) (s : ConnManager) (e : QueueElement) (p : MessageRound2Preprepare)
    → h.debug_failfast ≡ false
    → IsEarly s p
    → dispatcher_hybrid_preprepare h s e p ≡ done (juggle (entered s) e)
unfolding dispatcher_hybrid_preprepare
dispatcher_hybrid_preprepare_early h s e p release early =
    elim (Option-cases s.round2_current_status) [
      | inl idle ↦
          rw (idle, dispatcher_hybrid_preprepare, entered)
            (in_status_early h
              (record s { round2_current_status = some (round2_start_status (num_bg s.config)) })
              (round2_start_status (num_bg s.config)) e p release early)
      | inr (st, current) ↦
          rw (current, dispatcher_hybrid_preprepare, entered)
            (in_status_early h s st e p release early)
    ]
