-- ===== src/Invariant/Hybrid/Preprepare.antt =====
-- ConnManager_Hybrid.cpp: the preprepare handler keeps what holds of a node between two messages.
use rcanopus_membership.Prelude.{
  ◌<◌, ◌≡◌, ◌==◌, ◌||◌, not, true, false, refl, inl, inr, some, arith, lookup, Option-cases,
}
use rcanopus_membership.Outcome.{
  Outcome, done, Ensures, Ensures-mono, Ensures-debug_throw, Ensures-debug_throw_else_return,
  Ensures-if,
}
use rcanopus_membership.Config.{num_bg, num_sl}
use rcanopus_membership.Message.{MessageRound2Preprepare, message_round2_preprepare}
use rcanopus_membership.Manager.{
  ConnManager, Host, QueueElement, CycleStatus, is_round2_leader, is_state, round2_start_status,
  round3_waiting_for_local_connectivity,
}
use rcanopus_membership.Round2.Replica.{is_later}
use rcanopus_membership.Hybrid.Preprepare.{
  take_up_in_order, if_connectivity_ready, hybrid_preprepare_in_status,
  dispatcher_hybrid_preprepare,
}
use rcanopus_membership.Invariant.{Round2Ok}
use rcanopus_membership.Invariant.Round2.{
  Stays, Handles, Handles-of_Stays, is_agreement, started, started-Round2Ok,
}
use rcanopus_membership.Invariant.Round2.Replica.{take_up_preprepare-Stays, awaiting_stores_nothing}

take_up_in_order-Handles :
    (h : Host) (s : ConnManager) (st : CycleStatus) (e : QueueElement) (p : MessageRound2Preprepare)
    → is_agreement e.message ≡ true
    → 0 < num_sl s.config s.config.bg_id
    → s.round2_current_status ≡ some st
    → Round2Ok s
    → st.awaiting_message_type ≡ 3
    → Ensures (Handles e s) (take_up_in_order h s st p)
unfolding take_up_in_order
take_up_in_order-Handles h s st e p agrees pos current ok type =
    Ensures-debug_throw_else_return (Handles e s) h.debug_failfast (p.view == s.round2_next_view) s
      _ (refl, inl refl, ok, inl refl)
      λ _.
        Ensures-debug_throw (Handles e s) h.debug_failfast
          (is_round2_leader s || p.seq == s.round2_next_seq) _
          (Ensures-mono (Stays s) (Handles e s) _
            (take_up_preprepare-Stays h s st p (awaiting_stores_nothing s st current ok type) pos)
            (λ t. Handles-of_Stays e s t agrees))

if_connectivity_ready-Handles :
    (h : Host) (s : ConnManager) (e : QueueElement) (p : MessageRound2Preprepare)
    (rest : Outcome ConnManager)
    → Round2Ok s
    → Ensures (Handles e s) rest
    → Ensures (Handles e s) (if_connectivity_ready h s e p rest)
unfolding if_connectivity_ready
if_connectivity_ready-Handles h s e p rest ok handled =
    Ensures-if (Handles e s) (p.request_type == 2) _ _
      (λ _. elim (Option-cases (lookup p.cycle s.map_round3_status)) [
        | inl missing ↦ rw missing (
            Ensures-debug_throw_else_return (Handles e s) h.debug_failfast false s (done s)
              (refl, inl refl, ok, inl refl) λ _. (refl, inl refl, ok, inl refl))
        | inr (cycle_status, there) ↦ rw there (
            Ensures-if (Handles e s) (is_state round3_waiting_for_local_connectivity cycle_status)
              rest _ (λ _. handled) (λ _. (refl, inr refl, ok, inl refl)))
      ])
      (λ _. handled)

hybrid_preprepare_in_status-Handles :
    (h : Host) (s : ConnManager) (st : CycleStatus) (e : QueueElement) (p : MessageRound2Preprepare)
    → is_agreement e.message ≡ true
    → 0 < num_sl s.config s.config.bg_id
    → s.round2_current_status ≡ some st
    → Round2Ok s
    → Ensures (Handles e s) (hybrid_preprepare_in_status h s st e p)
unfolding hybrid_preprepare_in_status
hybrid_preprepare_in_status-Handles h s st e p agrees pos current ok =
    Ensures-if (Handles e s) (not (st.awaiting_message_type == message_round2_preprepare)) _ _
      (λ _. (refl, inr refl, ok, inl refl))
      λ awaited.
        Ensures-debug_throw (Handles e s) h.debug_failfast (st.message_received_counter == 0) _ (
          Ensures-debug_throw (Handles e s) h.debug_failfast (st.message_required == 1) _ (
            Ensures-if (Handles e s) (is_later s p) _ _ (λ _. (refl, inr refl, ok, inl refl))
              λ _.
                if_connectivity_ready-Handles h s e p (take_up_in_order h s st p) ok
                  (take_up_in_order-Handles h s st e p agrees pos current ok (ground arith))))

pub dispatcher_hybrid_preprepare-Handles :
    (h : Host) (s : ConnManager) (e : QueueElement) (p : MessageRound2Preprepare)
    → is_agreement e.message ≡ true
    → 0 < num_sl s.config s.config.bg_id
    → Round2Ok s
    → Ensures (Handles e s) (dispatcher_hybrid_preprepare h s e p)
unfolding dispatcher_hybrid_preprepare
dispatcher_hybrid_preprepare-Handles h s e p agrees pos ok =
    elim (Option-cases s.round2_current_status) [
      | inl idle ↦
          rw (idle, dispatcher_hybrid_preprepare)
            (hybrid_preprepare_in_status-Handles h (started s)
              (round2_start_status (num_bg s.config)) e p agrees pos refl
              (started-Round2Ok s ok (rw idle)))
      | inr (st, current) ↦
          rw (current, dispatcher_hybrid_preprepare)
            (hybrid_preprepare_in_status-Handles h s st e p agrees pos current ok)
    ]
