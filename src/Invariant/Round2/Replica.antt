-- ===== src/Invariant/Round2/Replica.antt =====
-- ConnManager.cpp: the invariant across dispatcher_round2_preprepare and dispatcher_round2_partialCommit.
use rcanopus_membership.Prelude.{
  ltb, ◌<◌, ◌≡◌, refl, inl, inr, true, Option, none, some, arith, ◌==◌, not, ◌||◌, Option-cases,
}
use rcanopus_membership.Outcome.{
  Ensures, Ensures-mono, Ensures-debug_throw, Ensures->>=_any, Ensures-if,
  Ensures-debug_throw_else_return,
}
use rcanopus_membership.Config.{Config, num_bg, num_sl}
use rcanopus_membership.Message.{
  MessageRound2Preprepare, MessageRound2PartialCommit, message_round2_preprepare,
}
use rcanopus_membership.Manager.{
  state_code, state_code-injective, round2_collector_waiting_for_partialcommits, ConnManager, Host,
  CycleStatus, CycleState, QueueElement, is_round2_leader, round2_start_status, is_state,
  round2_waiting_for_preprepare,
}
use rcanopus_membership.Round2.Replica.{
  take_up_preprepare, preprepare_in_status, dispatcher_round2_preprepare, is_later,
  verify_partial_commit, count_partial_commit, partial_commit_in_status,
  dispatcher_round2_partial_commit,
}
use rcanopus_membership.Invariant.{Round2Ok, PhaseOk, Holds}
use rcanopus_membership.Invariant.Round2.{
  Stays, is_agreement, Handles, Handles-of_Stays, started, started-Round2Ok,
}

pub take_up_preprepare-Stays :
    (h : Host) (s : ConnManager) (st : CycleStatus) (p : MessageRound2Preprepare)
    → s.temporary_storage_of_preprepare ≡ none
    → 0 < num_sl s.config s.config.bg_id
    → Ensures (Stays s) (take_up_preprepare h s st p)
unfolding take_up_preprepare
take_up_preprepare-Stays h s st p stored pos = ground arith

count_partial_commit-Stays :
    (s : ConnManager) (st : CycleStatus)
    → Holds st s.temporary_storage_of_preprepare
    → st.message_received_counter < st.message_required
    → st.message_required ≡ num_sl s.config s.config.bg_id
    → st.awaiting_message_type ≡ 4
    → st.state ≡ CycleState.round2_collector_waiting_for_partialcommits
    → Stays s (count_partial_commit s st)
unfolding count_partial_commit
count_partial_commit-Stays s st held below all type state = ground arith

pub phase_of :
    (s : ConnManager) (st : CycleStatus)
    → s.round2_current_status ≡ some st
    → Round2Ok s
    → PhaseOk s.config st s.temporary_storage_of_preprepare st.state
phase_of s st current ok = rw current at ok

phase_awaiting :
    (c : Config) (st : CycleStatus) (stored : Option MessageRound2Preprepare) (state : CycleState)
    → PhaseOk c st stored state
    → st.awaiting_message_type ≡ 3
    → stored ≡ none
phase_awaiting c st stored round2_waiting_for_preprepare h type = h.3
phase_awaiting c st stored _ h type = ground arith

pub phase_collecting :
    (c : Config) (st : CycleStatus) (stored : Option MessageRound2Preprepare) (state : CycleState)
    → PhaseOk c st stored state
    → (state_code state == state_code round2_collector_waiting_for_partialcommits) ≡ true
    → (st.awaiting_message_type ≡ 4)
      × (st.message_received_counter < st.message_required)
      × (st.message_required ≡ num_sl c c.bg_id)
      × Holds st stored
phase_collecting c st stored round2_collector_waiting_for_partialcommits h test = h
phase_collecting c st stored _ h test = ground arith

pub awaiting_stores_nothing :
    (s : ConnManager) (st : CycleStatus)
    → s.round2_current_status ≡ some st
    → Round2Ok s
    → st.awaiting_message_type ≡ 3
    → s.temporary_storage_of_preprepare ≡ none
awaiting_stores_nothing s st current ok type =
    phase_awaiting s.config st s.temporary_storage_of_preprepare st.state (phase_of s st current ok)
      type

preprepare_in_status-Handles :
    (h : Host) (s : ConnManager) (st : CycleStatus) (e : QueueElement) (p : MessageRound2Preprepare)
    → is_agreement e.message ≡ true
    → 0 < num_sl s.config s.config.bg_id
    → s.round2_current_status ≡ some st
    → Round2Ok s
    → Ensures (Handles e s) (preprepare_in_status h s st e p)
unfolding preprepare_in_status
preprepare_in_status-Handles h s st e p agrees pos current ok =
    Ensures-if (Handles e s) (not (st.awaiting_message_type == message_round2_preprepare)) _ _
      (λ _. (refl, inr refl, ok, inl refl))
      λ awaited.
        Ensures-debug_throw (Handles e s) h.debug_failfast (st.message_received_counter == 0) _ (
          Ensures-debug_throw (Handles e s) h.debug_failfast (st.message_required == 1) _ (
            Ensures-if (Handles e s) (is_later s p) _ _ (λ _. (refl, inr refl, ok, inl refl))
              λ _.
                Ensures-debug_throw_else_return (Handles e s) h.debug_failfast
                  (p.view == s.round2_next_view) s _ (refl, inl refl, ok, inl refl)
                  λ _.
                    Ensures-debug_throw (Handles e s) h.debug_failfast
                      (is_round2_leader s || p.seq == s.round2_next_seq) _
                      (Ensures-mono (Stays s) (Handles e s) _
                        (take_up_preprepare-Stays h s st p
                          (awaiting_stores_nothing s st current ok (ground arith)) pos)
                        (λ t. Handles-of_Stays e s t agrees))))

pub dispatcher_round2_preprepare-Handles :
    (h : Host) (s : ConnManager) (e : QueueElement) (p : MessageRound2Preprepare)
    → is_agreement e.message ≡ true
    → 0 < num_sl s.config s.config.bg_id
    → Round2Ok s
    → Ensures (Handles e s) (dispatcher_round2_preprepare h s e p)
unfolding dispatcher_round2_preprepare
dispatcher_round2_preprepare-Handles h s e p agrees pos ok =
    elim (Option-cases s.round2_current_status) [
      | inl idle ↦
          rw (idle, dispatcher_round2_preprepare)
            (preprepare_in_status-Handles h (started s) (round2_start_status (num_bg s.config)) e p
              agrees pos refl (started-Round2Ok s ok (rw idle)))
      | inr (st, current) ↦
          rw (current, dispatcher_round2_preprepare)
            (preprepare_in_status-Handles h s st e p agrees pos current ok)
    ]

partial_commit_in_status-Handles :
    (h : Host) (s : ConnManager) (st : CycleStatus) (e : QueueElement)
    (p : MessageRound2PartialCommit)
    → is_agreement e.message ≡ true
    → s.round2_current_status ≡ some st
    → Round2Ok s
    → Ensures (Handles e s) (partial_commit_in_status h s st e p)
unfolding partial_commit_in_status
partial_commit_in_status-Handles h s st e p agrees current ok =
    Ensures-if (Handles e s) (is_state round2_waiting_for_preprepare st) _ _
      (λ _. (refl, inr refl, ok, inl refl))
      λ _.
        Ensures-if (Handles e s) (ltb st.round2_view p.view || ltb st.round2_sequence p.seq) _ _
          (λ _. (refl, inr refl, ok, inl refl))
          λ _.
            Ensures-debug_throw_else_return (Handles e s) h.debug_failfast s.round2_is_collector s _
              (refl, inl refl, ok, inl refl)
              λ _.
                Ensures-debug_throw_else_return (Handles e s) h.debug_failfast
                  (is_state round2_collector_waiting_for_partialcommits st) s _
                  (refl, inl refl, ok, inl refl)
                  λ collecting.
                    Ensures-debug_throw_else_return (Handles e s) h.debug_failfast
                      (p.view == st.round2_view) s _ (refl, inl refl, ok, inl refl)
                      λ _.
                        Ensures-debug_throw_else_return (Handles e s) h.debug_failfast
                          (p.seq == st.round2_sequence) s _ (refl, inl refl, ok, inl refl)
                          λ _. Ensures->>=_any (Handles e s) (verify_partial_commit s p) _ λ valid.
                            Ensures-debug_throw_else_return (Handles e s) h.debug_failfast valid s _
                              (refl, inl refl, ok, inl refl)
                              λ _.
                                let phase =
                                  phase_collecting s.config st s.temporary_storage_of_preprepare
                                    st.state (phase_of s st current ok) collecting in
                                Handles-of_Stays e s (count_partial_commit s st) agrees (
                                  count_partial_commit-Stays s st phase.3 phase.1 phase.2 phase.0 (
                                    state_code-injective st.state
                                      round2_collector_waiting_for_partialcommits (ground arith)))

pub dispatcher_round2_partial_commit-Handles :
    (h : Host) (s : ConnManager) (e : QueueElement) (p : MessageRound2PartialCommit)
    → is_agreement e.message ≡ true
    → Round2Ok s
    → Ensures (Handles e s) (dispatcher_round2_partial_commit h s e p)
unfolding dispatcher_round2_partial_commit
dispatcher_round2_partial_commit-Handles h s e p agrees ok =
    elim (Option-cases s.round2_current_status) [
      | inl idle ↦ rw (idle, dispatcher_round2_partial_commit) (refl, inr refl, ok, inl refl)
      | inr (st, current) ↦
          rw (current, dispatcher_round2_partial_commit)
            (partial_commit_in_status-Handles h s st e p agrees current ok)
    ]
