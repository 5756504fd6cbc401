-- ===== src/Invariant/FullCommit/Handler.antt =====
-- ConnManager.cpp: the invariant across dispatcher_round2_fullCommit.
use rcanopus_membership.Prelude.{
  ◌≡◌, refl, ◌∙◌, inl, inr, true, Option, some, arith, if◌then◌else◌, ◌==◌, Option-cases,
}
use rcanopus_membership.Outcome.{
  done, Ensures, Ensures->>=, Ensures-mono, Ensures-if, Ensures-debug_throw_else_return,
}
use rcanopus_membership.Config.{Config}
use rcanopus_membership.Message.{MessageRound2Preprepare, MessageRound2FullCommit}
use rcanopus_membership.Manager.{
  ConnManager, Host, CycleStatus, CycleState, QueueElement, is_round2_leader, is_state, state_code,
  round2_waiting_for_preprepare, round2_waiting_for_fullcommit, round2_committed,
}
use rcanopus_membership.Round2.Leader.{start_round2_if_possible}
use rcanopus_membership.FullCommit.{
  commit_stored, commit_by_type, full_commit_in_status, dispatcher_round2_full_commit,
}
use rcanopus_membership.Invariant.{Round2Ok, PhaseOk, Holds}
use rcanopus_membership.Invariant.Round2.{
  Keeps, Handles, Handles-of_Keeps, start_round2_if_possible-Keeps,
}
use rcanopus_membership.Invariant.Round2.Replica.{phase_of}
use rcanopus_membership.Invariant.FullCommit.{commit_by_type-Keeps}

pub phase_fullcommit :
    (c : Config) (st : CycleStatus) (stored : Option MessageRound2Preprepare) (state : CycleState)
    → PhaseOk c st stored state
    → (state_code state == state_code round2_waiting_for_fullcommit) ≡ true
    → (st.awaiting_message_type ≡ 5) × Holds st stored
phase_fullcommit c st stored round2_waiting_for_fullcommit h test = (h.0, h.3)
phase_fullcommit c st stored _ h test = ground arith

commit_stored-Keeps :
    (h : Host) (s : ConnManager) (st : CycleStatus) (p : MessageRound2Preprepare)
    (c : MessageRound2FullCommit)
    → st.awaiting_message_type ≡ 5
    → Holds st s.temporary_storage_of_preprepare
    → Ensures (Keeps s) (commit_stored h s st p c)
unfolding commit_stored
commit_stored-Keeps h s st p c type held =
    let st' = record st { state = round2_committed } in
    let s' = record s { round2_current_status = some st' } in
    Ensures->>= (Keeps s') (Keeps s) (commit_by_type h s' st' p c)
      (λ t. if is_round2_leader t then start_round2_if_possible h t else done t)
      (commit_by_type-Keeps h s' st' p c (type, held))
      λ t k.
        Ensures-if (Keeps s) (is_round2_leader t) (start_round2_if_possible h t) (done t)
          (λ _.
            Ensures-mono (Keeps t) (Keeps s) (start_round2_if_possible h t)
              (start_round2_if_possible-Keeps h t k.2)
              λ u l. (l.0 ∙ k.0, l.1 ∙ k.1, l.2, l.3 ∙ k.3))
          (λ _. k)

full_commit_in_status-Handles :
    (h : Host) (s : ConnManager) (st : CycleStatus) (e : QueueElement) (c : MessageRound2FullCommit)
    → s.round2_current_status ≡ some st
    → Round2Ok s
    → Ensures (Handles e s) (full_commit_in_status h s st e c)
unfolding full_commit_in_status
full_commit_in_status-Handles h s st e c current ok =
    Ensures-if (Handles e s) (is_state round2_waiting_for_preprepare st) _ _
      (λ _. (refl, inr refl, ok, inl refl))
      λ _.
        Ensures-debug_throw_else_return (Handles e s) h.debug_failfast
          (is_state round2_waiting_for_fullcommit st) s _ (refl, inl refl, ok, inl refl)
          λ waiting.
            Ensures-debug_throw_else_return (Handles e s) h.debug_failfast
              (c.view == st.round2_view) s _ (refl, inl refl, ok, inl refl)
              λ _.
                Ensures-debug_throw_else_return (Handles e s) h.debug_failfast
                  (c.seq == st.round2_sequence) s _ (refl, inl refl, ok, inl refl)
                  λ _.
                    let phase =
                      phase_fullcommit s.config st s.temporary_storage_of_preprepare st.state
                        (phase_of s st current ok) waiting in
                    elim (Option-cases s.temporary_storage_of_preprepare) [
                      | inl missing ↦ rw missing tt
                      | inr (p, stored) ↦ rw stored (
                          Ensures-mono (Keeps s) (Handles e s) (commit_stored h s st p c)
                            (commit_stored-Keeps h s st p c phase.0 phase.1) (Handles-of_Keeps e s))
                    ]

pub dispatcher_round2_full_commit-Handles :
    (h : Host) (s : ConnManager) (e : QueueElement) (c : MessageRound2FullCommit)
    → Round2Ok s
    → Ensures (Handles e s) (dispatcher_round2_full_commit h s e c)
unfolding dispatcher_round2_full_commit
dispatcher_round2_full_commit-Handles h s e c ok = elim (Option-cases s.round2_current_status) [
  | inl idle ↦ rw (idle, dispatcher_round2_full_commit) (refl, inr refl, ok, inl refl)
  | inr (st, current) ↦
      rw (current, dispatcher_round2_full_commit)
        (full_commit_in_status-Handles h s st e c current ok)
]
