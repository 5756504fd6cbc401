-- ===== src/Invariant/Hybrid/Commit.antt =====
-- ConnManager_Hybrid.cpp: a full commit keeps what holds of a node between two messages.
use rcanopus_membership.Prelude.{◌+◌, ◌-◌, ◌≡◌, ◌==◌, refl, inl, inr, some, u16, Option-cases}
use rcanopus_membership.Outcome.{
  ◌>>=◌, Ensures, Ensures-mono, Ensures->>=_any, Ensures-debug_throw_else_return, Ensures-if,
}
use rcanopus_membership.Message.{MessageRound2Preprepare, MessageRound2FullCommit}
use rcanopus_membership.Manager.{
  ConnManager, Host, QueueElement, CycleStatus, is_state, round2_committed,
  round2_waiting_for_preprepare, round2_waiting_for_fullcommit,
  round3_waiting_for_local_connectivity,
}
use rcanopus_membership.Round3.Envoy.{find_cycle}
use rcanopus_membership.Baseline.Commit.{start_if_leader}
use rcanopus_membership.Hybrid.Commit.{
  commit_hybrid_client, commit_hybrid_connectivity, commit_by_hybrid_type, hybrid_commit_in_status,
  dispatcher_hybrid_full_commit,
}
use rcanopus_membership.Invariant.{Frame-refl, Round2Ok, Holds}
use rcanopus_membership.Invariant.Round2.{Keeps, Handles, Handles-of_Keeps}
use rcanopus_membership.Invariant.Round2.Replica.{phase_of}
use rcanopus_membership.Invariant.FullCommit.{
  commit_fetched_result-Keeps, commit_local_connectivity-Keeps, commit_remote_connectivity-Keeps,
  commit_local_membership-Keeps, commit_full_membership-Keeps,
}
use rcanopus_membership.Invariant.FullCommit.Handler.{phase_fullcommit}
use rcanopus_membership.Invariant.Baseline.Commit.{
  then_Keeps, commit_cycles-Keeps, start_if_leader-Keeps,
}

commit_hybrid_connectivity-Keeps :
    (h : Host) (s : ConnManager) (p : MessageRound2Preprepare) (c : MessageRound2FullCommit)
    → Round2Ok s
    → Ensures (Keeps s) (commit_hybrid_connectivity h s p c)
unfolding commit_hybrid_connectivity
commit_hybrid_connectivity-Keeps h s p c ok =
    Ensures->>=_any (Keeps s) (find_cycle s p.cycle) _ λ st.
      Ensures-debug_throw_else_return (Keeps s) h.debug_failfast
        (is_state round3_waiting_for_local_connectivity st) s _ (refl, refl, ok, refl)
        λ _. commit_local_connectivity-Keeps h s p c ok

commit_by_hybrid_type-Keeps :
    (h : Host) (s : ConnManager) (st : CycleStatus) (p : MessageRound2Preprepare)
    (c : MessageRound2FullCommit)
    → Round2Ok s
    → Ensures (Keeps s) (commit_by_hybrid_type h s st p c)
unfolding commit_by_hybrid_type commit_hybrid_client
commit_by_hybrid_type-Keeps h s st p c ok =
    let first = u16 (p.lastcycle + 1) in
    Ensures-if (Keeps s) (p.request_type == 0) _ _
      (λ _. commit_cycles-Keeps h s s st p c (p.cycle - first) first (Frame-refl s) ok)
      λ _.
        Ensures-if (Keeps s) (p.request_type == 1) _ _ (λ _. commit_fetched_result-Keeps h s p ok)
          λ _.
            Ensures-if (Keeps s) (p.request_type == 2) _ _
              (λ _. commit_hybrid_connectivity-Keeps h s p c ok)
              λ _.
                Ensures-if (Keeps s) (p.request_type == 3) _ _
                  (λ _. commit_remote_connectivity-Keeps h s p ok)
                  λ _.
                    Ensures-if (Keeps s) (p.request_type == 4) _ _
                      (λ _. commit_local_membership-Keeps h s p ok)
                      λ _.
                        Ensures-if (Keeps s) (p.request_type == 5) _ _
                          (λ _. commit_full_membership-Keeps h s p) λ _. tt

commit_stored_hybrid-Keeps :
    (h : Host) (s : ConnManager) (st : CycleStatus) (p : MessageRound2Preprepare)
    (c : MessageRound2FullCommit)
    → st.awaiting_message_type ≡ 5
    → Holds st s.temporary_storage_of_preprepare
    → Ensures (Keeps s) (
        commit_by_hybrid_type h
          (record s { round2_current_status = some (record st { state = round2_committed }) })
          (record st { state = round2_committed })
          p
          c
        >>= start_if_leader h)
commit_stored_hybrid-Keeps h s st p c type held =
    let st' = record st { state = round2_committed } in
    let s' = record s { round2_current_status = some st' } in
    then_Keeps s' (commit_by_hybrid_type h s' st' p c) (start_if_leader h)
      (commit_by_hybrid_type-Keeps h s' st' p c (type, held)) (start_if_leader-Keeps h)

hybrid_commit_in_status-Handles :
    (h : Host) (s : ConnManager) (st : CycleStatus) (e : QueueElement) (c : MessageRound2FullCommit)
    → s.round2_current_status ≡ some st
    → Round2Ok s
    → Ensures (Handles e s) (hybrid_commit_in_status h s st e c)
unfolding hybrid_commit_in_status
hybrid_commit_in_status-Handles h s st e c current ok =
    Ensures-if (Handles e s) (is_state round2_waiting_for_preprepare st) _ _
      (λ _. (refl, inr refl, ok, inl refl))
      λ _.
        Ensures-debug_throw_else_return (Handles e s) h.debug_failfast
          (is_state round2_waiting_for_fullcommit st) s _ (refl, inl refl, ok, inl refl)
          λ waiting.
            Ensures-debug_throw_else_return (Handles e s) h.debug_failfast
              (c.view == st.round2_view) s _ (refl, inl refl, ok, inl refl)
              λ _.
                Ensures-debug_throw_else_return (Handles e s) h.debug_failfast
                  (c.seq == st.round2_sequence) s _ (refl, inl refl, ok, inl refl)
                  λ _.
                    let phase =
                      phase_fullcommit s.config st s.temporary_storage_of_preprepare st.state
                        (phase_of s st current ok) waiting in
                    elim (Option-cases s.temporary_storage_of_preprepare) [
                      | inl missing ↦ rw missing tt
                      | inr (p, stored) ↦ rw stored (
                          Ensures-mono (Keeps s) (Handles e s) _
                            (commit_stored_hybrid-Keeps h s st p c phase.0 phase.1)
                            (Handles-of_Keeps e s))
                    ]

pub dispatcher_hybrid_full_commit-Handles :
    (h : Host) (s : ConnManager) (e : QueueElement) (c : MessageRound2FullCommit)
    → Round2Ok s
    → Ensures (Handles e s) (dispatcher_hybrid_full_commit h s e c)
unfolding dispatcher_hybrid_full_commit
dispatcher_hybrid_full_commit-Handles h s e c ok = elim (Option-cases s.round2_current_status) [
  | inl idle ↦ rw (idle, dispatcher_hybrid_full_commit) (refl, inr refl, ok, inl refl)
  | inr (st, current) ↦
      rw (current, dispatcher_hybrid_full_commit)
        (hybrid_commit_in_status-Handles h s st e c current ok)
]
