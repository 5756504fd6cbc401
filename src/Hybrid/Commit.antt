-- ===== src/Hybrid/Commit.antt =====
-- ConnManager_Hybrid.cpp: dispatcher_round2_fullCommit. A cycle enters Round 3 as in the baseline, and
-- the full commit of the connectivity checks the state of the cycle.
use rcanopus_membership.Prelude.{◌+◌, ◌-◌, ◌==◌, if◌then◌else◌, none, some, u16}
use rcanopus_membership.Const.{
  request_type_from_client, request_type_fetched_result, request_type_local_connectivity,
  request_type_remote_connectivity, request_type_local_membership, request_type_full_membership,
}
use rcanopus_membership.Outcome.{
  Outcome, done, thrown, preprepare_missing, invalid_request_type, ◌>>=◌, debug_throw_else_return,
}
use rcanopus_membership.Message.{MessageRound2Preprepare, MessageRound2FullCommit}
use rcanopus_membership.Manager.{
  ConnManager, Host, QueueElement, CycleStatus, juggle, is_state, round2_waiting_for_preprepare,
  round2_waiting_for_fullcommit, round2_committed, round3_waiting_for_local_connectivity,
}
use rcanopus_membership.Round3.Envoy.{find_cycle}
use rcanopus_membership.FullCommit.{
  commit_fetched_result, commit_local_connectivity, commit_remote_connectivity,
  commit_local_membership, commit_full_membership,
}
use rcanopus_membership.Baseline.Commit.{
  skip_baseline_cycles, commit_own_baseline_cycle, start_if_leader,
}

-- REQUEST_TYPE_FROM_CLIENT: the steps of the baseline, without its fake response.
unfoldable pub commit_hybrid_client :
    Host
    → ConnManager
    → CycleStatus
    → MessageRound2Preprepare
    → MessageRound2FullCommit
    → Outcome ConnManager
unfolding skip_baseline_cycles commit_own_baseline_cycle
commit_hybrid_client h s st p full_c =
    skip_baseline_cycles h s st p full_c (p.cycle - u16 (p.lastcycle + 1)) (u16 (p.lastcycle + 1))
    >>= λ s'. commit_own_baseline_cycle h s' st p full_c

-- REQUEST_TYPE_LOCAL_CONNECTIVITY: the check, and what ConnManager.cpp does.
unfoldable pub commit_hybrid_connectivity :
    Host → ConnManager → MessageRound2Preprepare → MessageRound2FullCommit → Outcome ConnManager
unfolding find_cycle commit_local_connectivity
commit_hybrid_connectivity h s p full_c = do
  cycle_status ← find_cycle s p.cycle
  debug_throw_else_return h.debug_failfast
      (is_state round3_waiting_for_local_connectivity cycle_status) s
      (commit_local_connectivity h s p full_c)

-- The chain of tests on requestType.
unfoldable pub commit_by_hybrid_type :
    Host
    → ConnManager
    → CycleStatus
    → MessageRound2Preprepare
    → MessageRound2FullCommit
    → Outcome ConnManager
unfolding commit_hybrid_client commit_hybrid_connectivity
commit_by_hybrid_type h s st p full_c =
    if p.request_type == request_type_from_client
    then commit_hybrid_client h s st p full_c
    else if p.request_type == request_type_fetched_result
    then commit_fetched_result h s p
    else if p.request_type == request_type_local_connectivity
    then commit_hybrid_connectivity h s p full_c
    else if p.request_type == request_type_remote_connectivity
    then commit_remote_connectivity h s p
    else if p.request_type == request_type_local_membership
    then commit_local_membership h s p
    else if p.request_type == request_type_full_membership
    then commit_full_membership h s p
    else thrown invalid_request_type

-- dispatcher_round2_fullCommit with a current status. Where a check in the chain returns from the
-- source's function, the current status is still there, so that no new Round 2 starts.
unfoldable pub hybrid_commit_in_status :
    Host → ConnManager → CycleStatus → QueueElement → MessageRound2FullCommit → Outcome ConnManager
unfolding juggle commit_by_hybrid_type start_if_leader
hybrid_commit_in_status h s st e full_c =
    if is_state round2_waiting_for_preprepare st
    then done (juggle s e)
    else debug_throw_else_return h.debug_failfast (is_state round2_waiting_for_fullcommit st) s (
        debug_throw_else_return h.debug_failfast (full_c.view == st.round2_view) s (
          debug_throw_else_return h.debug_failfast (full_c.seq == st.round2_sequence) s
            (elim s.temporary_storage_of_preprepare [
              | none ↦ thrown preprepare_missing
              | some p ↦
                  let st' = record st { state = round2_committed } in
                  commit_by_hybrid_type h (record s { round2_current_status = some st' }) st' p
                    full_c
                  >>= start_if_leader h
            ])))

unfoldable pub dispatcher_hybrid_full_commit :
    Host → ConnManager → QueueElement → MessageRound2FullCommit → Outcome ConnManager
unfolding hybrid_commit_in_status
dispatcher_hybrid_full_commit h s e full_c = elim s.round2_current_status [
  | none ↦ done (juggle s e)
  | some st ↦ hybrid_commit_in_status h s st e full_c
]
