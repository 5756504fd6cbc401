-- ===== src/FullCommit.antt =====
-- ConnManager.cpp: dispatcher_round2_fullCommit, with a function for each type of request that a
-- full commit can complete.
pub mod Client
pub mod Replicated
unfoldable pub use Client.*
unfoldable pub use Replicated.*
use rcanopus_membership.Prelude.{
  ℕ, zero, suc, ◌+◌, ◌-◌, ◌*◌, false, ◌==◌, if◌then◌else◌, List, [], ◌∷◌, Option, none, some, u16,
  u32, set, lookup,
}
use rcanopus_membership.Const.{
  version_latest, request_type_from_client, request_type_fetched_result,
  request_type_local_connectivity, request_type_remote_connectivity, request_type_local_membership,
  request_type_full_membership,
}
use rcanopus_membership.Outcome.{
  Outcome, done, thrown, preprepare_missing, invalid_request_type, ◌>>=◌, ◌>>◌, debug_throw,
  debug_throw_else_return,
}
use rcanopus_membership.Config.{Config, num_bg}
use rcanopus_membership.Message.{
  MessageRound2Preprepare, MessageRound2FullCommit, MessageRound3FetchResponse, message_invalid,
  message_round2_preprepare, message_round2_full_commit, message_round3_fetch_response,
  message_round3_connectivity_response, message_round3_membership_response, sizeof_header,
  sizeof_preprepare,
}
use rcanopus_membership.Message.Image.{bytes16, memcpy}
use rcanopus_membership.Message.Round3.{get_round3_response, unpack_fetch_response}
use rcanopus_membership.Manager.{
  ConnManager, Host, QueueElement, CycleStatus, is_round2_leader, juggle, at, is_none, is_state,
  await, new_cycle_status, round2_waiting_for_preprepare, round2_waiting_for_fullcommit,
  round2_committed, round3_waiting_for_local_connectivity,
  round3_waiting_for_replicated_connectivity, round3_waiting_for_local_membership,
  round3_waiting_for_replicated_membership, round3_committed as committed_state,
}
use rcanopus_membership.Round2.Leader.{start_round2_if_possible}
use rcanopus_membership.Round3.Envoy.{find_cycle, round3_committed}
use rcanopus_membership.Round3.Pending.{
  respond_to_pending_fetch_requests, respond_to_pending_fetch_connectivity_requests,
  respond_to_pending_fetch_membership_requests,
}
use rcanopus_membership.Round3.Fetch.{
  put_status, push_pending_preprepare, envoy_round3_send_fetch_request,
}
use rcanopus_membership.Round3.Connectivity.{envoy_round3_send_fetch_connectivity_request}
use rcanopus_membership.Round3.Membership.{
  all_reachable, envoy_round3_send_fetch_membership_request,
}
use rcanopus_membership.Round3.Membership.Votes.{count_votes}

-- The chain of tests on requestType.
unfoldable pub commit_by_type :
    Host
    → ConnManager
    → CycleStatus
    → MessageRound2Preprepare
    → MessageRound2FullCommit
    → Outcome ConnManager
unfolding commit_from_client commit_fetched_result commit_local_connectivity
    commit_remote_connectivity commit_local_membership commit_full_membership
commit_by_type h s st p full_c =
    if p.request_type == request_type_from_client
    then commit_from_client h s st p full_c
    else if p.request_type == request_type_fetched_result
    then commit_fetched_result h s p
    else if p.request_type == request_type_local_connectivity
    then commit_local_connectivity h s p full_c
    else if p.request_type == request_type_remote_connectivity
    then commit_remote_connectivity h s p
    else if p.request_type == request_type_local_membership
    then commit_local_membership h s p
    else if p.request_type == request_type_full_membership
    then commit_full_membership h s p
    else thrown invalid_request_type

-- The chain, with the status committed, and what the leader does after it.
unfoldable pub commit_stored :
    Host
    → ConnManager
    → CycleStatus
    → MessageRound2Preprepare
    → MessageRound2FullCommit
    → Outcome ConnManager
unfolding commit_by_type is_round2_leader
commit_stored h s st p full_c =
    let st' = record st { state = round2_committed } in
    commit_by_type h (record s { round2_current_status = some st' }) st' p full_c >>= λ s'.
    if is_round2_leader s' then start_round2_if_possible h s' else done s'

-- dispatcher_round2_fullCommit with a current status. Where a check in the chain returns from the
-- source's function, the current status is still there, so that nothing more happens here either.
unfoldable pub full_commit_in_status :
    Host → ConnManager → CycleStatus → QueueElement → MessageRound2FullCommit → Outcome ConnManager
unfolding juggle commit_stored
full_commit_in_status h s st e full_c =
    if is_state round2_waiting_for_preprepare st
    then done (juggle s e)
    else debug_throw_else_return h.debug_failfast (is_state round2_waiting_for_fullcommit st) s (
        debug_throw_else_return h.debug_failfast (full_c.view == st.round2_view) s (
          debug_throw_else_return h.debug_failfast (full_c.seq == st.round2_sequence) s
            (elim s.temporary_storage_of_preprepare [
              | none ↦ thrown preprepare_missing
              | some p ↦ commit_stored h s st p full_c
            ])))

unfoldable pub dispatcher_round2_full_commit :
    Host → ConnManager → QueueElement → MessageRound2FullCommit → Outcome ConnManager
unfolding full_commit_in_status
dispatcher_round2_full_commit h s e full_c = elim s.round2_current_status [
  | none ↦ done (juggle s e)
  | some st ↦ full_commit_in_status h s st e full_c
]
