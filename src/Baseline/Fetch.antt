-- ===== src/Baseline/Fetch.antt =====
-- ConnManager_Baseline.cpp: the exchange of the groups' committed messages, in which every super leaf
-- asks for itself (envoy_round3_sendFetchRequest, dispatcher_round3_fetchRequest,
-- dispatcher_round3_fetchResponse).
pub mod Complete
use rcanopus_membership.Prelude.{
  ℕ, ◌-◌, ◌+◌, Bool, true, false, ◌==◌, if◌then◌else◌, ltb, List, [], ◌∷◌, Option, none, some, u16,
  lookup, set, length,
}
use rcanopus_membership.Const.{version_latest, request_type_local_connectivity}
use rcanopus_membership.Outcome.{
  Outcome, done, thrown, undefined, unexpected_cycle_state, ◌>>=◌, ◌>>◌, debug_throw,
}
use rcanopus_membership.Config.{Config, num_bg}
use rcanopus_membership.Message.{
  MessageRound2Preprepare, MessageRound3FetchRequest, MessageRound3FetchResponse, fetch_response,
  message_invalid, message_round2_preprepare, message_round2_full_commit,
  message_round3_fetch_response, sizeof_header, sizeof_preprepare,
}
use rcanopus_membership.Manager.{
  ConnManager, Host, CycleStatus, is_round2_leader, send, connection, is_state, storage_exist,
  await, round2_committed, round3_committed as committed_state,
  round3_waiting_for_replicated_results, round3_waiting_for_local_connectivity,
}
use rcanopus_membership.Round2.Leader.{start_round2_if_possible}
use rcanopus_membership.Round3.Envoy.{find_cycle, stored_at, round3_committed}
use rcanopus_membership.Round3.Pending.{add_pending}
use rcanopus_membership.Round3.Fetch.{put_status, push_pending_preprepare, send_fetch_request}

-- The rest of envoy_round3_sendFetchRequest: nobody asks who is an envoy.
unfoldable pub fetch_for_itself : Host → ConnManager → ℕ → CycleStatus → Outcome ConnManager
unfolding put_status await
fetch_for_itself h s cycle st =
    if num_bg s.config == 1
    then round3_committed (put_status s cycle (await committed_state message_invalid 0 st)) cycle
    else let st' =
        await round3_waiting_for_replicated_results message_round3_fetch_response
          (num_bg s.config - 1) st in
      send_fetch_request h (put_status s cycle st') st'

unfoldable pub send_baseline_fetch_request : Host → ConnManager → ℕ → Outcome ConnManager
unfolding find_cycle fetch_for_itself
send_baseline_fetch_request h s cycle = do
  st ← find_cycle s cycle
  if is_state round2_committed st
      then fetch_for_itself h s cycle st
      else thrown unexpected_cycle_state

-- The answer for a cycle that is stored: a copy of the fake response with the cycle.
unfoldable pub answer_stale_request : ConnManager → MessageRound3FetchRequest → Outcome ConnManager
unfolding send
answer_stale_request s p = elim s.fake_round3_response_for_baseline [
  | none ↦ undefined
  | some fake ↦ do
    recipient ← connection s.config p.sender_bg_id p.sender_sl_id
    done (
        send s (record {
          up_peers = recipient ∷ [];
          message = fetch_response (record fake { cycle = p.cycle });
        }))
]

unfoldable pub dispatcher_baseline_fetch_request :
    ConnManager → MessageRound3FetchRequest → Outcome ConnManager
unfolding add_pending send stored_at answer_stale_request
dispatcher_baseline_fetch_request s p = elim (lookup p.cycle s.map_round3_status) [
  | none ↦
      if storage_exist p.cycle s.storage
      then answer_stale_request s p
      else done (record s {
        map_round3_pending_fetch_requests =
            add_pending p.cycle (p.sender_bg_id, p.sender_sl_id)
              s.map_round3_pending_fetch_requests;
      })
  | some st ↦ do
    response ← stored_at st.fetch_response s.config.bg_id
    recipient ← connection s.config p.sender_bg_id p.sender_sl_id
    done (send s (record { up_peers = recipient ∷ []; message = fetch_response response }))
]

-- The loop that looks for a group without a response.
unfoldable pub all_there : List (Option MessageRound3FetchResponse) → Bool
all_there [] = true
all_there (none ∷ rest) = false
all_there (some p ∷ rest) = all_there rest

-- What the leader proposes to its group next: a message without connectivity.
unfoldable pub connectivity_proposal : Config → ℕ → MessageRound2Preprepare
connectivity_proposal c cycle = record {
  header = record {
    version = version_latest;
    msg_type = message_round2_preprepare;
    payload_len = sizeof_preprepare - sizeof_header + 0;
  };
  sender = u16 c.sl_id;
  view = 0;
  seq = 0;
  bg_id = u16 c.bg_id;
  request_type = request_type_local_connectivity;
  cycle = cycle;
  lastcycle = u16 (cycle + 65535);
  collector_sl_id = 0;
  num_of_round3_participants = 0;
  participants_and_content = [];
}

-- mapRound3Status[cycle]->rgMsgRound3FetchResponse[bg] = the response. The vector has an entry for
-- every group.
unfoldable pub keep_response : CycleStatus → MessageRound3FetchResponse → Outcome CycleStatus
keep_response st p =
    if ltb p.sender_bg_id (length st.fetch_response)
    then done (record st { fetch_response = set st.fetch_response p.sender_bg_id (some p) })
    else undefined

-- With a response of every group the cycle goes on.
unfoldable pub go_on_if_all_there : ConnManager → ℕ → CycleStatus → ConnManager
unfolding all_there put_status await is_round2_leader push_pending_preprepare connectivity_proposal
go_on_if_all_there s cycle st =
    let s' =
      put_status s cycle
        (await round3_waiting_for_local_connectivity message_round2_full_commit 1 st) in
    let proposed = push_pending_preprepare s' (connectivity_proposal s.config cycle) in
    if all_there st.fetch_response
    then if is_round2_leader s then proposed else s'
    else put_status s cycle st

unfoldable pub dispatcher_baseline_fetch_response :
    Host → ConnManager → MessageRound3FetchResponse → Outcome ConnManager
unfolding find_cycle keep_response go_on_if_all_there is_round2_leader
dispatcher_baseline_fetch_response h s p = do
  st ← find_cycle s p.cycle
  debug_throw h.debug_failfast (ltb 1 (num_bg s.config))
  st' ← keep_response st p
  let s' = go_on_if_all_there s p.cycle st'
  if is_round2_leader s' then start_round2_if_possible h s' else done s'
