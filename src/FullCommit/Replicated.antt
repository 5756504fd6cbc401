-- ===== src/FullCommit/Replicated.antt =====
-- ConnManager.cpp, dispatcher_round2_fullCommit, lines 1074 to 1370: a message that replicates what
-- came from the groups in Round 3.
use rcanopus_membership.Prelude.{
  ℕ, ◌+◌, ◌-◌, false, ◌==◌, if◌then◌else◌, List, [], ◌∷◌, Option, some, u16, u32, set,
}
use rcanopus_membership.Const.{version_latest, request_type_local_connectivity}
use rcanopus_membership.Outcome.{Outcome, done, ◌>>=◌, ◌>>◌, debug_throw, debug_throw_else_return}
use rcanopus_membership.Config.{Config, num_bg}
use rcanopus_membership.Message.{
  MessageRound2Preprepare, MessageRound2FullCommit, MessageRound3FetchResponse, message_invalid,
  message_round2_preprepare, message_round2_full_commit, message_round3_fetch_response,
  message_round3_connectivity_response, message_round3_membership_response, sizeof_header,
  sizeof_preprepare,
}
use rcanopus_membership.Message.Image.{bytes16}
use rcanopus_membership.Message.Round3.{get_round3_response, unpack_fetch_response}
use rcanopus_membership.Manager.{
  ConnManager, Host, CycleStatus, is_round2_leader, at, is_none, is_state, await,
  round3_waiting_for_local_connectivity, round3_waiting_for_replicated_connectivity,
  round3_waiting_for_local_membership, round3_waiting_for_replicated_membership,
  round3_committed as committed_state,
}
use rcanopus_membership.Round3.Envoy.{find_cycle, round3_committed}
use rcanopus_membership.Round3.Pending.{
  respond_to_pending_fetch_connectivity_requests, respond_to_pending_fetch_membership_requests,
}
use rcanopus_membership.Round3.Fetch.{put_status, push_pending_preprepare}
use rcanopus_membership.Round3.Connectivity.{envoy_round3_send_fetch_connectivity_request}
use rcanopus_membership.Round3.Membership.{
  all_reachable, envoy_round3_send_fetch_membership_request,
}
use rcanopus_membership.Round3.Membership.Votes.{count_votes}
use rcanopus_membership.FullCommit.Client.{leave_round2}

-- The message by which the leader asks its group to agree on the groups that it got results from.
unfoldable pub presence_bytes : List (Option MessageRound3FetchResponse) → List ℕ
presence_bytes [] = []
presence_bytes (response ∷ rest) = (if is_none response then 0 else 1) ∷ presence_bytes rest

unfoldable pub local_connectivity_preprepare : Config → ℕ → CycleStatus → MessageRound2Preprepare
unfolding presence_bytes
local_connectivity_preprepare c cycle st = record {
  header = record {
    version = version_latest;
    msg_type = message_round2_preprepare;
    payload_len = u32 (sizeof_preprepare - sizeof_header + (2 + num_bg c));
  };
  sender = u16 c.sl_id;
  view = 0;
  seq = 0;
  bg_id = u16 c.bg_id;
  request_type = request_type_local_connectivity;
  cycle = cycle;
  lastcycle = u16 (cycle + 65535);
  collector_sl_id = 0;
  num_of_round3_participants = 0;
  participants_and_content = bytes16 (u16 (num_bg c)) (presence_bytes st.fetch_response);
}

-- A replicated result is counted; with the last one the cycle goes on to the connectivity.
unfoldable pub count_fetched_result : ConnManager → ℕ → CycleStatus → ConnManager
unfolding local_connectivity_preprepare put_status push_pending_preprepare is_round2_leader await
count_fetched_result s cycle st =
    let st' = record st { message_received_counter = st.message_received_counter + 1 } in
    if st'.message_received_counter == st'.message_required
    then (let st'' = await round3_waiting_for_local_connectivity message_round2_full_commit 1 st' in
        let s' = put_status s cycle st'' in
        if is_round2_leader s
        then push_pending_preprepare s' (local_connectivity_preprepare s.config cycle st'')
        else s')
    else put_status s cycle st'

-- REQUEST_TYPE_FETCHED_RESULT.
unfoldable pub commit_fetched_result :
    Host → ConnManager → MessageRound2Preprepare → Outcome ConnManager
unfolding count_fetched_result leave_round2 find_cycle
commit_fetched_result h s p = do
  st ← find_cycle s p.cycle
  response ← unpack_fetch_response p
  entry ← at st.fetch_response p.bg_id
  debug_throw_else_return h.debug_failfast (is_none entry) s (do
    let st' = record st { fetch_response = set st.fetch_response p.bg_id (some response) }
    debug_throw h.debug_failfast (st.awaiting_message_type == message_round3_fetch_response)
    done (count_fetched_result (leave_round2 s) p.cycle st'))

-- The answers to who waits for the connectivity, and the questions to the other groups.
unfoldable pub exchange_connectivity : Host → ConnManager → ℕ → Outcome ConnManager
exchange_connectivity h s cycle = respond_to_pending_fetch_connectivity_requests s cycle >>= λ s'.
    envoy_round3_send_fetch_connectivity_request h s' cycle

-- The same for the membership.
unfoldable pub exchange_membership : Host → ConnManager → ℕ → Outcome ConnManager
exchange_membership h s cycle = respond_to_pending_fetch_membership_requests s cycle >>= λ s'.
    envoy_round3_send_fetch_membership_request h s' cycle

-- REQUEST_TYPE_LOCAL_CONNECTIVITY.
unfoldable pub commit_local_connectivity :
    Host → ConnManager → MessageRound2Preprepare → MessageRound2FullCommit → Outcome ConnManager
unfolding leave_round2 find_cycle put_status await exchange_connectivity
commit_local_connectivity h s p full_c = do
  st ← find_cycle s p.cycle
  made ← get_round3_response p full_c (u16 s.config.sl_id) p.cycle
  let response = record made {
    header = record {
      version = made.header.version;
      msg_type = message_round3_connectivity_response;
      payload_len = made.header.payload_len;
    };
  }
  entry ← at st.connectivity_response s.config.bg_id
  debug_throw_else_return h.debug_failfast (is_none entry) s (do
    let st' =
        await round3_waiting_for_replicated_connectivity message_round3_connectivity_response
          (num_bg s.config - 1)
          (record st {
            connectivity_response = set st.connectivity_response s.config.bg_id (some response);
          })
    exchange_connectivity h (put_status (leave_round2 s) p.cycle st') p.cycle)

-- REQUEST_TYPE_REMOTE_CONNECTIVITY. The message that the leader builds at the end is never queued.
unfoldable pub commit_remote_connectivity :
    Host → ConnManager → MessageRound2Preprepare → Outcome ConnManager
unfolding leave_round2 find_cycle put_status await
commit_remote_connectivity h s p = do
  debug_throw h.debug_failfast false
  st ← find_cycle s p.cycle
  made ← unpack_fetch_response p
  let response = record made {
    header = record {
      version = made.header.version;
      msg_type = message_round3_connectivity_response;
      payload_len = made.header.payload_len;
    };
  }
  entry ← at st.fetch_response p.bg_id
  debug_throw_else_return h.debug_failfast (is_none entry) s (do
    let st' = record st {
      fetch_response = set st.fetch_response p.bg_id (some response);
      message_received_counter = st.message_received_counter + 1;
    }
    debug_throw h.debug_failfast (is_state round3_waiting_for_replicated_connectivity st)
    debug_throw h.debug_failfast (st.awaiting_message_type == message_round3_connectivity_response)
    done (
        put_status (leave_round2 s) p.cycle (
          if st'.message_received_counter == st'.message_required
          then await round3_waiting_for_local_membership message_round2_full_commit 1 st'
          else st')))

-- REQUEST_TYPE_LOCAL_MEMBERSHIP.
unfoldable pub commit_local_membership :
    Host → ConnManager → MessageRound2Preprepare → Outcome ConnManager
unfolding leave_round2 find_cycle put_status await all_reachable exchange_membership
commit_local_membership h s p = do
  st ← find_cycle s p.cycle
  entry ← at st.membership_response s.config.bg_id
  debug_throw_else_return h.debug_failfast (is_none entry) s (do
    let st' =
        await round3_waiting_for_replicated_membership message_round3_membership_response
          (num_bg s.config - 1)
          (record st {
            membership_response =
                set st.membership_response s.config.bg_id (some (all_reachable s.config p.cycle));
          })
    exchange_membership h (put_status (leave_round2 s) p.cycle st') p.cycle)

-- REQUEST_TYPE_FULL_MEMBERSHIP. The votes are only printed.
unfoldable pub commit_full_membership :
    Host → ConnManager → MessageRound2Preprepare → Outcome ConnManager
unfolding leave_round2 find_cycle put_status await
commit_full_membership h s p = do
  st ← find_cycle s p.cycle
  votes ← count_votes h.debug_failfast (num_bg s.config) p
  round3_committed
      (put_status (leave_round2 s) p.cycle (await committed_state message_invalid 0 st)) p.cycle
