-- ===== src/Round3/Fetch.antt =====
-- ConnManager.cpp: the exchange of the groups' committed messages (envoy_round3_sendFetchRequest,
-- dispatcher_round3_fetchRequest, dispatcher_round3_fetchResponse).
pub mod Serve
use rcanopus_membership.Prelude.{
  ℕ, ◌-◌, Bool, true, false, ◌==◌, if◌then◌else◌, List, [], ◌∷◌, ◌++◌, Option, none, some, u16,
  lookup, insert,
}
use rcanopus_membership.Outcome.{
  Outcome, done, thrown, unexpected_cycle_state, ◌>>=◌, ◌>>◌, debug_throw_else_return,
}
use rcanopus_membership.Config.{num_bg}
use rcanopus_membership.Message.{
  MessageRound2Preprepare, MessageRound3FetchRequest, MessageRound3FetchResponse, fetch_request,
  fetch_response, message_invalid, message_round3_fetch_response,
}
use rcanopus_membership.Message.Round3.{get_round3_request, pack_fetch_response}
use rcanopus_membership.Manager.{
  ConnManager, Host, QueueElement, CycleStatus, is_round2_leader, send, connection, is_state,
  storage_exist, await, round2_committed, round3_committed as committed_state,
  round3_waiting_for_replicated_results,
}
use rcanopus_membership.Round2.Leader.{start_round2_if_possible}
use rcanopus_membership.Round3.Envoy.{
  find_cycle, stored_at, is_primary_envoy_round3, is_backup_envoy_round3,
  get_one_sl_from_every_remote_bg, round3_committed,
}
use rcanopus_membership.Round3.Pending.{add_pending}

-- mapRound3Status[cycle] = st.
unfoldable pub put_status : ConnManager → ℕ → CycleStatus → ConnManager
put_status s cycle st = record s { map_round3_status = insert cycle st s.map_round3_status }

-- The request that the primary envoy sends to one super leaf of every other group.
unfoldable pub send_fetch_request : Host → ConnManager → CycleStatus → Outcome ConnManager
unfolding get_one_sl_from_every_remote_bg send stored_at
send_fetch_request h s st = do
  response ← stored_at st.fetch_response s.config.bg_id
  request ← get_round3_request h.debug_failfast response
  let (peers, s') = get_one_sl_from_every_remote_bg h s
  done (
      send s' (record {
        up_peers = peers;
        message = fetch_request (record request { sender_sl_id = u16 s.config.sl_id });
      }))

-- The rest of envoy_round3_sendFetchRequest, for a cycle that was just committed in Round 2.
unfoldable pub fetch_from_others : Host → ConnManager → ℕ → CycleStatus → Outcome ConnManager
unfolding put_status await
fetch_from_others h s cycle st =
    if num_bg s.config == 1
    then round3_committed (put_status s cycle (await committed_state message_invalid 0 st)) cycle
    else (do
      let st' =
          await round3_waiting_for_replicated_results message_round3_fetch_response
            (num_bg s.config - 1) st
      let s' = put_status s cycle st'
      primary ← is_primary_envoy_round3 s' cycle
      if primary
          then send_fetch_request h s' st'
          else (do backup ← is_backup_envoy_round3 s' cycle; done s'))

unfoldable pub envoy_round3_send_fetch_request : Host → ConnManager → ℕ → Outcome ConnManager
unfolding find_cycle fetch_from_others
envoy_round3_send_fetch_request h s cycle = do
  st ← find_cycle s cycle
  if is_state round2_committed st
      then fetch_from_others h s cycle st
      else thrown unexpected_cycle_state

unfoldable pub dispatcher_round3_fetch_request :
    Host → ConnManager → MessageRound3FetchRequest → Outcome ConnManager
unfolding add_pending send stored_at
dispatcher_round3_fetch_request h s p = elim (lookup p.cycle s.map_round3_status) [
  | none ↦
      if storage_exist p.cycle s.storage
      then debug_throw_else_return h.debug_failfast false s (done s)
      else done (record s {
        map_round3_pending_fetch_requests =
            add_pending p.cycle (p.sender_bg_id, p.sender_sl_id)
              s.map_round3_pending_fetch_requests;
      })
  | some st ↦ do
    response ← stored_at st.fetch_response s.config.bg_id
    recipient ← connection s.config p.sender_bg_id p.sender_sl_id
    done (send s (record { up_peers = recipient ∷ []; message = fetch_response response }))
]

-- A super leaf that is not the leader hands a response on to its leader.
unfoldable pub forward_to_leader : ConnManager → QueueElement → Outcome ConnManager
unfolding send
forward_to_leader s e = do
  recipient ← connection s.config s.config.bg_id 0
  done (send s (record e { up_peers = recipient ∷ [] }))

-- pLeaderRound2PendingPreprepareRaw->push.
unfoldable pub push_pending_preprepare : ConnManager → MessageRound2Preprepare → ConnManager
push_pending_preprepare s p = record s {
  leader_round2_pending_preprepare_raw = s.leader_round2_pending_preprepare_raw ++ p ∷ [];
}

unfoldable pub dispatcher_round3_fetch_response :
    Host → ConnManager → QueueElement → MessageRound3FetchResponse → Outcome ConnManager
unfolding forward_to_leader push_pending_preprepare is_round2_leader
dispatcher_round3_fetch_response h s e p =
    if is_round2_leader s
    then (do
      packed ← pack_fetch_response (u16 s.config.sl_id) p
      start_round2_if_possible h (push_pending_preprepare s packed))
    else forward_to_leader s e
