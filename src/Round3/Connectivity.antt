-- ===== src/Round3/Connectivity.antt =====
-- ConnManager.cpp: the exchange of the groups' views of who is reachable
-- (envoy_round3_sendFetchConnectivityRequest, dispatcher_round3_fetchConnectivityRequest,
-- dispatcher_round3_fetchConnectivityResponse).
use rcanopus_membership.Prelude.{
  ℕ, ◌+◌, ◌-◌, ◌*◌, ltb, ◌==◌, not, if◌then◌else◌, [], ◌∷◌, none, some, u16, u32, set, replicate,
  lookup,
}
use rcanopus_membership.Const.{version_latest, request_type_local_membership}
use rcanopus_membership.Outcome.{Outcome, done, undefined, ◌>>=◌, ◌>>◌, debug_throw}
use rcanopus_membership.Config.{Config, num_bg}
use rcanopus_membership.Message.{
  MessageRound2Preprepare, MessageRound3FetchResponse, MessageRound3GeneralFetch, fetch_response,
  general_fetch, message_round2_preprepare, message_round3_general_fetch,
  message_round3_connectivity_response, sizeof_header, sizeof_preprepare, sizeof_general_fetch,
}
use rcanopus_membership.Manager.{
  ConnManager, Host, QueueElement, CycleStatus, is_round2_leader, juggle, send, connection, at,
}
use rcanopus_membership.Round2.Leader.{start_round2_if_possible}
use rcanopus_membership.Round3.Envoy.{
  find_cycle, is_primary_envoy_round3, is_backup_envoy_round3, get_one_sl_from_every_remote_bg,
}
use rcanopus_membership.Round3.Pending.{add_pending}
use rcanopus_membership.Round3.Fetch.{put_status, forward_to_leader, push_pending_preprepare}

-- A request to one super leaf of every other group for a response of the given type.
unfoldable pub send_general_fetch : Host → ConnManager → ℕ → ℕ → ConnManager
unfolding get_one_sl_from_every_remote_bg send
send_general_fetch h s cycle demanded =
    let (peers, s') = get_one_sl_from_every_remote_bg h s in
    send s' (record {
      up_peers = peers;
      message = general_fetch (record {
        header = record {
          version = version_latest;
          msg_type = message_round3_general_fetch;
          payload_len = sizeof_general_fetch - sizeof_header;
        };
        sender_bg_id = u16 s.config.bg_id;
        sender_sl_id = u16 s.config.sl_id;
        cycle = cycle;
        msg_type_demanded = demanded;
      });
    })

unfoldable pub envoy_round3_send_fetch_connectivity_request :
    Host → ConnManager → ℕ → Outcome ConnManager
unfolding find_cycle send_general_fetch
envoy_round3_send_fetch_connectivity_request h s cycle = do
  st ← find_cycle s cycle
  debug_throw h.debug_failfast (ltb 1 (num_bg s.config))
  primary ← is_primary_envoy_round3 s cycle
  if primary
      then done (send_general_fetch h s cycle message_round3_connectivity_response)
      else (do backup ← is_backup_envoy_round3 s cycle; done s)

unfoldable pub dispatcher_round3_fetch_connectivity_request :
    ConnManager → QueueElement → MessageRound3GeneralFetch → Outcome ConnManager
unfolding juggle add_pending send
dispatcher_round3_fetch_connectivity_request s e p = elim (lookup p.cycle s.map_round3_status) [
  | none ↦ done (juggle s e)
  | some st ↦ do
    entry ← at st.connectivity_response s.config.bg_id
    elim entry [
      | none ↦ done (record s {
        map_round3_pending_connectivity_requests =
            add_pending p.cycle (p.sender_bg_id, p.sender_sl_id)
              s.map_round3_pending_connectivity_requests;
      })
      | some response ↦ do
        recipient ← connection s.config p.sender_bg_id p.sender_sl_id
        done (send s (record { up_peers = recipient ∷ []; message = fetch_response response }))
    ]
]

-- The message by which the leader asks its group to agree on the membership. Its content is zeros;
-- its size is computed in size_t from the last response, for every group alike. The sum for one
-- group, payloadLen - (46 + 8) + 32, is negative below 22, and the buffer then does not exist.
unfoldable pub local_membership_preprepare :
    Config → MessageRound3FetchResponse → Outcome MessageRound2Preprepare
local_membership_preprepare c p =
    if ltb p.header.payload_len 22
    then undefined
    else (let total_local_msg_size = num_bg c * (p.header.payload_len - 22) in
        done (record {
          header = record {
            version = version_latest;
            msg_type = message_round2_preprepare;
            payload_len = u32 (sizeof_preprepare + total_local_msg_size - sizeof_header);
          };
          sender = u16 c.sl_id;
          view = 0;
          seq = 0;
          bg_id = p.sender_bg_id;
          request_type = request_type_local_membership;
          cycle = p.cycle;
          lastcycle = u16 (p.cycle + 65535);
          collector_sl_id = 0;
          num_of_round3_participants = 0;
          participants_and_content = replicate total_local_msg_size 0;
        }))

-- The leader stores a response for a cycle that waits for it; with the last one it goes on to the
-- membership.
unfoldable pub store_connectivity_response :
    ConnManager → CycleStatus → MessageRound3FetchResponse → Outcome ConnManager
unfolding local_membership_preprepare put_status push_pending_preprepare
store_connectivity_response s st p = do
  entry ← at st.connectivity_response p.sender_bg_id
  let st' = record st {
    connectivity_response = set st.connectivity_response p.sender_bg_id (some p);
    message_received_counter = st.message_received_counter + 1;
  }
  let s' = put_status s p.cycle st'
  if st'.message_received_counter == st'.message_required
      then (do q ← local_membership_preprepare s.config p; done (push_pending_preprepare s' q))
      else done s'

unfoldable pub dispatcher_round3_fetch_connectivity_response :
    Host → ConnManager → QueueElement → MessageRound3FetchResponse → Outcome ConnManager
unfolding store_connectivity_response find_cycle is_round2_leader juggle forward_to_leader
dispatcher_round3_fetch_connectivity_response h s e p =
    if is_round2_leader s
    then (do
      st ← find_cycle s p.cycle
      if not (st.awaiting_message_type == message_round3_connectivity_response)
          then done (juggle s e)
          else (do s' ← store_connectivity_response s st p; start_round2_if_possible h s'))
    else forward_to_leader s e
