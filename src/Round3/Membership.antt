-- ===== src/Round3/Membership.antt =====
-- ConnManager.cpp: the exchange of the groups' membership matrices
-- (dispatcher_round3_fetchMembershipRequest, dispatcher_round3_fetchMembershipResponse,
-- envoy_round3_sendFetchMembershipRequest).
pub mod Bytes
pub mod Votes
use rcanopus_membership.Prelude.{
  ℕ, ◌+◌, ◌-◌, ◌*◌, ltb, ◌==◌, not, if◌then◌else◌, List, [], ◌∷◌, ◌++◌, Option, none, some, u16,
  u32, set, length, replicate, lookup,
}
use rcanopus_membership.Const.{
  version_latest, sbft_combined_signature_size, request_type_full_membership,
}
use rcanopus_membership.Outcome.{
  Outcome, done, undefined, ◌>>=◌, ◌>>◌, debug_throw, debug_throw_else_return,
}
use rcanopus_membership.Config.{Config, num_bg}
use rcanopus_membership.Message.{
  MessageRound2Preprepare, MessageRound3GeneralFetch, MessageRound3FullMembership, full_membership,
  get_message_size, message_round2_preprepare, message_round3_membership_response, sizeof_header,
  sizeof_preprepare, sizeof_full_membership,
}
use rcanopus_membership.Manager.{
  ConnManager, Host, QueueElement, CycleStatus, is_round2_leader, juggle, send, connection, at,
  is_none, is_state, storage_exist, round3_waiting_for_replicated_membership,
}
use rcanopus_membership.Message.Image.{memcpy}
use rcanopus_membership.Round2.Leader.{start_round2_if_possible}
use rcanopus_membership.Round3.Envoy.{find_cycle, is_primary_envoy_round3, is_backup_envoy_round3}
use rcanopus_membership.Round3.Pending.{add_pending}
use rcanopus_membership.Round3.Fetch.{put_status, forward_to_leader, push_pending_preprepare}
use rcanopus_membership.Round3.Connectivity.{send_general_fetch}
use Bytes.{membership_bytes}

-- A membership response in which every group reaches every group. The source builds it in two
-- places, with the same fields.
unfoldable pub all_reachable : Config → ℕ → MessageRound3FullMembership
all_reachable c cycle = record {
  header = record {
    version = version_latest;
    msg_type = message_round3_membership_response;
    payload_len = u32 (sizeof_full_membership + num_bg c * num_bg c - sizeof_header);
  };
  sender_bg_id = u16 c.bg_id;
  sender_sl_id = u16 c.sl_id;
  combined_signature = replicate sbft_combined_signature_size 0;
  cycle = cycle;
  total_bg_num = u16 (num_bg c);
  connectivity = replicate (num_bg c * num_bg c) 1;
}

unfoldable pub dispatcher_round3_fetch_membership_request :
    Host → ConnManager → MessageRound3GeneralFetch → Outcome ConnManager
unfolding all_reachable add_pending send
dispatcher_round3_fetch_membership_request h s p = elim (lookup p.cycle s.map_round3_status) [
  | none ↦ do
    debug_throw h.debug_failfast (storage_exist p.cycle s.storage)
    recipient ← connection s.config p.sender_bg_id p.sender_sl_id
    done (
        send s (record {
          up_peers = recipient ∷ [];
          message = full_membership (all_reachable s.config p.cycle);
        }))
  | some st ↦ do
    entry ← at st.membership_response s.config.bg_id
    elim entry [
      | none ↦ done (record s {
        map_round3_pending_membership_requests =
            add_pending p.cycle (p.sender_bg_id, p.sender_sl_id)
              s.map_round3_pending_membership_requests;
      })
      | some response ↦ do
        recipient ← connection s.config p.sender_bg_id p.sender_sl_id
        done (send s (record { up_peers = recipient ∷ []; message = full_membership response }))
    ]
]

-- The loops over rgMsgRound3MembershipResponse that measure and copy what is there.
unfoldable pub responses_size : List (Option MessageRound3FullMembership) → ℕ
responses_size [] = 0
responses_size (none ∷ rest) = responses_size rest
responses_size (some m ∷ rest) = get_message_size m.header + responses_size rest

unfoldable pub responses_bytes : List (Option MessageRound3FullMembership) → Outcome (List ℕ)
responses_bytes [] = done []
responses_bytes (none ∷ rest) = responses_bytes rest
responses_bytes (some m ∷ rest) =
    let others = responses_bytes rest in
    memcpy (get_message_size m.header) (membership_bytes m) >>= λ copy.
    others >>= λ bytes. done (copy ++ bytes)

-- The message by which the leader replicates all membership responses.
unfoldable pub full_membership_preprepare :
    Config → ℕ → List (Option MessageRound3FullMembership) → Outcome MessageRound2Preprepare
unfolding responses_size responses_bytes
full_membership_preprepare c cycle responses = do
  content ← responses_bytes responses
  done (record {
    header = record {
      version = version_latest;
      msg_type = message_round2_preprepare;
      payload_len = u32 (sizeof_preprepare + responses_size responses - sizeof_header);
    };
    sender = u16 c.sl_id;
    view = 0;
    seq = 0;
    bg_id = u16 c.bg_id;
    request_type = request_type_full_membership;
    cycle = cycle;
    lastcycle = u16 (cycle + 65535);
    collector_sl_id = 0;
    num_of_round3_participants = 0;
    participants_and_content = content;
  })

-- The leader stores a response for a cycle that waits for it; with the last one it proposes them all.
unfoldable pub store_membership_response :
    Host → ConnManager → CycleStatus → MessageRound3FullMembership → Outcome ConnManager
unfolding full_membership_preprepare put_status push_pending_preprepare
store_membership_response h s st p = do
  entry ← at st.membership_response p.sender_bg_id
  debug_throw_else_return h.debug_failfast (is_none entry) s (do
    debug_throw h.debug_failfast (st.awaiting_message_type == message_round3_membership_response)
    let st' = record st {
      membership_response = set st.membership_response p.sender_bg_id (some p);
      message_received_counter = st.message_received_counter + 1;
    }
    let s' = put_status s p.cycle st'
    if st'.message_received_counter == st'.message_required
        then (do
          q ← full_membership_preprepare s.config p.cycle st'.membership_response
          start_round2_if_possible h (push_pending_preprepare s' q))
        else done s')

unfoldable pub dispatcher_round3_fetch_membership_response :
    Host → ConnManager → QueueElement → MessageRound3FullMembership → Outcome ConnManager
unfolding store_membership_response find_cycle is_round2_leader juggle forward_to_leader
dispatcher_round3_fetch_membership_response h s e p =
    if is_round2_leader s
    then (do
      st ← find_cycle s p.cycle
      if not (is_state round3_waiting_for_replicated_membership st)
          then done (juggle s e)
          else store_membership_response h s st p)
    else forward_to_leader s e

unfoldable pub envoy_round3_send_fetch_membership_request :
    Host → ConnManager → ℕ → Outcome ConnManager
unfolding find_cycle send_general_fetch
envoy_round3_send_fetch_membership_request h s cycle = do
  st ← find_cycle s cycle
  debug_throw h.debug_failfast (ltb 1 (num_bg s.config))
  primary ← is_primary_envoy_round3 s cycle
  if primary
      then done (send_general_fetch h s cycle message_round3_membership_response)
      else (do backup ← is_backup_envoy_round3 s cycle; done s)
