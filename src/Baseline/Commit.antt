-- ===== src/Baseline/Commit.antt =====
-- ConnManager_Baseline.cpp, dispatcher_round2_fullCommit: a full commit completes the group's own
-- batches, or the cycle's connectivity, after which the global leader starts the agreement.
use rcanopus_membership.Prelude.{
  ℕ, zero, suc, ◌+◌, ◌-◌, ◌*◌, Bool, false, ◌==◌, ◌&&◌, if◌then◌else◌, List, [], ◌∷◌, none, some,
  u16, u32, set, lookup, replicate,
}
use rcanopus_membership.Const.{
  version_latest, request_type_from_client, request_type_local_connectivity,
}
use rcanopus_membership.Outcome.{
  Outcome, done, thrown, preprepare_missing, invalid_request_type, ◌>>=◌, ◌>>◌, debug_throw,
  debug_throw_else_return,
}
use rcanopus_membership.Config.{Config, num_bg}
use rcanopus_membership.Message.{
  MessageRound2Preprepare, MessageRound2FullCommit, MessageRound3FetchResponse,
  MessageRound3PreprepareBaseline, preprepare_baseline, message_invalid,
  message_round3_fetch_response, message_round3_preprepare_baseline, get_message_size,
  sizeof_header, sizeof_fetch_response, sizeof_preprepare_baseline,
}
use rcanopus_membership.Message.Image.{bytes16, memcpy}
use rcanopus_membership.Message.Round3.{get_round3_response}
use rcanopus_membership.Manager.{
  ConnManager, Host, QueueElement, CycleStatus, Peer, self, is_round2_leader, juggle, send,
  connection, at, is_none, is_state, await, round2_waiting_for_preprepare,
  round2_waiting_for_fullcommit, round2_committed, round3_waiting_for_local_connectivity,
  round3_waiting_for_preprepare_baseline, round3_committed as committed_state,
}
use rcanopus_membership.Round2.Leader.{start_round2_if_possible}
use rcanopus_membership.Round3.Envoy.{find_cycle, round3_committed}
use rcanopus_membership.Round3.Pending.{respond_to_pending_fetch_requests}
use rcanopus_membership.Round3.Fetch.{put_status}
use rcanopus_membership.FullCommit.Client.{skipped_status, leave_round2}
use rcanopus_membership.Baseline.Fetch.{send_baseline_fetch_request}

-- The response for stale requests, made with the first message. The source leaves the bytes behind
-- the fields as the allocator gives them: zeros stand for them.
unfoldable pub fake_response : Config → MessageRound2Preprepare → MessageRound3FetchResponse
fake_response c p = record {
  header = record {
    version = version_latest;
    msg_type = message_round3_fetch_response;
    payload_len = u32 (sizeof_fetch_response - sizeof_header + get_message_size p.header);
  };
  sender_bg_id = u16 c.bg_id;
  sender_sl_id = u16 c.sl_id;
  cycle = 0;
  combined_signature = replicate 32 0;
  entire_preprepare_msg = replicate (get_message_size p.header) 0;
}

unfoldable pub prepare_fake_response : ConnManager → MessageRound2Preprepare → ConnManager
unfolding fake_response
prepare_fake_response s p =
    if p.view == 1 && p.seq == 1
    then record s { fake_round3_response_for_baseline = some (fake_response s.config p) }
    else s

unfoldable pub enter_baseline_round3 : Host → ConnManager → ℕ → CycleStatus → Outcome ConnManager
unfolding put_status
enter_baseline_round3 h s cycle st = do
  debug_throw h.debug_failfast (is_none (lookup cycle s.map_round3_status))
  s' ← respond_to_pending_fetch_requests (put_status s cycle st) cycle
  send_baseline_fetch_request h s' cycle

unfoldable pub skip_baseline_cycle :
    Host
    → ConnManager
    → CycleStatus
    → MessageRound2Preprepare
    → MessageRound2FullCommit
    → ℕ
    → Outcome ConnManager
unfolding enter_baseline_round3 skipped_status
skip_baseline_cycle h s st p full_c cycle = do
  debug_throw h.debug_failfast false
  content ← memcpy (2 * p.num_of_round3_participants) p.participants_and_content
  let empty_msg = record p { participants_and_content = content }
  response ← get_round3_response empty_msg full_c (u16 s.config.sl_id) cycle
  enter_baseline_round3 h s cycle (skipped_status s.config st response)

unfoldable pub skip_baseline_cycles :
    Host
    → ConnManager
    → CycleStatus
    → MessageRound2Preprepare
    → MessageRound2FullCommit
    → ℕ
    → ℕ
    → Outcome ConnManager
unfolding skip_baseline_cycle
skip_baseline_cycles h s st p full_c zero cycle = done s
skip_baseline_cycles h s st p full_c (suc rounds) cycle =
    skip_baseline_cycle h s st p full_c cycle >>= λ s'.
    skip_baseline_cycles h s' st p full_c rounds (u16 (cycle + 1))

unfoldable pub commit_own_baseline_cycle :
    Host
    → ConnManager
    → CycleStatus
    → MessageRound2Preprepare
    → MessageRound2FullCommit
    → Outcome ConnManager
unfolding leave_round2 enter_baseline_round3
commit_own_baseline_cycle h s st p full_c = do
  response ← get_round3_response p full_c (u16 s.config.sl_id) p.cycle
  entry ← at st.fetch_response s.config.bg_id
  debug_throw_else_return h.debug_failfast (is_none entry) s (do
    let st' = record st { fetch_response = set st.fetch_response s.config.bg_id (some response) }
    enter_baseline_round3 h (leave_round2 s) p.cycle st')

-- REQUEST_TYPE_FROM_CLIENT.
unfoldable pub commit_baseline_client :
    Host
    → ConnManager
    → CycleStatus
    → MessageRound2Preprepare
    → MessageRound2FullCommit
    → Outcome ConnManager
unfolding prepare_fake_response skip_baseline_cycles commit_own_baseline_cycle
commit_baseline_client h s st p full_c =
    skip_baseline_cycles h (prepare_fake_response s p) st p full_c (p.cycle - u16 (p.lastcycle + 1))
      (u16 (p.lastcycle + 1))
    >>= λ s'. commit_own_baseline_cycle h s' st p full_c

-- The members that the global leader proposes: the groups from i on, of which n are left.
unfoldable pub member_bytes : ℕ → ℕ → List ℕ
member_bytes i zero = []
member_bytes i (suc n) = bytes16 (u16 i) (member_bytes (i + 1) n)

unfoldable pub agreement_proposal : Config → ℕ → ℕ → MessageRound3PreprepareBaseline
unfolding member_bytes
agreement_proposal c cycle collector = record {
  header = record {
    version = version_latest;
    msg_type = message_round3_preprepare_baseline;
    payload_len = u32 (sizeof_preprepare_baseline + 2 * num_bg c - sizeof_header);
  };
  sender = u16 c.bg_id;
  cycle = cycle;
  collector_bg_id = u16 collector;
  content = member_bytes 0 (num_bg c);
}

-- The loop over the first n groups that pushes the leaders of all groups.
unfoldable pub push_leaders : Config → ℕ → Outcome (List Peer)
push_leaders c zero = done []
push_leaders c (suc i) = push_leaders c i >>= λ peers.
    (if i == c.bg_id then done self else connection c i 0) >>= λ p. done (p ∷ peers)

-- isGlobalLeader.
unfoldable pub is_global_leader : ConnManager → Bool
is_global_leader s = s.config.bg_id == 0 && s.config.sl_id == 0

unfoldable pub propose_agreement : Host → ConnManager → ℕ → Outcome ConnManager
unfolding is_global_leader send push_leaders agreement_proposal
propose_agreement h s cycle =
    if is_global_leader s
    then (do
      peers ← push_leaders s.config (num_bg s.config)
      done (
          send (record s { engine = s.engine + 1 })
            (record {
              up_peers = peers;
              message =
                  preprepare_baseline
                    (agreement_proposal s.config cycle (h.draw s.engine (num_bg s.config - 1)));
            })))
    else done s

-- The leaders wait for the proposal; for the others the cycle is over.
unfoldable pub end_connectivity : ConnManager → ℕ → CycleStatus → Outcome ConnManager
unfolding is_round2_leader put_status await
end_connectivity s cycle st =
    if is_round2_leader s
    then done (
        put_status s cycle
          (await round3_waiting_for_preprepare_baseline message_round3_preprepare_baseline 1 st))
    else round3_committed (put_status s cycle (await committed_state message_invalid 0 st)) cycle

-- Common: a new Round 2, if possible.
unfoldable pub start_if_leader : Host → ConnManager → Outcome ConnManager
unfolding is_round2_leader
start_if_leader h s = if is_round2_leader s then start_round2_if_possible h s else done s

-- REQUEST_TYPE_LOCAL_CONNECTIVITY, and what follows it. A full commit that comes too early is put
-- back, and Round 2 stays as it was.
unfoldable pub commit_baseline_connectivity :
    Host → ConnManager → CycleStatus → QueueElement → MessageRound2Preprepare → Outcome ConnManager
unfolding find_cycle juggle propose_agreement leave_round2 end_connectivity start_if_leader
commit_baseline_connectivity h s st e p = do
  cycle_status ← find_cycle s p.cycle
  if is_state round3_waiting_for_local_connectivity cycle_status
      then (do
        s' ← propose_agreement h s p.cycle
        s'' ← end_connectivity (leave_round2 s') p.cycle cycle_status
        start_if_leader h s'')
      else done (
          juggle
            (record s {
              round2_current_status = some (record st { state = round2_waiting_for_fullcommit });
            })
            e)

-- The chain of tests on requestType.
unfoldable pub commit_by_baseline_type :
    Host
    → ConnManager
    → CycleStatus
    → QueueElement
    → MessageRound2Preprepare
    → MessageRound2FullCommit
    → Outcome ConnManager
unfolding commit_baseline_client commit_baseline_connectivity start_if_leader
commit_by_baseline_type h s st e p full_c =
    if p.request_type == request_type_from_client
    then commit_baseline_client h s st p full_c >>= start_if_leader h
    else if p.request_type == request_type_local_connectivity
    then commit_baseline_connectivity h s st e p
    else thrown invalid_request_type

-- dispatcher_round2_fullCommit with a current status.
unfoldable pub baseline_commit_in_status :
    Host → ConnManager → CycleStatus → QueueElement → MessageRound2FullCommit → Outcome ConnManager
unfolding juggle commit_by_baseline_type
baseline_commit_in_status h s st e full_c =
    if is_state round2_waiting_for_preprepare st
    then done (juggle s e)
    else debug_throw_else_return h.debug_failfast (is_state round2_waiting_for_fullcommit st) s (
        debug_throw_else_return h.debug_failfast (full_c.view == st.round2_view) s (
          debug_throw_else_return h.debug_failfast (full_c.seq == st.round2_sequence) s
            (elim s.temporary_storage_of_preprepare [
              | none ↦ thrown preprepare_missing
              | some p ↦
                  let st' = record st { state = round2_committed } in
                  commit_by_baseline_type h (record s { round2_current_status = some st' }) st' e p
                    full_c
            ])))

unfoldable pub dispatcher_baseline_full_commit :
    Host → ConnManager → QueueElement → MessageRound2FullCommit → Outcome ConnManager
unfolding baseline_commit_in_status
dispatcher_baseline_full_commit h s e full_c = elim s.round2_current_status [
  | none ↦ done (juggle s e)
  | some st ↦ baseline_commit_in_status h s st e full_c
]
