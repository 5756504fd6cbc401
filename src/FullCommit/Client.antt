-- ===== src/FullCommit/Client.antt =====
-- ConnManager.cpp, dispatcher_round2_fullCommit, lines 1023 to 1073: a message with the group's own
-- batches, and the cycles that it skips.
use rcanopus_membership.Prelude.{ℕ, zero, suc, ◌+◌, ◌-◌, ◌*◌, false, none, some, u16, set, lookup}
use rcanopus_membership.Outcome.{Outcome, done, ◌>>=◌, ◌>>◌, debug_throw, debug_throw_else_return}
use rcanopus_membership.Config.{Config, num_bg}
use rcanopus_membership.Message.{
  MessageRound2Preprepare, MessageRound2FullCommit, MessageRound3FetchResponse,
}
use rcanopus_membership.Message.Image.{memcpy}
use rcanopus_membership.Message.Round3.{get_round3_response}
use rcanopus_membership.Manager.{
  ConnManager, Host, CycleStatus, at, is_none, new_cycle_status, round2_committed,
}
use rcanopus_membership.Round3.Pending.{respond_to_pending_fetch_requests}
use rcanopus_membership.Round3.Fetch.{put_status, envoy_round3_send_fetch_request}

-- The checks and calls by which a cycle's status enters Round 3.
unfoldable pub enter_round3 : Host → ConnManager → ℕ → CycleStatus → Outcome ConnManager
unfolding put_status
enter_round3 h s cycle st = do
  debug_throw h.debug_failfast (is_none (lookup cycle s.map_round3_status))
  s' ← respond_to_pending_fetch_requests (put_status s cycle st) cycle
  envoy_round3_send_fetch_request h s' cycle

-- The status that is forged for a skipped cycle.
unfoldable pub skipped_status : Config → CycleStatus → MessageRound3FetchResponse → CycleStatus
unfolding new_cycle_status
skipped_status c st response =
    let fresh = new_cycle_status (num_bg c) in
    record fresh {
      message_received_counter = st.message_received_counter;
      message_required = st.message_required;
      awaiting_message_type = st.awaiting_message_type;
      round2_view = st.round2_view;
      round2_sequence = st.round2_sequence;
      state = round2_committed;
      fetch_response = set fresh.fetch_response c.bg_id (some response);
    }

-- A skipped cycle: a copy of the message without its content stands for it.
unfoldable pub skip_cycle :
    Host
    → ConnManager
    → CycleStatus
    → MessageRound2Preprepare
    → MessageRound2FullCommit
    → ℕ
    → Outcome ConnManager
unfolding enter_round3 skipped_status
skip_cycle h s st p full_c cycle = do
  debug_throw h.debug_failfast false
  content ← memcpy (2 * p.num_of_round3_participants) p.participants_and_content
  let empty_msg = record p { participants_and_content = content }
  response ← get_round3_response empty_msg full_c (u16 s.config.sl_id) cycle
  enter_round3 h s cycle (skipped_status s.config st response)

-- The loop over the skipped cycles, of which `rounds` are left.
unfoldable pub skip_cycles :
    Host
    → ConnManager
    → CycleStatus
    → MessageRound2Preprepare
    → MessageRound2FullCommit
    → ℕ
    → ℕ
    → Outcome ConnManager
unfolding skip_cycle
skip_cycles h s st p full_c zero cycle = done s
skip_cycles h s st p full_c (suc rounds) cycle =
    skip_cycle h s st p full_c cycle >>= λ s'. skip_cycles h s' st p full_c rounds (u16 (cycle + 1))

-- "These are no longer needed": the stored message and the current status.
unfoldable pub leave_round2 : ConnManager → ConnManager
leave_round2 s = record s { temporary_storage_of_preprepare = none; round2_current_status = none }

-- The cycle of the message itself.
unfoldable pub commit_own_cycle :
    Host
    → ConnManager
    → CycleStatus
    → MessageRound2Preprepare
    → MessageRound2FullCommit
    → Outcome ConnManager
unfolding leave_round2 enter_round3
commit_own_cycle h s st p full_c = do
  response ← get_round3_response p full_c (u16 s.config.sl_id) p.cycle
  entry ← at st.fetch_response s.config.bg_id
  debug_throw_else_return h.debug_failfast (is_none entry) s (do
    let st' = record st { fetch_response = set st.fetch_response s.config.bg_id (some response) }
    enter_round3 h (leave_round2 s) p.cycle st')

-- REQUEST_TYPE_FROM_CLIENT.
unfoldable pub commit_from_client :
    Host
    → ConnManager
    → CycleStatus
    → MessageRound2Preprepare
    → MessageRound2FullCommit
    → Outcome ConnManager
unfolding skip_cycles commit_own_cycle
commit_from_client h s st p full_c =
    skip_cycles h s st p full_c (p.cycle - u16 (p.lastcycle + 1)) (u16 (p.lastcycle + 1)) >>= λ s'.
    commit_own_cycle h s' st p full_c
