-- ===== src/Baseline/Agreement.antt =====
-- ConnManager_Baseline.cpp: the agreement of the leaders of the groups on a cycle
-- (dispatcher_round3_preprepare, dispatcher_round3_partialCommit, dispatcher_round3_fullCommit).
pub mod Phases
pub mod Handlers
pub mod Refinement
pub mod Moves
pub mod Network
pub mod Progress
pub mod Leaders
use rcanopus_membership.Prelude.{
  ℕ, zero, suc, ◌+◌, ◌-◌, ◌==◌, if◌then◌else◌, List, [], ◌∷◌, u16, replicate,
}
use rcanopus_membership.Const.{version_latest, sbft_signature_size, sbft_combined_signature_size}
use rcanopus_membership.Outcome.{Outcome, done, ◌>>=◌, debug_throw_else_return}
use rcanopus_membership.Config.{Config, num_bg}
use rcanopus_membership.Message.{
  MessageRound3PreprepareBaseline, MessageRound3PartialCommitBaseline,
  MessageRound3FullCommitBaseline, partial_commit_baseline, full_commit_baseline, message_invalid,
  message_round3_preprepare_baseline, message_round3_partial_commit_baseline,
  message_round3_full_commit_baseline, sizeof_header, sizeof_partial_commit_baseline,
  sizeof_full_commit_baseline,
}
use rcanopus_membership.Manager.{
  ConnManager, Host, QueueElement, CycleStatus, Peer, self, is_round2_leader, juggle, send,
  connection, is_state, await, round3_waiting_for_preprepare_baseline,
  round3_collector_waiting_for_partialcommits_baseline, round3_waiting_for_fullcommit_baseline,
  round3_committed as committed_state,
}
use rcanopus_membership.Round3.Envoy.{find_cycle, round3_committed}
use rcanopus_membership.Round3.Fetch.{put_status}

unfoldable pub own_partial_commit_baseline : Config → ℕ → MessageRound3PartialCommitBaseline
own_partial_commit_baseline c cycle = record {
  header = record {
    version = version_latest;
    msg_type = message_round3_partial_commit_baseline;
    payload_len = sizeof_partial_commit_baseline - sizeof_header;
  };
  sender = u16 c.bg_id;
  cycle = cycle;
  signature = replicate sbft_signature_size 0;
}

unfoldable pub own_full_commit_baseline : Config → ℕ → MessageRound3FullCommitBaseline
own_full_commit_baseline c cycle = record {
  header = record {
    version = version_latest;
    msg_type = message_round3_full_commit_baseline;
    payload_len = sizeof_full_commit_baseline - sizeof_header;
  };
  sender = u16 c.bg_id;
  cycle = cycle;
  combined_signature = replicate sbft_combined_signature_size 0;
}

-- What a leader waits for after a proposal.
unfoldable pub proposed_status : Config → ℕ → CycleStatus → CycleStatus
unfolding await
proposed_status c collector st =
    if collector == c.bg_id
    then await round3_collector_waiting_for_partialcommits_baseline
        message_round3_partial_commit_baseline (num_bg c) st
    else await round3_waiting_for_fullcommit_baseline message_round3_full_commit_baseline 1 st

-- The collector keeps its partial commit, the others send theirs to the collector's leader.
unfoldable pub take_up_proposal :
    ConnManager → CycleStatus → MessageRound3PreprepareBaseline → Outcome ConnManager
unfolding proposed_status own_partial_commit_baseline send put_status connection
take_up_proposal s st p = do
  let s' = put_status s p.cycle (proposed_status s.config p.collector_bg_id st)
  recipient ←
      if p.collector_bg_id == s.config.bg_id
      then done self
      else connection s.config p.collector_bg_id 0
  done (
      send s' (record {
        up_peers = recipient ∷ [];
        message = partial_commit_baseline (own_partial_commit_baseline s.config p.cycle);
      }))

unfoldable pub proposal_in_status :
    Host
    → ConnManager
    → CycleStatus
    → QueueElement
    → MessageRound3PreprepareBaseline
    → Outcome ConnManager
unfolding take_up_proposal juggle
proposal_in_status h s st e p =
    if is_state round3_waiting_for_preprepare_baseline st
    then debug_throw_else_return h.debug_failfast
        (st.awaiting_message_type == message_round3_preprepare_baseline) s
        (debug_throw_else_return h.debug_failfast (st.message_received_counter == 0) s
          (take_up_proposal s st p))
    else done (juggle s e)

unfoldable pub dispatcher_round3_preprepare :
    Host → ConnManager → QueueElement → MessageRound3PreprepareBaseline → Outcome ConnManager
unfolding proposal_in_status find_cycle
dispatcher_round3_preprepare h s e p = find_cycle s p.cycle >>= λ st. proposal_in_status h s st e p

-- The loop over the first n groups that pushes the leaders of all groups but the node's own.
unfoldable pub push_other_leaders : Config → ℕ → Outcome (List Peer)
push_other_leaders c zero = done []
push_other_leaders c (suc i) = push_other_leaders c i >>= λ peers.
    if i == c.bg_id then done peers else connection c i 0 >>= λ p. done (p ∷ peers)

-- One more partial commit: the last one makes the collector send the full commit to all leaders.
unfoldable pub count_partial_commit_baseline : ConnManager → ℕ → CycleStatus → Outcome ConnManager
unfolding put_status await send own_full_commit_baseline push_other_leaders
count_partial_commit_baseline s cycle st =
    let st' = record st { message_received_counter = st.message_received_counter + 1 } in
    if st'.message_received_counter == st'.message_required
    then (do
      let complete =
          await round3_waiting_for_fullcommit_baseline message_round3_full_commit_baseline 1 st'
      peers ← push_other_leaders s.config (num_bg s.config)
      done (
          send (put_status s cycle complete) (record {
            up_peers = self ∷ peers;
            message = full_commit_baseline (own_full_commit_baseline s.config cycle);
          })))
    else done (put_status s cycle st')

unfoldable pub partial_commit_of_cycle :
    Host → ConnManager → QueueElement → ℕ → CycleStatus → Outcome ConnManager
unfolding count_partial_commit_baseline juggle
partial_commit_of_cycle h s e cycle st =
    if is_state round3_collector_waiting_for_partialcommits_baseline st
    then debug_throw_else_return h.debug_failfast
        (st.awaiting_message_type == message_round3_partial_commit_baseline) s
        (count_partial_commit_baseline s cycle st)
    else done (juggle s e)

unfoldable pub dispatcher_round3_partial_commit :
    Host → ConnManager → QueueElement → MessageRound3PartialCommitBaseline → Outcome ConnManager
unfolding partial_commit_of_cycle find_cycle is_round2_leader
dispatcher_round3_partial_commit h s e p =
    debug_throw_else_return h.debug_failfast (is_round2_leader s) s
      (find_cycle s p.cycle >>= partial_commit_of_cycle h s e p.cycle)

unfoldable pub dispatcher_round3_full_commit :
    ConnManager → QueueElement → MessageRound3FullCommitBaseline → Outcome ConnManager
unfolding juggle find_cycle put_status await
dispatcher_round3_full_commit s e p = do
  st ← find_cycle s p.cycle
  if is_state round3_waiting_for_fullcommit_baseline st
      then round3_committed (put_status s p.cycle (await committed_state message_invalid 0 st))
          p.cycle
      else done (juggle s e)
