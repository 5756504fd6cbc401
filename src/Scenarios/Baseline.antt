-- ===== src/Scenarios/Baseline.antt =====
-- The theorems on the baseline at the leaders of two groups, which agree on cycle 5.
use rcanopus_membership.Manager.Recipients.{ReachesLeaders}
use rcanopus_membership.Prelude.{
  zero, suc, ◌<◌, List, ℕ, ◌≡◌, refl, [], ◌∷◌, ◌++◌, none, some, arith, lookup, insert, erase,
  replicate, inr,
}
use rcanopus_membership.Outcome.{done, ◌>>=◌, Ensures}
use rcanopus_membership.Config.{num_bg, num_sl}
use rcanopus_membership.Message.{
  MessageRound3PartialCommitBaseline, MessageRound3FetchResponse, Message, preprepare_baseline,
  partial_commit_baseline, full_commit_baseline, message_header, MessageRound2Preprepare,
  preprepare,
}
use rcanopus_membership.Message.Wire.Baseline.{
  serialize_baseline_message, recv_baseline_message, recv-serialize_baseline_message,
  baseline_kind_of,
}
use rcanopus_membership.Manager.{
  Peer, ConnManager, CycleStatus, QueueElement, self, connection, is_round2_leader, await,
  storage_exist, storage_store, round3_waiting_for_preprepare_baseline,
  round3_waiting_for_replicated_results, round3_waiting_for_local_connectivity,
  round3_collector_waiting_for_partialcommits_baseline, round3_waiting_for_fullcommit_baseline,
}
use rcanopus_membership.Baseline.Agreement.{
  dispatcher_round3_preprepare, dispatcher_round3_partial_commit, dispatcher_round3_full_commit,
}
use rcanopus_membership.Baseline.Agreement.Phases.{
  phase, proposal as proposal_to, vote, verdict, Steps, finished,
}
use rcanopus_membership.Baseline.Agreement.Refinement.{dispatcher_baseline-Steps}
use rcanopus_membership.Baseline.Agreement.Network.{
  deliver, Reach, here, next, IsStart, finished-all_answered,
}
use rcanopus_membership.Network.{Nodes}
use rcanopus_membership.Baseline.Agreement.Progress.{
  written_full_commit, dispatch_votes, dispatch_votes-all,
}
use rcanopus_membership.Round3.Envoy.{round3_committed}
use rcanopus_membership.Baseline.Agreement.Moves.{answered}
use rcanopus_membership.Baseline.Unreached.{partial_commit_copy, unsent, partial_commit_copy-unsent}
use rcanopus_membership.Baseline.Dispatcher.{dispatcher_baseline, dispatch_baseline_as}
use rcanopus_membership.Baseline.Fetch.Complete.{
  dispatch_responses, dispatch_responses-all, with_responses,
}
use rcanopus_membership.Hybrid.Preprepare.{
  dispatcher_hybrid_preprepare, dispatcher_hybrid_preprepare_same,
}
use rcanopus_membership.Round2.Replica.{dispatcher_round2_preprepare}
use rcanopus_membership.Scenarios.{
  two_groups, proposal, release_host, little_endian, idle_leader, header,
}

abbrev waiting_status : CycleStatus
waiting_status = record {
  message_received_counter = 0;
  message_required = 1;
  awaiting_message_type = 11;
  round2_view = 1;
  round2_sequence = 2;
  state = round3_waiting_for_preprepare_baseline;
  fetch_response = none ∷ none ∷ [];
  connectivity_response = none ∷ none ∷ [];
  membership_response = none ∷ none ∷ [];
}

abbrev leader_of : ℕ → ConnManager
leader_of bg = record idle_leader {
  config = record two_groups { bg_id = bg };
  map_round3_status = (5, waiting_status) ∷ [];
}

abbrev two_leaders : Nodes
two_leaders bg = leader_of bg

-- The messages of the agreement, with group 0 as the collector.
abbrev proposal_of_agreement : Message
proposal_of_agreement = preprepare_baseline (record {
  header = header 11 10;
  sender = 0;
  cycle = 5;
  collector_bg_id = 0;
  content = 0 ∷ 0 ∷ 1 ∷ 0 ∷ [];
})

abbrev vote_from : ℕ → MessageRound3PartialCommitBaseline
vote_from bg = record { header = header 12 36; sender = bg; cycle = 5; signature = replicate 32 0 }

abbrev agreement_verdict : Message
agreement_verdict =
    full_commit_baseline
      (record { header = header 13 36; sender = 0; cycle = 5; combined_signature = replicate 32 0 })

abbrev alone : Message → QueueElement
alone m = record { up_peers = self ∷ []; message = m }

recv-serialize_baseline_message_example :
    (serialize_baseline_message little_endian proposal_of_agreement
      >>= recv_baseline_message little_endian)
    ≡ done proposal_of_agreement
recv-serialize_baseline_message_example =
    recv-serialize_baseline_message little_endian proposal_of_agreement (omega arith)

dispatcher_baseline-Steps_example :
    Ensures
      (Steps (leader_of 1) 5 (proposal_to 0))
      (dispatcher_baseline release_host (leader_of 1) (alone proposal_of_agreement))
dispatcher_baseline-Steps_example =
    dispatcher_baseline-Steps release_host (leader_of 1) (alone proposal_of_agreement) 5
      (proposal_to 0) (refl, refl, refl)

-- The leader collects two partial commits.
abbrev vote_collector : ConnManager
vote_collector = record (leader_of 0) {
  map_round3_status =
      (5, await round3_collector_waiting_for_partialcommits_baseline 12 2 waiting_status) ∷ [];
}

every_group_led : (j : ℕ) → j < num_bg two_groups → 0 < num_sl two_groups j
unfolding num_bg num_sl
every_group_led zero l = omega arith
every_group_led (suc zero) l = omega arith
every_group_led (suc (suc j)) l = absurd (omega arith)

dispatch_votes-all_example :
    (s' : ConnManager) × (peers : List Peer) × (dispatch_votes release_host vote_collector (
        (alone (partial_commit_baseline (vote_from 0)), vote_from 0)
        ∷ (alone (partial_commit_baseline (vote_from 1)), vote_from 1)
        ∷ [])
      ≡ done s')
    × (lookup 5 s'.map_round3_status
        ≡ some (record waiting_status {
          state = round3_waiting_for_fullcommit_baseline;
          awaiting_message_type = 13;
          message_received_counter = 0;
          message_required = 1;
        }))
    × ReachesLeaders vote_collector.config peers
    × (s'.send_queue
        ≡ []
          ++ record {
            up_peers = peers;
            message = full_commit_baseline (written_full_commit vote_collector.config 5);
          }
            ∷ [])
unfolding lookup await num_bg is_round2_leader
dispatch_votes-all_example =
    dispatch_votes-all release_host vote_collector 5 _ _ (refl, refl, refl, refl) (refl, (refl, tt))
      (omega arith) every_group_led (omega arith) refl

partial_commit_copy-unsent_example :
    partial_commit_copy release_host vote_collector
      (alone (partial_commit_baseline (vote_from 0)))
      (vote_from 0)
    ≡ unsent vote_collector (
        dispatcher_round3_partial_commit release_host vote_collector
          (alone (partial_commit_baseline (vote_from 0)))
          (vote_from 0))
partial_commit_copy-unsent_example =
    partial_commit_copy-unsent release_host vote_collector
      (alone (partial_commit_baseline (vote_from 0))) (vote_from 0) refl

-- A super leaf of group 0 without a response of group 1.
abbrev response_from : ℕ → MessageRound3FetchResponse
response_from bg = record {
  header = header 7 38;
  sender_bg_id = bg;
  sender_sl_id = 0;
  cycle = 5;
  combined_signature = replicate 32 0;
  entire_preprepare_msg = [];
}

abbrev fetching_status : CycleStatus
fetching_status = record waiting_status {
  state = round3_waiting_for_replicated_results;
  fetch_response = some (response_from 0) ∷ none ∷ [];
}

abbrev fetcher : ConnManager
fetcher = record idle_leader {
  config = record two_groups { sl_id = 1 };
  map_round3_status = (5, fetching_status) ∷ [];
}

dispatch_responses-all_example :
    (s' : ConnManager) × (dispatch_responses release_host fetcher (response_from 1 ∷ []) ≡ done s')
    × (lookup 5 s'.map_round3_status
        ≡ some (
            await round3_waiting_for_local_connectivity 5 1
              (with_responses fetching_status (response_from 1 ∷ []))))
unfolding lookup num_bg is_round2_leader
dispatch_responses-all_example =
    dispatch_responses-all release_host fetcher 5 fetching_status (response_from 1 ∷ [])
      (refl, omega arith, refl) (refl, refl, tt) (omega arith) (omega arith)

-- Both leaders get the proposal, the collector both partial commits, and the other the full commit.
run : (now : Nodes) × Reach 2 5 two_leaders now × (phase (now 1) 5 ≡ finished)
unfolding dispatcher_baseline dispatch_baseline_as baseline_kind_of message_header lookup insert
    erase num_bg num_sl storage_exist storage_store connection is_round2_leader replicate
    dispatcher_round3_preprepare dispatcher_round3_partial_commit dispatcher_round3_full_commit
    round3_committed
run = (
  _,
  next
      (next
        (next
          (next
            (next here (
              deliver release_host 0 (alone proposal_of_agreement) (proposal_to 0) _ (omega arith)
                (refl, refl, refl) tt refl))
            (deliver release_host 1 (alone proposal_of_agreement) (proposal_to 0) _ (omega arith)
              (refl, refl, refl) tt refl))
          (deliver release_host 0 (alone (partial_commit_baseline (vote_from 0))) vote _
            (omega arith) (refl, refl, refl) (omega arith) refl))
        (deliver release_host 0 (alone (partial_commit_baseline (vote_from 1))) vote _ (omega arith)
          (refl, refl, refl) (omega arith) refl))
      (deliver release_host 1 (alone agreement_verdict) verdict _ (omega arith) (refl, refl, refl)
        (0, omega arith, omega arith) refl),
  refl,
)

two_leaders-IsStart : IsStart 2 5 two_leaders
unfolding num_bg lookup storage_exist
two_leaders-IsStart i l = (refl, refl, refl, refl)

finished-all_answered_example : answered (phase (run.0 0) 5) ≡ 1
finished-all_answered_example =
    finished-all_answered 2 5 1 0 two_leaders-IsStart run.1 (omega arith) run.2 (omega arith)

-- A preprepare of the hybrid variant on the connectivity of cycle 5.
abbrev connectivity_message : MessageRound2Preprepare
connectivity_message = record proposal { request_type = 2; cycle = 5 }

abbrev ready_node : ConnManager
ready_node = record fetcher {
  map_round3_status = (5, await round3_waiting_for_local_connectivity 5 1 fetching_status) ∷ [];
}

dispatcher_hybrid_preprepare_same_example :
    dispatcher_hybrid_preprepare release_host ready_node
      (alone (preprepare connectivity_message))
      connectivity_message
    ≡ dispatcher_round2_preprepare release_host ready_node
        (alone (preprepare connectivity_message))
        connectivity_message
unfolding lookup await
dispatcher_hybrid_preprepare_same_example =
    dispatcher_hybrid_preprepare_same release_host ready_node
      (alone (preprepare connectivity_message)) connectivity_message (inr (_, refl, refl))
