-- ===== src/Scenarios/Round2.antt =====
-- The theorems of Round 2 and of the dispatch, at concrete nodes and messages.
use rcanopus_membership.Manager.Recipients.{ReachesGroup}
use rcanopus_membership.Prelude.{
  replicate, ◌%◌, ℕ, ◌+◌, ◌≡◌, refl, List, [], ◌∷◌, ◌++◌, some, Sublistᴰ, length, arith,
}
use mathlib.Core.List.{Perm}
use rcanopus_membership.Outcome.{done, Ensures}
use rcanopus_membership.Message.{
  MessageRound2Preprepare, MessageRound2PartialCommit, preprepare, partial_commit, full_commit,
  get_message_size,
}
use rcanopus_membership.Message.Image.{preprepare_bytes}
use rcanopus_membership.Manager.{
  ConnManager, QueueElement, Peer, peer, round2_waiting_for_fullcommit,
}
use rcanopus_membership.Config.{get_f, num_sl}
use rcanopus_membership.Round2.Leader.{pop_top, create_preprepare}
use rcanopus_membership.Round2.Leader.Length.{create_preprepare_cut}
use rcanopus_membership.Round2.Leader.Proposal.{broadcast_all, ArePlaced, broadcast_all_lem}
use rcanopus_membership.Round2.Replica.{verify_partial_commit}
use rcanopus_membership.Round2.Replica.Progress.{
  written_full_commit, dispatch_partial_commits, dispatch_partial_commits-all,
}
use rcanopus_membership.Dispatcher.{dispatcher_round2, process_element}
use rcanopus_membership.Invariant.{setup, Round2Ok}
use rcanopus_membership.Invariant.Round2.{Handles}
use rcanopus_membership.Invariant.Dispatch.{dispatcher_round2-Handles}
use rcanopus_membership.Invariant.Loop.{process_element-keeps_order}
use rcanopus_membership.Invariant.Returns.{dispatcher_round2-returns}
use rcanopus_membership.Rotation.{
  RotationOk, primary_after, primary_after_lem, primary_reaches_all, primary_misses,
}
use rcanopus_membership.Round2.Leader.Queue.{AllBelow, pop_top_greatest}
use rcanopus_membership.Scenarios.{
  localhost, release_host, idle_leader, proposal, collecting_status, collector, partial_commit_of,
}

abbrev third_commit : QueueElement
third_commit = record { up_peers = peer 0 1 ∷ []; message = partial_commit (partial_commit_of 1) }

abbrev last_commits : List (QueueElement × MessageRound2PartialCommit)
last_commits =
    (third_commit, partial_commit_of 1)
    ∷ (
      record { up_peers = peer 0 2 ∷ []; message = partial_commit (partial_commit_of 2) },
      partial_commit_of 2,
    )
    ∷ []

dispatcher_round2-Handles_example :
    Ensures (Handles third_commit collector) (dispatcher_round2 release_host collector third_commit)
unfolding num_sl
dispatcher_round2-Handles_example =
    dispatcher_round2-Handles release_host collector third_commit (omega arith)
      (refl, omega arith, refl, (refl, refl))

process_element-keeps_order_example :
    Ensures
      (λ t.
        (setup t ≡ setup idle_leader)
        × Round2Ok t
        × Sublistᴰ t.juggle_queue ([] ++ third_commit ∷ []))
      (process_element release_host idle_leader third_commit)
unfolding num_sl
process_element-keeps_order_example =
    process_element-keeps_order release_host idle_leader third_commit (omega arith) refl

dispatcher_round2-returns_example :
    (t : ConnManager) × (dispatcher_round2 release_host idle_leader
        (record { up_peers = peer 0 0 ∷ []; message = preprepare proposal })
      ≡ done t)
    × Handles (record { up_peers = peer 0 0 ∷ []; message = preprepare proposal }) idle_leader t
unfolding num_sl get_f
dispatcher_round2-returns_example =
    dispatcher_round2-returns release_host idle_leader (peer 0 0 ∷ []) (preprepare proposal)
      (omega arith) (λ _. refl) (λ _. omega arith) refl refl (refl, refl, omega arith)

dispatch_partial_commits-all_example :
    (peers : List Peer) × ReachesGroup collector.config peers
    × (dispatch_partial_commits release_host collector last_commits
        ≡ done (record collector {
          round2_current_status = some (record collecting_status {
            state = round2_waiting_for_fullcommit;
            awaiting_message_type = 5;
            message_received_counter = 0;
            message_required = 1;
          });
          send_queue =
              []
              ++ record {
                up_peers = peers;
                message = full_commit (written_full_commit collector.config 0 7);
              }
                ∷ [];
        }))
unfolding verify_partial_commit num_sl
dispatch_partial_commits-all_example =
    dispatch_partial_commits-all release_host collector collecting_status last_commits
      (refl, refl, refl) (refl, refl, refl, (refl, refl, refl, tt)) (omega arith) (omega arith) refl

broadcast_all_lem_example :
    (sent : List QueueElement) × ((broadcast_all
        (proposal ∷ proposal ∷ proposal ∷ [])
        idle_leader).send_queue
      ≡ [] ++ sent)
    × ArePlaced idle_leader.config 0 7 2 0 (proposal ∷ proposal ∷ proposal ∷ []) sent
unfolding num_sl
broadcast_all_lem_example =
    broadcast_all_lem (proposal ∷ proposal ∷ proposal ∷ []) idle_leader (omega arith) (omega arith)
      (omega arith) (omega arith)

create_preprepare_cut_example :
    (p : MessageRound2Preprepare) × (t : ConnManager) × (create_preprepare idle_leader
      ≡ done (p, t))
    × (length (preprepare_bytes p) ≡ get_message_size p.header + 18)
unfolding num_sl get_f
create_preprepare_cut_example = create_preprepare_cut idle_leader (omega arith) (omega arith)

rotating : RotationOk idle_leader
unfolding num_sl get_f
rotating = record { next_in_group = omega arith; leaves_fit = omega arith; has_envoy = omega arith }

primary_reaches_all_example : (k : ℕ) × (primary_after k idle_leader ≡ done 3)
unfolding num_sl get_f
primary_reaches_all_example = primary_reaches_all idle_leader 1 3 rotating refl refl (omega arith)

-- The leader of a group of 12 super leaves with 3 failures.
abbrev leader_of_twelve : ConnManager
leader_of_twelve = record idle_leader {
  config = record {
    rg_bg_info =
        record { failure = 3; addr = replicate 12 localhost }
        ∷ record { failure = 1; addr = localhost ∷ [] }
        ∷ [];
    bg_id = 0;
    sl_id = 0;
    global_failures = 0;
    request_per_sl_per_second = 100;
  };
}

rotating_in_twelve : RotationOk leader_of_twelve
unfolding num_sl get_f replicate
rotating_in_twelve = record {
  next_in_group = omega arith;
  leaves_fit = omega arith;
  has_envoy = omega arith;
}

second_primary : primary_after 1 leader_of_twelve ≡ done 9
unfolding num_sl get_f replicate
second_primary = primary_after_lem 1 leader_of_twelve rotating_in_twelve

primary_misses_example : 9 % 3 ≡ 0
unfolding num_sl get_f replicate
primary_misses_example =
    primary_misses leader_of_twelve 3 1 9 rotating_in_twelve refl refl refl second_primary

abbrev later_type : MessageRound2Preprepare
later_type = record proposal { request_type = 2 }

pop_top_greatest_example :
    AllBelow
      (pop_top proposal (later_type ∷ proposal ∷ [])).0.request_type
      ((pop_top proposal (later_type ∷ proposal ∷ [])).1)
    × Perm (proposal ∷ later_type ∷ proposal ∷ []) (
        (pop_top proposal (later_type ∷ proposal ∷ [])).0
        ∷ (pop_top proposal (later_type ∷ proposal ∷ [])).1)
pop_top_greatest_example = pop_top_greatest proposal (later_type ∷ proposal ∷ [])
