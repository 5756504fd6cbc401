-- ===== src/Scenarios/Threads.antt =====
-- The theorems on the loop of the variants and on the threads of a node, at a leader.
use rcanopus_membership.Prelude.{◌≡◌, refl, [], ◌∷◌, ◌++◌, Sublistᴰ, arith, length}
use rcanopus_membership.Outcome.{Ensures}
use rcanopus_membership.Config.{num_bg, num_sl, get_f}
use rcanopus_membership.Message.{Message, message_header, kind_of, preprepare, preprepare_baseline}
use rcanopus_membership.Manager.{QueueElement, peer, is_round2_leader, round2_start_status}
use rcanopus_membership.Round2.Leader.{
  start_round2_if_possible, can_start_round2, round2_ready, leader_round2_send_preprepare,
  take_preprepare,
}
use rcanopus_membership.Dispatcher.{dispatcher_round2, dispatch_as}
use rcanopus_membership.Baseline.Dispatcher.{process_baseline_element}
use rcanopus_membership.Hybrid.Dispatcher.{process_hybrid_element}
use rcanopus_membership.Threads.{mock_client_on_leader_step, listener_pipe_step}
use rcanopus_membership.Threads.Interleaving.{
  Node, Reach, here, next, submit_on_leader, wake, take, IsSound, Reach-IsSound,
}
use rcanopus_membership.Invariant.{setup, Round2Ok}
use rcanopus_membership.Invariant.Loop.{membership_variant}
use rcanopus_membership.Invariant.Baseline.Loop.{process_baseline_element-keeps_order}
use rcanopus_membership.Invariant.Hybrid.Loop.{process_hybrid_element-keeps_order}
use rcanopus_membership.Scenarios.{release_host, little_endian, idle_leader, proposal, header}

abbrev from_leader : Message → QueueElement
from_leader m = record { up_peers = peer 0 0 ∷ []; message = m }

abbrev agreement_proposal : Message
agreement_proposal = preprepare_baseline (record {
  header = header 11 10;
  sender = 0;
  cycle = 5;
  collector_bg_id = 0;
  content = 0 ∷ 0 ∷ 1 ∷ 0 ∷ [];
})

process_baseline_element-keeps_order_example :
    Ensures
      (λ t.
        (setup t ≡ setup idle_leader)
        × Round2Ok t
        × Sublistᴰ t.juggle_queue ([] ++ from_leader agreement_proposal ∷ []))
      (process_baseline_element release_host idle_leader (from_leader agreement_proposal))
unfolding num_sl
process_baseline_element-keeps_order_example =
    process_baseline_element-keeps_order release_host idle_leader (from_leader agreement_proposal)
      (omega arith) refl

-- A message on the connectivity of a cycle.
abbrev on_connectivity : Message
on_connectivity = preprepare (record proposal { request_type = 2; cycle = 5 })

process_hybrid_element-keeps_order_example :
    Ensures
      (λ t.
        (setup t ≡ setup idle_leader)
        × Round2Ok t
        × Sublistᴰ t.juggle_queue ([] ++ from_leader on_connectivity ∷ []))
      (process_hybrid_element release_host idle_leader (from_leader on_connectivity))
unfolding num_sl
process_hybrid_element-keeps_order_example =
    process_hybrid_element-keeps_order release_host idle_leader (from_leader on_connectivity)
      (omega arith) refl

-- The leader starts with an empty juggle queue; its client counts a batch and wakes the listener, and
-- the main thread takes what the listener puts into the queue, which makes it propose a message.
abbrev at_start : Node
at_start = record { manager = idle_leader; remaining = 0 }

run :
    (m : Node) × Reach membership_variant release_host little_endian at_start m
    × (length m.manager.send_queue ≡ 1)
unfolding membership_variant is_round2_leader mock_client_on_leader_step listener_pipe_step
    dispatcher_round2 dispatch_as kind_of message_header start_round2_if_possible can_start_round2
    round2_ready leader_round2_send_preprepare take_preprepare round2_start_status num_bg num_sl
    get_f
run = (
  _,
  next (next (next here (submit_on_leader 1 0 refl)) (wake refl)) (take _ _ _ refl refl refl),
  refl,
)

at_start-IsSound :
    IsSound membership_variant release_host little_endian (setup idle_leader) at_start
at_start-IsSound = record { as_set_up = refl; round2_ok = refl; enough_juggled = omega arith }

Reach-IsSound_example :
    IsSound membership_variant release_host little_endian (setup idle_leader) run.0
unfolding num_sl
Reach-IsSound_example =
    Reach-IsSound membership_variant release_host little_endian (setup idle_leader) (omega arith)
      run.1 at_start-IsSound
