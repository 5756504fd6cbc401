-- ===== src/Scenarios/Start.antt =====
-- The theorems on the program from its start on, at the leader of a group of two super leaves.
use rcanopus_membership.Prelude.{ℕ, ◌+◌, ◌≡◌, refl, List, [], ◌∷◌, false, arith, length, replicate}
use rcanopus_membership.Outcome.{done}
use rcanopus_membership.Config.{get_f, Config, num_bg, num_sl}
use rcanopus_membership.Config.RoundTrip.{write_all, config_tokens, parse_from_file-config_tokens}
use rcanopus_membership.Config.Parse.{parse_from_file}
use rcanopus_membership.Connections.{all_leaves, leaves_from, leaves_of, is_own_place}
use rcanopus_membership.Message.{Message, preprepare, full_commit, kind_of, message_header}
use rcanopus_membership.Message.Wire.{recv_message, deserialize_header, from_be}
use rcanopus_membership.Manager.{ConnManager, self, is_round2_leader}
use rcanopus_membership.Dispatcher.{dispatcher_round2}
use rcanopus_membership.Invariant.Loop.{membership_variant}
use rcanopus_membership.Threads.{mock_client_on_leader_step}
use rcanopus_membership.Threads.Interleaving.{Node, Reach, here, next, submit_on_leader}
use rcanopus_membership.Threads.Listener.{
  num_fd, num_of_remote_peers, count_remote, PollEvent, would_block, read_bytes, drain_pipe,
  listener_round,
}
use rcanopus_membership.Threads.Listener.Steps.{count_readable, ReceivesAll, listener_round-Reach}
use rcanopus_membership.Start.{main_manager, new_conn_manager, set_verifier}
use rcanopus_membership.Start.Progress.{parsed, started, started_proposals_return}
use rcanopus_membership.Scenarios.{localhost, release_host, little_endian, proposal}
use rcanopus_membership.Scenarios.Text.{text_scanner, text_writer}

abbrev one_group : Config
one_group = record {
  rg_bg_info = record { failure = 0; addr = localhost ∷ localhost ∷ [] } ∷ [];
  bg_id = 0;
  sl_id = 0;
  global_failures = 0;
  request_per_sl_per_second = 100;
}

abbrev file : List ℕ
unfolding write_all config_tokens
file =
    write_all text_scanner text_writer (config_tokens text_scanner text_writer (parsed one_group))
      []

read_back : parse_from_file text_scanner file ≡ done (parsed one_group, [])
unfolding file
read_back =
    parse_from_file-config_tokens text_scanner text_writer (parsed one_group) (omega arith)
      (0, 0, _, refl, refl, refl, omega arith)

run :
    (m : Node) × Reach membership_variant release_host little_endian (started false one_group) m
    × (m.manager ≡ mock_client_on_leader_step (main_manager false one_group) 1 0)
unfolding main_manager new_conn_manager set_verifier is_round2_leader
run = (_, next here (submit_on_leader 1 0 refl), refl)

started_proposals_return_example :
    (s : ConnManager) × (dispatcher_round2 release_host run.0.manager
        (record { up_peers = self ∷ []; message = preprepare proposal })
      ≡ done s)
unfolding num_sl get_f run mock_client_on_leader_step main_manager new_conn_manager set_verifier
started_proposals_return_example =
    started_proposals_return text_scanner file [] one_group release_host little_endian false
      read_back (omega arith) run.1 (record { up_peers = self ∷ []; message = preprepare proposal })
      (refl, refl, omega arith)

-- A full commit on the wire.
abbrev wire_full_commit : Message
wire_full_commit = full_commit (record {
  header = record { version = 256; msg_type = 1280; payload_len = 0x26000000 };
  sender = 256;
  view = 256;
  seq = 256;
  combined_signature = replicate 32 0;
})

-- poll reports of the connection and of the pipe.
abbrev events : List PollEvent
events =
    record { revents = 1; wire = wire_full_commit; read = would_block }
    ∷ record { revents = 1; wire = wire_full_commit; read = read_bytes 2 }
    ∷ []

two_slots : num_fd (main_manager false one_group) ≡ 2
unfolding num_fd num_of_remote_peers count_remote all_leaves leaves_from leaves_of is_own_place
    num_bg num_sl is_round2_leader main_manager new_conn_manager set_verifier
two_slots = refl

events_received : ReceivesAll (recv_message little_endian) one_group 0 events
unfolding recv_message kind_of message_header deserialize_header from_be drain_pipe
events_received = (((λ _ _. tt), (λ _ _. tt)), (((λ _ _. tt), (λ _ _. tt)), tt))

listener_round-Reach_example :
    (t : ConnManager) × (listener_round release_host
        (recv_message little_endian)
        (main_manager false one_group)
        0
        events
      ≡ done t)
    × Reach membership_variant release_host little_endian
        (started false one_group)
        (record { manager = t; remaining = 0 })
    × (length t.recv_queue
        ≡ length (main_manager false one_group).recv_queue + count_readable events)
unfolding membership_variant main_manager new_conn_manager set_verifier
listener_round-Reach_example =
    listener_round-Reach membership_variant release_host little_endian (started false one_group)
      events (omega (arith, two_slots)) events_received
