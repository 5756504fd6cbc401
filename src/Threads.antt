-- ===== src/Threads.antt =====
-- ConnManager.cpp: the other threads of a node: sender, the mock clients, and what listener puts into
-- the queue. A step of a thread is a function on the state that the threads share.
pub mod Interleaving
pub mod Listener
pub mod Progress
use rcanopus_membership.Prelude.{
  ℕ, ◌+◌, ◌-◌, Bool, true, false, if◌then◌else◌, List, [], ◌∷◌, ◌++◌, Option, none, some, u16, u32,
  insert, replicate,
}
use rcanopus_membership.Const.{version_latest, request_batch_size}
use rcanopus_membership.Outcome.{Outcome, done, ◌>>=◌}
use rcanopus_membership.Message.{
  Message, message_header, get_message_size, request, empty, message_round2_request, message_empty,
  sizeof_header, sizeof_request,
}
use rcanopus_membership.Message.Sent.{first_bytes}
use rcanopus_membership.Manager.{ConnManager, QueueElement, Peer, self, peer}

-- One copy for the node itself, if a recipient is nullptr.
unfoldable pub has_self : List Peer → Bool
has_self [] = false
has_self (self ∷ rest) = true
has_self (peer bg sl ∷ rest) = has_self rest

-- The connections that a message goes to, in the order of the sends.
unfoldable pub remote_peers : List Peer → List (ℕ × ℕ)
remote_peers [] = []
remote_peers (self ∷ rest) = remote_peers rest
remote_peers (peer bg sl ∷ rest) = (bg, sl) ∷ remote_peers rest

-- A message in network byte order, and the connections that it is written to.
pub record Transmission : Type 0 where
  pub recipients : List (ℕ × ℕ)
  pub wire : Message

-- The body of the loop of sender, for an element that was taken off a queue. `serialize` is the switch
-- by which the program converts a message to network byte order. The clone for the node itself and the
-- sends read getMessageSize bytes.
unfoldable pub send_element :
    (Message → Outcome Message) → ConnManager → QueueElement → Outcome (ConnManager × Transmission)
unfolding has_self remote_peers
send_element serialize s e = do
  let size = get_message_size (message_header e.message)
  s' ←
      if has_self e.up_peers
      then (do
        cloned ← first_bytes size e.message
        let copy : QueueElement = record { up_peers = self ∷ []; message = cloned }
        done (record s { recv_queue = s.recv_queue ++ copy ∷ [] }))
      else done s
  whole ← serialize e.message
  wire ← (elim (remote_peers e.up_peers) [ [] ↦ done whole | _ ∷ _ ↦ first_bytes size whole ])
  done (s', record { recipients = remote_peers e.up_peers; wire = wire })

-- A round of sender: the clients' messages come first.
unfoldable pub sender_step :
    (Message → Outcome Message) → ConnManager → Outcome (ConnManager × Option Transmission)
unfolding send_element
sender_step serialize s = elim s.client_queue [
  | e ∷ rest ↦ do
    (s', t) ← send_element serialize (record s { client_queue = rest }) e
    done (s', some t)
  | [] ↦ elim s.send_queue [
    | e ∷ rest ↦ do
      (s', t) ← send_element serialize (record s { send_queue = rest }) e
      done (s', some t)
    | [] ↦ done (s, none)
  ]
]

-- A round of mockClient on a super leaf that is not the leader, at a given time. The source leaves
-- the content as the allocator gives it: zeros stand for it.
unfoldable pub mock_client_step : ConnManager → ℕ → ℕ → ConnManager
mock_client_step s cycle now =
    let batch : QueueElement = record {
      up_peers = peer s.config.bg_id 0 ∷ [];
      message = request (record {
        header = record {
          version = version_latest;
          msg_type = message_round2_request;
          payload_len = u32 (sizeof_request + request_batch_size - sizeof_header);
        };
        sender = u16 s.config.sl_id;
        content = replicate request_batch_size 0;
      });
    } in
    record s {
      client_queue = s.client_queue ++ batch ∷ [];
      map_cycle_submission_time = insert cycle now s.map_cycle_submission_time;
    }

-- A round of mockClientOnLeader; the write to the pipe wakes the listener.
unfoldable pub mock_client_on_leader_step : ConnManager → ℕ → ℕ → ConnManager
mock_client_on_leader_step s cycle now = record s {
  map_cycle_submission_time = insert cycle now s.map_cycle_submission_time;
  leader_batch_received_from_self = s.leader_batch_received_from_self + 1;
}

-- listener, on the leader's own pipe and on a connection.
unfoldable pub listener_pipe_step : ConnManager → ConnManager
listener_pipe_step s =
    let element : QueueElement = record {
      up_peers = self ∷ [];
      message =
          empty (record { version = version_latest; msg_type = message_empty; payload_len = 0 });
    } in
    record s { recv_queue = s.recv_queue ++ element ∷ [] }

unfoldable pub listener_step :
    (Message → Outcome Message) → ConnManager → Peer → Message → Outcome ConnManager
listener_step recv s from wire = do
  message ← recv wire
  let element : QueueElement = record { up_peers = from ∷ []; message = message }
  done (record s { recv_queue = s.recv_queue ++ element ∷ [] })
