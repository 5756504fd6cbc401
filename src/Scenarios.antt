-- ===== src/Scenarios.antt =====
-- The nodes and messages on which the theorems are tried: two groups, of four and of three super
-- leaves, each with one failure, and the leader of the first.
pub mod Round2
pub mod Round3
pub mod Messages
pub mod Text
pub mod Files
pub mod Baseline
pub mod Connections
pub mod Agreement
pub mod Start
pub mod Threads
use rcanopus_membership.Prelude.{
  ℕ, ◌+◌, ◌*◌, ◌/◌, ◌%◌, ◌<◌, ◌≡◌, Bool, true, false, List, [], ◌∷◌, Option, none, some, arith,
  replicate,
}
use rcanopus_membership.Config.{Config, BgInfo, SockaddrIn}
use rcanopus_membership.Message.{
  MessageHeader, MessageRound2Request, MessageRound2Preprepare, MessageRound2PartialCommit,
}
use rcanopus_membership.Message.Wire.{ByteOrder}
use rcanopus_membership.Manager.{
  ConnManager, Host, CycleStatus, round2_collector_waiting_for_partialcommits,
}

-- Port 80 at 127.0.0.1, in network order on a host with the low byte first.
abbrev pub localhost : SockaddrIn
localhost = record { sin_port = 0x5000; sin_addr = 0x0100007f }

abbrev pub two_groups : Config
two_groups = record {
  rg_bg_info =
      record { failure = 1; addr = localhost ∷ localhost ∷ localhost ∷ localhost ∷ [] }
      ∷ record { failure = 1; addr = localhost ∷ localhost ∷ localhost ∷ [] }
      ∷ [];
  bg_id = 0;
  sl_id = 0;
  global_failures = 0;
  request_per_sl_per_second = 100;
}

-- A host whose random engine always draws 0.
abbrev pub release_host : Host
release_host = record {
  debug_failfast = false;
  draw = λ n bound. 0;
  draw-le = λ n bound. omega arith;
}

-- A host with the low byte first.
abbrev pub little_endian : ByteOrder
little_endian = record {
  htons = λ x. x % 256 * 256 + x / 256;
  ntohs = λ x. x % 256 * 256 + x / 256;
  htonl = λ x. x % 65536 * 65536 + x / 65536;
  ntohl = λ x. x % 65536 * 65536 + x / 65536;
  htons-lt = λ x h. omega arith;
  htonl-lt = λ x h. omega arith;
  ntohs-htons = λ x h. omega arith;
  ntohl-htonl = λ x h. omega arith;
}

abbrev pub idle_leader : ConnManager
idle_leader = record {
  config = two_groups;
  recv_queue = [];
  juggle_queue = [];
  send_queue = [];
  client_queue = [];
  engine = 0;
  map_round3_status = [];
  map_round3_pending_fetch_requests = [];
  map_round3_pending_connectivity_requests = [];
  map_round3_pending_membership_requests = [];
  map_cycle_submission_time = [];
  rg_leader_batch_received_from = 0 ∷ 1 ∷ 1 ∷ 1 ∷ [];
  leader_batch_received_from_self = 1;
  leader_batch_processed = 0;
  leader_round2_next_rcanopus_cycle = 1;
  round2_next_view = 0;
  round2_next_seq = 7;
  round2_current_status = none;
  temporary_storage_of_preprepare = none;
  leader_round2_pending_preprepare_raw = [];
  leader_collector_rr = 2;
  leader_envoys_rr = 0;
  round2_is_collector = false;
  round2_verifier = some (λ bytes signature. true);
  storage = [];
  fake_round3_response_for_baseline = none;
}

abbrev pub header : ℕ → ℕ → MessageHeader
header msg_type payload_len = record { version = 1; msg_type = msg_type; payload_len = payload_len }

-- A message with two participants, 0 and 1, and one byte of content.
abbrev pub proposal : MessageRound2Preprepare
proposal = record {
  header = header 3 23;
  sender = 0;
  view = 0;
  seq = 7;
  bg_id = 0;
  request_type = 0;
  cycle = 1;
  lastcycle = 0;
  collector_sl_id = 0;
  num_of_round3_participants = 2;
  participants_and_content = 0 ∷ 0 ∷ 1 ∷ 0 ∷ 9 ∷ [];
}

abbrev pub collecting_status : CycleStatus
collecting_status = record {
  message_received_counter = 2;
  message_required = 4;
  awaiting_message_type = 4;
  round2_view = 0;
  round2_sequence = 7;
  state = round2_collector_waiting_for_partialcommits;
  fetch_response = none ∷ none ∷ [];
  connectivity_response = none ∷ none ∷ [];
  membership_response = none ∷ none ∷ [];
}

-- The leader as the collector of the proposal, with two of four partial commits.
abbrev pub collector : ConnManager
collector = record idle_leader {
  round2_current_status = some collecting_status;
  temporary_storage_of_preprepare = some proposal;
  round2_is_collector = true;
}

abbrev pub partial_commit_of : ℕ → MessageRound2PartialCommit
partial_commit_of sender = record {
  header = header 4 6;
  sender = sender;
  view = 0;
  seq = 7;
  signature = [];
}
