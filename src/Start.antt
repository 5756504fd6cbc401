-- ===== src/Start.antt =====
-- ConnManager.cpp, the constructor, and server.cpp, main: the node before its threads run.
pub mod Progress
use rcanopus_membership.Prelude.{ℕ, Bool, ◌==◌, if◌then◌else◌, [], none, some, replicate}
use rcanopus_membership.Config.{Config, num_sl}
use rcanopus_membership.Manager.{ConnManager, SigVerifier}
use rcanopus_membership.Round2.Replica.Verifier.{fake_verifier}

-- The constructor, less the connections. It leaves round2_isCollector as it finds it, and only the
-- leader gets batch counters; where the others have a null pointer, they have no counter.
unfoldable pub new_conn_manager : Bool → Config → ConnManager
unfolding num_sl
new_conn_manager found conf = record {
  config = conf;
  recv_queue = [];
  juggle_queue = [];
  send_queue = [];
  client_queue = [];
  engine = 0;
  map_round3_status = [];
  map_round3_pending_fetch_requests = [];
  map_round3_pending_connectivity_requests = [];
  map_round3_pending_membership_requests = [];
  map_cycle_submission_time = [];
  rg_leader_batch_received_from =
      if conf.sl_id == 0 then replicate (num_sl conf conf.bg_id) 0 else [];
  leader_batch_received_from_self = 0;
  leader_batch_processed = 0;
  leader_round2_next_rcanopus_cycle = 1;
  round2_next_view = 1;
  round2_next_seq = 1;
  round2_current_status = none;
  temporary_storage_of_preprepare = none;
  leader_round2_pending_preprepare_raw = [];
  leader_collector_rr = 0;
  leader_envoys_rr = 0;
  round2_is_collector = found;
  round2_verifier = none;
  storage = [];
  fake_round3_response_for_baseline = none;
}

unfoldable pub set_verifier : ConnManager → SigVerifier → ConnManager
set_verifier s v = record s { round2_verifier = some v }

-- What main makes of the configuration, as start begins.
unfoldable pub main_manager : Bool → Config → ConnManager
unfolding new_conn_manager set_verifier
main_manager found conf = set_verifier (new_conn_manager found conf) fake_verifier
