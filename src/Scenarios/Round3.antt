-- ===== src/Scenarios/Round3.antt =====
-- The theorems of Round 3, at concrete nodes and messages.
use rcanopus_membership.Round3.Membership.Votes.Fuel.{tally_messages-fuel}
use rcanopus_membership.Round3.Membership.Bytes.{membership_bytes, as_membership}
use rcanopus_membership.Round2.Leader.{field_bytes}
use rcanopus_membership.Message.Image.{preprepare_bytes, as_preprepare}
use rcanopus_membership.Round3.Envoy.Roles.{envoy_roles}
use rcanopus_membership.Round3.Envoy.{is_primary_envoy_round3, is_backup_envoy_round3}
use rcanopus_membership.Prelude.{
  true, ℕ, ◌+◌, ◌<◌, ◌≡◌, refl, false, List, [], ◌∷◌, none, some, get_elem?, replicate, insert,
  arith, lookup,
}
use rcanopus_membership.Outcome.{done, ◌>>=◌}
use rcanopus_membership.Config.{num_bg, num_sl}
use rcanopus_membership.Message.{
  get_message_size, MessageRound3FetchRequest, MessageRound3FetchResponse, fetch_response,
}
use rcanopus_membership.Manager.{ConnManager, CycleStatus, peer, round2_committed, storage_exist}
use rcanopus_membership.Round3.Pending.{Pending, respond_to_pending_fetch_requests}
use rcanopus_membership.Round3.Fetch.{put_status}
use rcanopus_membership.Round3.Fetch.Serve.{dispatch_requests, waiting, early_requests_answered}
use rcanopus_membership.Round3.Membership.{all_reachable}
use rcanopus_membership.Round3.Membership.Votes.{
  tally_messages, tally_row, tally_entry, tally_rows, tally_message, final_membership,
}
use rcanopus_membership.Round3.Membership.Votes.Tally.{flatten, reached_by, tally_rows-counts}
use rcanopus_membership.Round3.Membership.Votes.Majority.{groups_from, one_response_decides}
use rcanopus_membership.Scenarios.{
  proposal, release_host, two_groups, header, idle_leader, collecting_status,
}

abbrev response : MessageRound3FetchResponse
response = record {
  header = header 7 39;
  sender_bg_id = 0;
  sender_sl_id = 0;
  cycle = 4;
  combined_signature = [];
  entire_preprepare_msg = 1 ∷ [];
}

abbrev request_from : ℕ → MessageRound3FetchRequest
request_from sl_id = record {
  header = header 6 0;
  sender_bg_id = 1;
  sender_sl_id = sl_id;
  cycle = 4;
  hash = record { bg_id = 1; cycle = 4; lastcycle = 3; hash = [] };
  combined_signature = [];
}

abbrev committed_status : CycleStatus
committed_status = record collecting_status {
  state = round2_committed;
  fetch_response = some response ∷ none ∷ [];
}

early_requests_answered_example :
    (pending : Pending) × ((dispatch_requests release_host idle_leader
          (request_from 2 ∷ request_from 0 ∷ [])
        >>= λ s'. respond_to_pending_fetch_requests (put_status s' 4 committed_status) 4)
      ≡ done (record idle_leader {
        map_round3_status = insert 4 committed_status [];
        map_round3_pending_fetch_requests = pending;
        send_queue =
            record { up_peers = peer 1 0 ∷ peer 1 2 ∷ []; message = fetch_response response } ∷ [];
      }))
    × (waiting 4 pending ≡ [])
unfolding num_sl lookup storage_exist
early_requests_answered_example =
    early_requests_answered release_host idle_leader 4 committed_status response (request_from 2)
      (request_from 0 ∷ []) (refl, omega arith, (refl, omega arith, tt)) refl refl refl refl refl

tally_rows-counts_example :
    (result : List ℕ) × (tally_rows false 2 2
        (flatten ((1 ∷ 0 ∷ []) ∷ (1 ∷ 1 ∷ []) ∷ []))
        (3 ∷ 4 ∷ [])
      ≡ done result)
    × ((j v : ℕ)
        → j < 2
        → get_elem? (3 ∷ 4 ∷ []) j ≡ some v
        → get_elem? result j ≡ some (v + reached_by j ((1 ∷ 0 ∷ []) ∷ (1 ∷ 1 ∷ []) ∷ [])))
tally_rows-counts_example =
    tally_rows-counts 2 ((1 ∷ 0 ∷ []) ∷ (1 ∷ 1 ∷ []) ∷ []) (3 ∷ 4 ∷ []) (refl, (refl, tt)) refl

one_response_decides_example :
    (tally_message false
        (num_bg two_groups)
        (all_reachable two_groups 4)
        (replicate (num_bg two_groups) 0)
      >>= λ votes. done (final_membership (num_bg two_groups) 0 0 votes))
    ≡ done (groups_from 0 (num_bg two_groups))
unfolding num_bg
one_response_decides_example = one_response_decides two_groups 4 0 (omega arith)

-- The response that carries the proposal, with the participants 0 and 1.
abbrev carrier : MessageRound3FetchResponse
carrier = record response { entire_preprepare_msg = preprepare_bytes proposal }

abbrev node_in_round3 : ConnManager
node_in_round3 = record idle_leader {
  map_round3_status =
      (1, record committed_status { fetch_response = some carrier ∷ none ∷ [] }) ∷ [];
}

envoy_roles_example :
    (is_primary_envoy_round3 node_in_round3 1 ≡ done true)
    × (is_backup_envoy_round3 node_in_round3 1 ≡ done false)
unfolding lookup preprepare_bytes as_preprepare field_bytes
envoy_roles_example =
    envoy_roles node_in_round3 1
      (record committed_status { fetch_response = some carrier ∷ none ∷ [] }) carrier proposal 0
      (1 ∷ []) (9 ∷ []) refl refl refl refl refl (omega arith, (omega arith, tt))

-- A response of one group, whose row reaches it, as its bytes.
abbrev one_response : List ℕ
one_response = membership_bytes (record {
  header = header 10 41;
  sender_bg_id = 0;
  sender_sl_id = 0;
  combined_signature = replicate 32 0;
  cycle = 4;
  total_bg_num = 1;
  connectivity = 1 ∷ [];
})

tally_messages-fuel_example :
    tally_messages false 1 49 one_response (0 ∷ [])
    ≡ tally_messages false 1 1000 one_response (0 ∷ [])
unfolding membership_bytes replicate
tally_messages-fuel_example =
    tally_messages-fuel false 1 49 1000 one_response (0 ∷ []) (omega arith) (omega arith)

one_response_counts : tally_messages false 1 49 one_response (0 ∷ []) ≡ done (1 ∷ [])
unfolding membership_bytes replicate tally_messages tally_message tally_rows tally_row tally_entry
    as_membership get_message_size
one_response_counts = refl
