-- ===== src/Scenarios/Agreement.antt =====
-- The theorems on the agreement of Round 2 at a group of two super leaves.
use rcanopus_membership.Prelude.{map, inl, some, ◌++◌, ◌≡◌, ◌<◌, refl, [], ◌∷◌, arith, replicate}
use rcanopus_membership.Outcome.{◌>>=◌, done, Ensures}
use rcanopus_membership.Config.{num_sl, num_bg}
use rcanopus_membership.Message.{Message, message_header, kind_of, preprepare, partial_commit}
use rcanopus_membership.Manager.{ConnManager, QueueElement, self, is_round2_leader, connection}
use rcanopus_membership.Dispatcher.{dispatcher_round2, dispatch_as}
use rcanopus_membership.Network.{Nodes}
use rcanopus_membership.Round2.Replica.{
  dispatcher_round2_preprepare, preprepare_in_status, is_later, dispatcher_round2_partial_commit,
  partial_commit_in_status, verify_partial_commit,
}
use rcanopus_membership.Round2.Replica.Verifier.{fake_verifier}
use rcanopus_membership.Round2.Replica.Progress.{dispatch_partial_commits}
use rcanopus_membership.Round2.Agreement.Delivery.{
  vote_sent, SendsFullCommit, IsGroupReady, vote_of, group_commits,
}
use rcanopus_membership.Round2.Agreement.{phase, proposal as proposal_at, vote, Steps}
use rcanopus_membership.Round2.Agreement.Refinement.{dispatcher_round2-Steps}
use rcanopus_membership.Round2.Agreement.Network.{
  votes, verdicts, Reach, here, next, deliver, IsStart, full_commit-all_voted,
}
use rcanopus_membership.Scenarios.{
  localhost, release_host, idle_leader, proposal, collector, partial_commit_of,
}

abbrev alone : Message → QueueElement
alone m = record { up_peers = self ∷ []; message = m }

-- The collector counts a third partial commit.
dispatcher_round2-Steps_example :
    Ensures
      (Steps collector.config (vote 0 7) (phase collector) collector.send_queue)
      (dispatcher_round2 release_host collector (alone (partial_commit (partial_commit_of 1))))
unfolding num_sl
dispatcher_round2-Steps_example =
    dispatcher_round2-Steps release_host collector (alone (partial_commit (partial_commit_of 1)))
      (vote 0 7) (refl, omega arith, refl, (refl, refl)) (refl, refl)

abbrev pair : Nodes
pair sl = record idle_leader {
  config = record {
    rg_bg_info = record { failure = 0; addr = localhost ∷ localhost ∷ [] } ∷ [];
    bg_id = 0;
    sl_id = sl;
    global_failures = 0;
    request_per_sl_per_second = 100;
  };
}

-- Both get the message, and then the collector both partial commits.
run : (now : Nodes) × Reach 2 0 7 pair now × (0 < verdicts 2 0 7 now 0)
unfolding dispatcher_round2 dispatch_as kind_of message_header num_bg num_sl is_round2_leader
    connection replicate dispatcher_round2_preprepare preprepare_in_status is_later
    dispatcher_round2_partial_commit partial_commit_in_status verify_partial_commit
run = (
  _,
  next
      (next
        (next
          (next here (
            deliver release_host 0 (alone (preprepare proposal)) (proposal_at 0 7 0) _ (omega arith)
              (refl, refl) (λ _ _. refl) refl))
          (deliver release_host 1 (alone (preprepare proposal)) (proposal_at 0 7 0) _ (omega arith)
            (refl, refl) (λ _ _. refl) refl))
        (deliver release_host 0 (alone (partial_commit (partial_commit_of 0))) (vote 0 7) _
          (omega arith) (refl, refl) (λ _ _. omega arith) refl))
      (deliver release_host 0 (alone (partial_commit (partial_commit_of 1))) (vote 0 7) _
        (omega arith) (refl, refl) (λ _ _. omega arith) refl),
  omega arith,
)

pair-IsStart : IsStart 2 0 7 pair
unfolding num_sl
pair-IsStart i l = (refl, refl, refl, refl)

full_commit-all_voted_example : votes 2 0 7 run.0 1 ≡ 1
full_commit-all_voted_example =
    full_commit-all_voted 2 0 7 0 1 pair-IsStart run.1 (omega arith) run.2 (omega arith)

-- The two super leaves with the verifier of server.cpp.
abbrev verifying_pair : Nodes
verifying_pair sl = record (pair sl) { round2_verifier = some fake_verifier }

verifying_pair-IsGroupReady : IsGroupReady release_host verifying_pair proposal
verifying_pair-IsGroupReady i l =
    (refl, record { idle = inl refl; nothing_stored = refl; in_view = refl; in_order = inl refl })

group_commits_example :
    ((s : ConnManager) × (dispatcher_round2_preprepare release_host
          (verifying_pair 1)
          (alone (preprepare proposal))
          proposal
        ≡ done s)
      × (s.send_queue
          ≡ [] ++ vote_sent release_host verifying_pair proposal (verifying_pair 1).config ∷ []))
    × ((t : ConnManager) × ((dispatcher_round2_preprepare release_host
              (verifying_pair 0)
              (alone (preprepare proposal))
              proposal
            >>= λ s.
                dispatch_partial_commits release_host s
                  (map (vote_of verifying_pair proposal) (1 ∷ 0 ∷ [])))
          ≡ done t)
        × SendsFullCommit release_host verifying_pair proposal
            ([] ++ vote_sent release_host verifying_pair proposal (verifying_pair 0).config ∷ [])
            t)
unfolding num_sl
group_commits_example =
    group_commits release_host verifying_pair proposal (alone (preprepare proposal)) (1 ∷ 0 ∷ []) 1
      verifying_pair-IsGroupReady (omega arith) refl refl (omega arith)
