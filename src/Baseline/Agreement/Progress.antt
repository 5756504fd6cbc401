-- ===== src/Baseline/Agreement/Progress.antt =====
-- ConnManager_Baseline.cpp, dispatcher_round3_partialCommit: the collector gets the partial commits of
-- the groups.
use rcanopus_membership.Baseline.Agreement.Leaders.{push_other_leaders-ReachesLeaders}
use rcanopus_membership.Manager.Recipients.{ReachesLeaders}
use rcanopus_membership.Config.{Config, num_sl, num_bg}
use rcanopus_membership.Prelude.{
  ◌%◌, ==_iff, replicate, ℕ, ◌+◌, ◌<◌, ◌≡◌, refl, true, List, [], ◌∷◌, ◌++◌, some, length, arith,
  lookup, lookup-insert_self,
}
use rcanopus_membership.Outcome.{Outcome, done, ◌>>=◌}
use rcanopus_membership.Message.{
  MessageRound3FullCommitBaseline, full_commit_baseline, MessageRound3PartialCommitBaseline,
  message_round3_partial_commit_baseline, message_round3_full_commit_baseline,
}
use rcanopus_membership.Manager.{
  self, ConnManager, Host, CycleStatus, QueueElement, Peer, is_round2_leader, await, send,
  round3_collector_waiting_for_partialcommits_baseline, round3_waiting_for_fullcommit_baseline,
}
use rcanopus_membership.Round3.Envoy.{find_cycle}
use rcanopus_membership.Round3.Fetch.{put_status}
use rcanopus_membership.Baseline.Agreement.{
  own_full_commit_baseline, push_other_leaders, count_partial_commit_baseline,
  partial_commit_of_cycle, dispatcher_round3_partial_commit,
}
use rcanopus_membership.Baseline.Agreement.Phases.{full_commit_to}

-- Partial commits that are dispatched one after the other, each with its queue element.
unfoldable pub dispatch_votes :
    Host
    → ConnManager
    → List (QueueElement × MessageRound3PartialCommitBaseline)
    → Outcome ConnManager
dispatch_votes h s [] = done s
dispatch_votes h s (c ∷ commits) =
    dispatcher_round3_partial_commit h s c.0 c.1 >>= λ s'. dispatch_votes h s' commits

-- The leader collects the partial commits for the cycle.
abbrev pub Collects : ConnManager → ℕ → CycleStatus → Type 0
Collects s cycle st =
    (is_round2_leader s ≡ true)
    × (lookup cycle s.map_round3_status ≡ some st)
    × (st.state ≡ round3_collector_waiting_for_partialcommits_baseline)
    × (st.awaiting_message_type ≡ message_round3_partial_commit_baseline)

abbrev pub AreForCycle : ℕ → List (QueueElement × MessageRound3PartialCommitBaseline) → Type 0
AreForCycle cycle [] = Unit
AreForCycle cycle (c ∷ commits) = (c.1.cycle ≡ cycle) × AreForCycle cycle commits

counted_vote :
    (h : Host) (s : ConnManager) (cycle : ℕ) (st : CycleStatus) (e : QueueElement)
    (p : MessageRound3PartialCommitBaseline)
    → Collects s cycle st
    → p.cycle ≡ cycle
    → dispatcher_round3_partial_commit h s e p ≡ count_partial_commit_baseline s cycle st
unfolding dispatcher_round3_partial_commit partial_commit_of_cycle find_cycle
counted_vote h s cycle st e p c same = ground (arith, c.0, c.1)

abbrev one_more : CycleStatus → CycleStatus
one_more st = record st { message_received_counter = st.message_received_counter + 1 }

one_of_many_votes :
    (s : ConnManager) (cycle : ℕ) (st : CycleStatus)
    → st.message_received_counter + 1 < st.message_required
    → count_partial_commit_baseline s cycle st ≡ done (put_status s cycle (one_more st))
unfolding count_partial_commit_baseline
one_of_many_votes s cycle st h = ground arith

last_vote :
    (s : ConnManager) (cycle : ℕ) (st : CycleStatus) (leaders : List Peer)
    → push_other_leaders s.config (num_bg s.config) ≡ done leaders
    → st.message_received_counter + 1 ≡ st.message_required
    → count_partial_commit_baseline s cycle st
      ≡ done (
          send
            (put_status s cycle (
              await round3_waiting_for_fullcommit_baseline message_round3_full_commit_baseline 1
                st))
            (full_commit_to s.config cycle leaders))
unfolding count_partial_commit_baseline await
last_vote s cycle st leaders there h = ground (arith, there)

Collects-next :
    (s : ConnManager) (cycle : ℕ) (st : CycleStatus)
    → Collects s cycle st
    → Collects (put_status s cycle (one_more st)) cycle (one_more st)
unfolding put_status is_round2_leader
Collects-next s cycle st c =
    (c.0, lookup-insert_self cycle (one_more st) s.map_round3_status, c.2, c.3)

votes_complete :
    (h : Host) (s : ConnManager) (cycle : ℕ) (st : CycleStatus) (leaders : List Peer)
    (commits : List (QueueElement × MessageRound3PartialCommitBaseline))
    → Collects s cycle st
    → AreForCycle cycle commits
    → push_other_leaders s.config (num_bg s.config) ≡ done leaders
    → 0 < length commits
    → st.message_received_counter + length commits ≡ st.message_required
    → (s' : ConnManager) × (dispatch_votes h s commits ≡ done s')
      × (lookup cycle s'.map_round3_status
          ≡ some (await round3_waiting_for_fullcommit_baseline 13 1 st))
      × (s'.send_queue ≡ s.send_queue ++ full_commit_to s.config cycle leaders ∷ [])
unfolding dispatch_votes send put_status await
votes_complete h s cycle st leaders [] c same there some_left all = absurd (omega arith)
votes_complete h s cycle st leaders ((e, p) ∷ []) c same there some_left all = (
  send
      (put_status s cycle
        (await round3_waiting_for_fullcommit_baseline message_round3_full_commit_baseline 1 st))
      (full_commit_to s.config cycle leaders),
  rw (counted_vote h s cycle st e p c same.0, last_vote s cycle st leaders there (omega arith)),
  lookup-insert_self cycle _ s.map_round3_status,
  refl,
)
votes_complete h s cycle st leaders ((e, p) ∷ v ∷ commits) c same there some_left all =
    let (s', runs, waits, sent) =
      votes_complete h (put_status s cycle (one_more st)) cycle (one_more st) leaders (v ∷ commits)
        (Collects-next s cycle st c) same.1 there (omega arith) (omega arith) in
    (
      s',
      rw (counted_vote h s cycle st e p c same.0, one_of_many_votes s cycle st (omega arith)) runs,
      waits,
      sent,
    )

-- The full commit for a cycle, as it is written.
abbrev pub written_full_commit : Config → ℕ → MessageRound3FullCommitBaseline
written_full_commit c cycle = record {
  header = record { version = 1; msg_type = 13; payload_len = 36 };
  sender = c.bg_id % 65536;
  cycle = cycle;
  combined_signature = replicate 32 0;
}

-- Let a leader have its place in a configuration in which every group has a super leaf, and collect the
-- partial commits for a cycle. At least one and exactly as many partial commits for the cycle as it
-- still misses make it send one full commit, with the version, type and length of its struct, its own
-- group and the cycle, to the leader of every group, its own included, once, and to nobody else, and
-- wait for the full commit of the cycle.
pub dispatch_votes-all :
    (h : Host) (s : ConnManager) (cycle : ℕ) (st : CycleStatus)
    (commits : List (QueueElement × MessageRound3PartialCommitBaseline))
    → Collects s cycle st
    → AreForCycle cycle commits
    → s.config.bg_id < num_bg s.config
    → ((j : ℕ) → j < num_bg s.config → 0 < num_sl s.config j)
    → 0 < length commits
    → st.message_received_counter + length commits ≡ st.message_required
    → (s' : ConnManager) × (peers : List Peer) × (dispatch_votes h s commits ≡ done s')
      × (lookup cycle s'.map_round3_status
          ≡ some (record st {
            state = round3_waiting_for_fullcommit_baseline;
            awaiting_message_type = 13;
            message_received_counter = 0;
            message_required = 1;
          }))
      × ReachesLeaders s.config peers
      × (s'.send_queue
          ≡ s.send_queue
            ++ record {
              up_peers = peers;
              message = full_commit_baseline (written_full_commit s.config cycle);
            }
              ∷ [])
unfolding await own_full_commit_baseline is_round2_leader
dispatch_votes-all h s cycle st commits c same place led some_left all =
    let (leaders, pushed, reached) =
      push_other_leaders-ReachesLeaders s.config place ((==_iff s.config.sl_id 0).0 c.0) led in
    let (s', runs, waits, sent) =
      votes_complete h s cycle st leaders commits c same pushed some_left all in
    (s', self ∷ leaders, runs, waits, reached, sent)
