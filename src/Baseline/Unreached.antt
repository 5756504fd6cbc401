-- ===== src/Baseline/Unreached.antt =====
-- ConnManager.cpp, dispatcher_round3_preprepare, dispatcher_round3_partialCommit and
-- dispatcher_round3_fullCommit: copies of the baseline's handlers, which the dispatcher of that file does
-- not reach. The first and the last are the same as in ConnManager_Baseline.cpp.
use rcanopus_membership.Prelude.{ℕ, ◌+◌, ◌≡◌, refl, true, ◌==◌, if◌then◌else◌, arith}
use rcanopus_membership.Outcome.{
  Outcome, done, thrown, fail_fast, undefined, ◌>>=◌, debug_throw_else_return,
}
use rcanopus_membership.Config.{num_bg}
use rcanopus_membership.Message.{
  MessageRound3PreprepareBaseline, MessageRound3PartialCommitBaseline,
  MessageRound3FullCommitBaseline, message_round3_partial_commit_baseline,
  message_round3_full_commit_baseline,
}
use rcanopus_membership.Manager.{
  ConnManager, Host, QueueElement, CycleStatus, is_round2_leader, juggle, send, is_state, await,
  round3_collector_waiting_for_partialcommits_baseline, round3_waiting_for_fullcommit_baseline,
}
use rcanopus_membership.Round3.Envoy.{find_cycle}
use rcanopus_membership.Round3.Fetch.{put_status}
use rcanopus_membership.Baseline.Agreement.{
  dispatcher_round3_preprepare, push_other_leaders, count_partial_commit_baseline,
  partial_commit_of_cycle, dispatcher_round3_partial_commit, dispatcher_round3_full_commit,
}

unfoldable pub preprepare_copy :
    Host → ConnManager → QueueElement → MessageRound3PreprepareBaseline → Outcome ConnManager
unfolding dispatcher_round3_preprepare
preprepare_copy = dispatcher_round3_preprepare

-- The full commit is made, with its recipients, but not put into the send queue.
unfoldable pub count_copy : ConnManager → ℕ → CycleStatus → Outcome ConnManager
unfolding put_status await push_other_leaders
count_copy s cycle st =
    let st' = record st { message_received_counter = st.message_received_counter + 1 } in
    if st'.message_received_counter == st'.message_required
    then (do
      let complete =
          await round3_waiting_for_fullcommit_baseline message_round3_full_commit_baseline 1 st'
      peers ← push_other_leaders s.config (num_bg s.config)
      done (put_status s cycle complete))
    else done (put_status s cycle st')

unfoldable pub copy_of_cycle :
    Host → ConnManager → QueueElement → ℕ → CycleStatus → Outcome ConnManager
unfolding count_copy juggle
copy_of_cycle h s e cycle st =
    if is_state round3_collector_waiting_for_partialcommits_baseline st
    then debug_throw_else_return h.debug_failfast
        (st.awaiting_message_type == message_round3_partial_commit_baseline) s
        (count_copy s cycle st)
    else done (juggle s e)

unfoldable pub partial_commit_copy :
    Host → ConnManager → QueueElement → MessageRound3PartialCommitBaseline → Outcome ConnManager
unfolding copy_of_cycle find_cycle
partial_commit_copy h s e p = find_cycle s p.cycle >>= copy_of_cycle h s e p.cycle

unfoldable pub full_commit_copy :
    ConnManager → QueueElement → MessageRound3FullCommitBaseline → Outcome ConnManager
unfolding dispatcher_round3_full_commit
full_commit_copy = dispatcher_round3_full_commit

-- The same call, if nothing that it sends reaches the send queue.
abbrev pub unsent : ConnManager → Outcome ConnManager → Outcome ConnManager
unsent s m = m >>= λ t. done (record t { send_queue = s.send_queue })

count_copy-unsent :
    (s : ConnManager) (cycle : ℕ) (st : CycleStatus)
    → count_copy s cycle st ≡ unsent s (count_partial_commit_baseline s cycle st)
unfolding count_copy count_partial_commit_baseline send put_status
count_copy-unsent s cycle st = ground arith

copy_of_cycle-unsent :
    (h : Host) (s : ConnManager) (e : QueueElement) (cycle : ℕ) (st : CycleStatus)
    → copy_of_cycle h s e cycle st ≡ unsent s (partial_commit_of_cycle h s e cycle st)
unfolding copy_of_cycle partial_commit_of_cycle juggle
copy_of_cycle-unsent h s e cycle st = ground (arith, count_copy-unsent s cycle st)

unsent->>= :
    (s : ConnManager) (m : Outcome CycleStatus) (f g : CycleStatus → Outcome ConnManager)
    → ((st : CycleStatus) → f st ≡ unsent s (g st))
    → (m >>= f) ≡ unsent s (m >>= g)
unsent->>= s (done st) f g h = h st
unsent->>= s (thrown x) f g h = refl
unsent->>= s fail_fast f g h = refl
unsent->>= s undefined f g h = refl

-- On a leader the copy of dispatcher_round3_partialCommit in ConnManager.cpp does what the handler of
-- the baseline does, but that nothing is sent: a collector which has counted its last partial commit
-- waits for a full commit that no leader gets.
pub partial_commit_copy-unsent :
    (h : Host) (s : ConnManager) (e : QueueElement) (p : MessageRound3PartialCommitBaseline)
    → s.config.sl_id ≡ 0
    → partial_commit_copy h s e p ≡ unsent s (dispatcher_round3_partial_commit h s e p)
unfolding partial_commit_copy dispatcher_round3_partial_commit is_round2_leader
partial_commit_copy-unsent h s e p leads =
    let leader : (s.config.sl_id == 0) ≡ true = rw leads refl in
    rw leader (
      unsent->>= s (find_cycle s p.cycle) (copy_of_cycle h s e p.cycle)
        (partial_commit_of_cycle h s e p.cycle) (copy_of_cycle-unsent h s e p.cycle))
