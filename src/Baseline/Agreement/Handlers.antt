-- ===== src/Baseline/Agreement/Handlers.antt =====
-- ConnManager_Baseline.cpp: the handlers of the agreement of the leaders, beside the steps of the
-- abstract machine.
use rcanopus_membership.Prelude.{
  ℕ, ◌+◌, ◌≡◌, ◌≢◌, refl, sym, ap, ◌∙◌, true, ◌==◌, inl, inr, [], ◌∷◌, append-nil, some, arith,
  lookup, lookup-insert, lookup-insert_self, lookup-erase, insert, erase, Bool-cases, Option-cases,
}
use rcanopus_membership.Outcome.{
  done, ◌>>=◌, Ensures, Ensures->>=_eq, Ensures-if, Ensures-debug_throw_else_return,
  debug_throw_else_return,
}
use rcanopus_membership.Config.{num_bg}
use rcanopus_membership.Message.{
  MessageRound3PreprepareBaseline, MessageRound3PartialCommitBaseline,
  MessageRound3FullCommitBaseline, message_invalid, message_round3_preprepare_baseline,
  message_round3_partial_commit_baseline,
}
use rcanopus_membership.Manager.{
  ConnManager, Host, QueueElement, CycleStatus, self, juggle, is_round2_leader, send, connection,
  is_state, await, storage_exist, storage_store, storage_exist-store,
  round3_waiting_for_preprepare_baseline, round3_collector_waiting_for_partialcommits_baseline,
  round3_waiting_for_fullcommit_baseline, round3_committed as committed_state,
}
use rcanopus_membership.Round3.Envoy.{find_cycle, round3_committed}
use rcanopus_membership.Round3.Fetch.{put_status}
use rcanopus_membership.Baseline.Agreement.{
  proposed_status, take_up_proposal, proposal_in_status, dispatcher_round3_preprepare,
  partial_commit_of_cycle, push_other_leaders, count_partial_commit_baseline,
  dispatcher_round3_partial_commit, dispatcher_round3_full_commit,
}
use rcanopus_membership.Baseline.Agreement.Phases.{
  finished, status_phase, entry_phase, phase, partial_commit_to, full_commit_to, Event, proposal,
  vote, verdict, wait, collect, follow, count, complete, finish, Steps,
}

Steps-same : (s : ConnManager) (cycle : ℕ) (event : Event) → Steps s cycle event s
Steps-same s cycle event = record {
  out = [];
  sent = sym (append-nil s.send_queue);
  same_config = refl;
  step = wait refl;
  others = λ other ne. refl;
}

Steps-juggle :
    (s : ConnManager) (cycle : ℕ) (event : Event) (e : QueueElement)
    → Steps s cycle event (juggle s e)
unfolding juggle
Steps-juggle s cycle event e = record {
  out = [];
  sent = sym (append-nil s.send_queue);
  same_config = refl;
  step = wait refl;
  others = λ other ne. refl;
}

-- A new status of the cycle changes its phase alone.
put_status-phase :
    (s : ConnManager) (cycle : ℕ) (st : CycleStatus)
    → phase (put_status s cycle st) cycle ≡ status_phase st
unfolding put_status
put_status-phase s cycle st = ground (arith, lookup-insert cycle cycle st s.map_round3_status)

put_status-others :
    (s : ConnManager) (cycle other : ℕ) (st : CycleStatus)
    → other ≢ cycle
    → phase (put_status s cycle st) other ≡ phase s other
unfolding put_status
put_status-others s cycle other st ne =
    let same : lookup other (insert cycle st s.map_round3_status)
        ≡ lookup other s.map_round3_status =
      ground (arith, lookup-insert cycle other st s.map_round3_status) in
    ap (λ entry. entry_phase entry (storage_exist other s.storage)) same

phase-of_status :
    (s : ConnManager) (cycle : ℕ) (st : CycleStatus)
    → lookup cycle s.map_round3_status ≡ some st
    → phase s cycle ≡ status_phase st
phase-of_status s cycle st e = rw e

module _ (s : ConnManager) (st : CycleStatus) where
  take_up_proposal-Steps :
      (p : MessageRound3PreprepareBaseline)
      → lookup p.cycle s.map_round3_status ≡ some st
      → is_state round3_waiting_for_preprepare_baseline st ≡ true
      → Ensures (Steps s p.cycle (proposal p.collector_bg_id)) (take_up_proposal s st p)
  unfolding take_up_proposal proposed_status send await
  take_up_proposal-Steps p e awaited = elim (Bool-cases (p.collector_bg_id == s.config.bg_id)) [
    | inl own ↦ rw own (record {
      out = partial_commit_to s.config p.cycle self ∷ [];
      sent = refl;
      same_config = refl;
      step =
          collect (ap proposal (ground arith)) (phase-of_status s p.cycle st e ∙ ground arith)
            (put_status-phase s p.cycle _ ∙ refl) refl;
      others = λ other ne. put_status-others s p.cycle other _ ne;
    })
    | inr other ↦ rw other (
        Ensures->>=_eq (Steps s p.cycle (proposal p.collector_bg_id))
          (connection s.config p.collector_bg_id 0) _
          λ leader there. record {
            out = partial_commit_to s.config p.cycle leader ∷ [];
            sent = refl;
            same_config = refl;
            step =
                follow p.collector_bg_id leader refl (ground arith) there
                  (phase-of_status s p.cycle st e ∙ ground arith)
                  (put_status-phase s p.cycle _ ∙ refl) refl;
            others = λ other ne. put_status-others s p.cycle other _ ne;
          })
  ]

  count-Steps :
      (cycle : ℕ)
      → lookup cycle s.map_round3_status ≡ some st
      → is_state round3_collector_waiting_for_partialcommits_baseline st ≡ true
      → Ensures (Steps s cycle vote) (count_partial_commit_baseline s cycle st)
  unfolding count_partial_commit_baseline send await
  count-Steps cycle e collects =
      elim (Bool-cases (st.message_received_counter + 1 == st.message_required)) [
        | inl last ↦ rw last (
            Ensures->>=_eq (Steps s cycle vote) (push_other_leaders s.config (num_bg s.config)) _
              λ leaders there. record {
                out = full_commit_to s.config cycle leaders ∷ [];
                sent = refl;
                same_config = refl;
                step =
                    complete st.message_received_counter leaders refl there
                      (phase-of_status s cycle st e ∙ ground arith)
                      (put_status-phase s cycle _ ∙ refl) refl;
                others = λ other ne. put_status-others s cycle other _ ne;
              })
        | inr more ↦ rw more (record {
          out = [];
          sent = sym (append-nil s.send_queue);
          same_config = refl;
          step =
              count st.message_received_counter st.message_required refl (ground arith)
                (phase-of_status s cycle st e ∙ ground arith)
                (put_status-phase s cycle _ ∙ ground arith);
          others = λ other ne. put_status-others s cycle other _ ne;
        })
      ]

-- What is left of a cycle that is committed.
abbrev without_cycle : ConnManager → ℕ → ConnManager
without_cycle s cycle = record s {
  map_round3_status = erase cycle s.map_round3_status;
  map_cycle_submission_time = erase cycle s.map_cycle_submission_time;
  storage = storage_store cycle s.storage;
}

round3_committed_lem :
    (s : ConnManager) (cycle : ℕ) (st : CycleStatus)
    → lookup cycle s.map_round3_status ≡ some st
    → is_state committed_state st ≡ true
    → round3_committed s cycle ≡ done (without_cycle s cycle)
unfolding round3_committed find_cycle
round3_committed_lem s cycle st e over = ground (arith, e, over)

without_cycle-phase : (s : ConnManager) (cycle : ℕ) → phase (without_cycle s cycle) cycle ≡ finished
without_cycle-phase s cycle =
    ground (
      arith,
      lookup-erase cycle cycle s.map_round3_status,
      storage_exist-store cycle cycle s.storage,
    )

without_cycle-others :
    (s : ConnManager) (cycle other : ℕ)
    → other ≢ cycle
    → phase (without_cycle s cycle) other ≡ phase s other
without_cycle-others s cycle other ne =
    let gone : lookup other (erase cycle s.map_round3_status) ≡ lookup other s.map_round3_status =
      ground (arith, lookup-erase cycle other s.map_round3_status) in
    let stored : storage_exist other (storage_store cycle s.storage)
        ≡ storage_exist other s.storage =
      ground (arith, storage_exist-store other cycle s.storage) in
    λ i. entry_phase (gone i) (stored i)

end-Steps :
    (s : ConnManager) (st : CycleStatus) (cycle : ℕ)
    → lookup cycle s.map_round3_status ≡ some st
    → is_state round3_waiting_for_fullcommit_baseline st ≡ true
    → Ensures
        (Steps s cycle verdict)
        (round3_committed (put_status s cycle (await committed_state message_invalid 0 st)) cycle)
unfolding await put_status
end-Steps s st cycle e waits =
    let over = await committed_state message_invalid 0 st in
    let s' = put_status s cycle over in
    rw (round3_committed_lem s' cycle over (lookup-insert_self cycle over s.map_round3_status) refl)
      (record {
        out = [];
        sent = sym (append-nil s.send_queue);
        same_config = refl;
        step =
            finish refl (phase-of_status s cycle st e ∙ ground arith)
              (without_cycle-phase s' cycle);
        others = λ other ne.
            without_cycle-others s' cycle other ne ∙ put_status-others s cycle other over ne;
      })

find_cycle-lookup :
    (s : ConnManager) (cycle : ℕ) (st : CycleStatus)
    → find_cycle s cycle ≡ done st
    → lookup cycle s.map_round3_status ≡ some st
unfolding find_cycle
find_cycle-lookup s cycle st e = elim (Option-cases (lookup cycle s.map_round3_status)) [
  | inl none_there ↦ ground (arith, none_there)
  | inr (found, there) ↦ ground (arith, there)
]

proposal_in_status-Steps :
    (h : Host) (s : ConnManager) (st : CycleStatus) (e : QueueElement)
    (p : MessageRound3PreprepareBaseline)
    → lookup p.cycle s.map_round3_status ≡ some st
    → Ensures (Steps s p.cycle (proposal p.collector_bg_id)) (proposal_in_status h s st e p)
unfolding proposal_in_status
proposal_in_status-Steps h s st e p there =
    Ensures-if (Steps s p.cycle (proposal p.collector_bg_id))
      (is_state round3_waiting_for_preprepare_baseline st) _ _
      (λ awaited.
        Ensures-debug_throw_else_return (Steps s p.cycle (proposal p.collector_bg_id))
          h.debug_failfast (st.awaiting_message_type == message_round3_preprepare_baseline) s
          (debug_throw_else_return h.debug_failfast (st.message_received_counter == 0) s
            (take_up_proposal s st p))
          (Steps-same s p.cycle (proposal p.collector_bg_id))
          (λ _.
            Ensures-debug_throw_else_return (Steps s p.cycle (proposal p.collector_bg_id))
              h.debug_failfast (st.message_received_counter == 0) s (take_up_proposal s st p)
              (Steps-same s p.cycle (proposal p.collector_bg_id))
              (λ _. take_up_proposal-Steps s st p there awaited)))
      (λ _. Steps-juggle s p.cycle (proposal p.collector_bg_id) e)

pub dispatcher_round3_preprepare-Steps :
    (h : Host) (s : ConnManager) (e : QueueElement) (p : MessageRound3PreprepareBaseline)
    → Ensures (Steps s p.cycle (proposal p.collector_bg_id)) (dispatcher_round3_preprepare h s e p)
unfolding dispatcher_round3_preprepare
dispatcher_round3_preprepare-Steps h s e p =
    Ensures->>=_eq (Steps s p.cycle (proposal p.collector_bg_id)) (find_cycle s p.cycle) _
      (λ st there. proposal_in_status-Steps h s st e p (find_cycle-lookup s p.cycle st there))

partial_commit_of_cycle-Steps :
    (h : Host) (s : ConnManager) (e : QueueElement) (cycle : ℕ) (st : CycleStatus)
    → lookup cycle s.map_round3_status ≡ some st
    → Ensures (Steps s cycle vote) (partial_commit_of_cycle h s e cycle st)
unfolding partial_commit_of_cycle
partial_commit_of_cycle-Steps h s e cycle st there =
    Ensures-if (Steps s cycle vote)
      (is_state round3_collector_waiting_for_partialcommits_baseline st) _ _
      (λ collects.
        Ensures-debug_throw_else_return (Steps s cycle vote) h.debug_failfast
          (st.awaiting_message_type == message_round3_partial_commit_baseline) s
          (count_partial_commit_baseline s cycle st) (Steps-same s cycle vote)
          (λ _. count-Steps s st cycle there collects))
      (λ _. Steps-juggle s cycle vote e)

pub dispatcher_round3_partial_commit-Steps :
    (h : Host) (s : ConnManager) (e : QueueElement) (p : MessageRound3PartialCommitBaseline)
    → Ensures (Steps s p.cycle vote) (dispatcher_round3_partial_commit h s e p)
unfolding dispatcher_round3_partial_commit
dispatcher_round3_partial_commit-Steps h s e p =
    Ensures-debug_throw_else_return (Steps s p.cycle vote) h.debug_failfast (is_round2_leader s) s
      (find_cycle s p.cycle >>= partial_commit_of_cycle h s e p.cycle) (Steps-same s p.cycle vote)
      (λ _.
        Ensures->>=_eq (Steps s p.cycle vote) (find_cycle s p.cycle)
          (partial_commit_of_cycle h s e p.cycle)
          (λ st there.
            partial_commit_of_cycle-Steps h s e p.cycle st (find_cycle-lookup s p.cycle st there)))

pub dispatcher_round3_full_commit-Steps :
    (s : ConnManager) (e : QueueElement) (p : MessageRound3FullCommitBaseline)
    → Ensures (Steps s p.cycle verdict) (dispatcher_round3_full_commit s e p)
unfolding dispatcher_round3_full_commit
dispatcher_round3_full_commit-Steps s e p =
    Ensures->>=_eq (Steps s p.cycle verdict) (find_cycle s p.cycle) _ λ st there.
      Ensures-if (Steps s p.cycle verdict) (is_state round3_waiting_for_fullcommit_baseline st) _ _
        (λ waits. end-Steps s st p.cycle (find_cycle-lookup s p.cycle st there) waits)
        (λ _. Steps-juggle s p.cycle verdict e)
