-- ===== src/Round2/Agreement/Handlers.antt =====
-- ConnManager.cpp: dispatcher_round2_preprepare and dispatcher_round2_partialCommit, beside the abstract
-- machine.
use mathlib.Core.Path.{subst}
use rcanopus_membership.Prelude.{
  ℕ, ◌+◌, ◌≡◌, refl, sym, ap, ◌∙◌, ltb, ◌==◌, ◌||◌, not, true, ◌⊎◌, inl, inr, [], ◌∷◌, append-nil,
  Option, some, arith, Bool-cases, Option-cases, ==_iff,
}
use rcanopus_membership.Outcome.{
  Ensures, Ensures->>=_any, Ensures->>=_eq, Ensures-if, Ensures-debug_throw,
  Ensures-debug_throw_else_return,
}
use rcanopus_membership.Config.{Config, num_bg, num_sl}
use rcanopus_membership.Message.{
  MessageRound2Preprepare, MessageRound2PartialCommit, message_round2_preprepare,
}
use rcanopus_membership.Manager.{
  ConnManager, Host, QueueElement, CycleStatus, CycleState, self, connection, is_none, is_state,
  is_round2_leader, juggle, round2_start_status, state_code-injective,
  round2_waiting_for_preprepare, round2_collector_waiting_for_partialcommits,
}
use rcanopus_membership.Round2.Replica.{
  take_up_preprepare, preprepare_in_status, dispatcher_round2_preprepare, is_later,
  verify_partial_commit, count_partial_commit, partial_commit_in_status,
  dispatcher_round2_partial_commit,
}
use rcanopus_membership.Round2.Agreement.{
  Phase, idle, awaiting, collecting, phase, state_phase, status_phase, partial_commit_to,
  full_commit_to_all, Event, proposal, vote, wait, collect, follow, count, complete, Steps,
}
use rcanopus_membership.Invariant.{Round2Ok, PhaseOk}
use rcanopus_membership.Invariant.Round2.{started, started-Round2Ok}
use rcanopus_membership.Invariant.Round2.Replica.{phase_of, phase_collecting}

-- Nothing is sent, and the phase is the one before, or the node has got a status.
Steps-wait :
    (event : Event) (before : Phase) (s : ConnManager)
    → (phase s ≡ before) ⊎ ((before ≡ idle) × (phase s ≡ awaiting))
    → Steps s.config event before s.send_queue s
Steps-wait event before s same = record {
  out = [];
  sent = sym (append-nil s.send_queue);
  same_config = refl;
  step = wait same;
}

phase_awaiting_state :
    (c : Config) (st : CycleStatus) (stored : Option MessageRound2Preprepare) (state : CycleState)
    → PhaseOk c st stored state
    → st.awaiting_message_type ≡ 3
    → state ≡ round2_waiting_for_preprepare
phase_awaiting_state c st stored round2_waiting_for_preprepare h type = refl
phase_awaiting_state c st stored _ h type = ground arith

module _ (h : Host) (s : ConnManager) (st : CycleStatus) (before : Phase) where
  take_up_preprepare-Steps :
      (p : MessageRound2Preprepare)
      → (before ≡ idle) ⊎ (before ≡ awaiting)
      → Ensures
          (Steps s.config (proposal p.view p.seq p.collector_sl_id) before s.send_queue)
          (take_up_preprepare h s st p)
  unfolding take_up_preprepare
  take_up_preprepare-Steps p waits = elim (Bool-cases (p.collector_sl_id == s.config.sl_id)) [
    | inl own ↦ rw own (
        Ensures-debug_throw _ h.debug_failfast (is_none s.temporary_storage_of_preprepare) _
          (record {
            out = partial_commit_to s.config p.view p.seq self ∷ [];
            sent = refl;
            same_config = refl;
            step = collect p.view p.seq (ap (proposal p.view p.seq) (ground arith)) waits refl refl;
          }))
    | inr other ↦ rw other (
        Ensures->>=_eq _ (connection s.config s.config.bg_id p.collector_sl_id) _ λ recipient there.
          Ensures-debug_throw _ h.debug_failfast (is_none s.temporary_storage_of_preprepare) _
            (record {
              out = partial_commit_to s.config p.view p.seq recipient ∷ [];
              sent = refl;
              same_config = refl;
              step =
                  follow p.view p.seq p.collector_sl_id recipient refl (ground arith) there waits
                    refl refl;
            }))
  ]

  -- The node has the status `st`; `before` is the phase that it was in when the message came.
  module _ (current : s.round2_current_status ≡ some st) (ok : Round2Ok s)
      (same : (phase s ≡ before) ⊎ ((before ≡ idle) × (phase s ≡ awaiting))) where
    waits_for_message : st.awaiting_message_type ≡ 3 → (before ≡ idle) ⊎ (before ≡ awaiting)
    waits_for_message type =
        let state : st.state ≡ round2_waiting_for_preprepare =
          phase_awaiting_state s.config st s.temporary_storage_of_preprepare st.state
            (phase_of s st current ok) type in
        let here : phase s ≡ awaiting = rw current (ap (state_phase st) state) in
        elim same [ inl e ↦ inr (sym e ∙ here) | inr e ↦ inl e.0 ]

    preprepare_in_status-Steps :
        (e : QueueElement) (p : MessageRound2Preprepare)
        → Ensures
            (Steps s.config (proposal p.view p.seq p.collector_sl_id) before s.send_queue)
            (preprepare_in_status h s st e p)
    unfolding preprepare_in_status juggle
    preprepare_in_status-Steps e p =
        let event = proposal p.view p.seq p.collector_sl_id in
        let Q = Steps s.config event before s.send_queue in
        Ensures-if Q (not (st.awaiting_message_type == message_round2_preprepare)) _ _
          (λ _. Steps-wait event before (juggle s e) same)
          λ awaited. Ensures-debug_throw Q h.debug_failfast (st.message_received_counter == 0) _ (
            Ensures-debug_throw Q h.debug_failfast (st.message_required == 1) _ (
              Ensures-if Q (is_later s p) _ _ (λ _. Steps-wait event before (juggle s e) same)
                λ _.
                  Ensures-debug_throw_else_return Q h.debug_failfast (p.view == s.round2_next_view)
                    s _ (Steps-wait event before s same)
                    λ _.
                      Ensures-debug_throw Q h.debug_failfast
                        (is_round2_leader s || p.seq == s.round2_next_seq) _
                        (take_up_preprepare-Steps p (waits_for_message (ground arith)))))

count_partial_commit-Steps :
    (s : ConnManager) (st : CycleStatus)
    → phase s ≡ collecting st.round2_view st.round2_sequence st.message_received_counter
    → st.state ≡ round2_collector_waiting_for_partialcommits
    → st.message_required ≡ num_sl s.config s.config.bg_id
    → Steps s.config
        (vote st.round2_view st.round2_sequence)
        (phase s)
        s.send_queue
        (count_partial_commit s st)
unfolding count_partial_commit
count_partial_commit-Steps s st here state whole =
    elim (Bool-cases (st.message_received_counter + 1 == st.message_required)) [
      | inl last ↦ rw last (record {
        out = full_commit_to_all s.config st.round2_view st.round2_sequence ∷ [];
        sent = refl;
        same_config = refl;
        step =
            complete st.round2_view st.round2_sequence st.message_received_counter refl
              ((==_iff _ _).0 last ∙ whole) here refl refl;
      })
      | inr more ↦ rw more (record {
        out = [];
        sent = sym (append-nil s.send_queue);
        same_config = refl;
        step =
            count st.round2_view st.round2_sequence st.message_received_counter refl (ground arith)
              here
              (ap
                (state_phase
                  (record st { message_received_counter = st.message_received_counter + 1 }))
                state);
      })
    ]

pub dispatcher_round2_preprepare-Steps :
    (h : Host) (s : ConnManager) (e : QueueElement) (p : MessageRound2Preprepare)
    → Round2Ok s
    → Ensures
        (Steps s.config (proposal p.view p.seq p.collector_sl_id) (phase s) s.send_queue)
        (dispatcher_round2_preprepare h s e p)
unfolding dispatcher_round2_preprepare round2_start_status
dispatcher_round2_preprepare-Steps h s e p ok = elim (Option-cases s.round2_current_status) [
  | inl none_yet ↦
      rw (none_yet, dispatcher_round2_preprepare)
        (preprepare_in_status-Steps h (started s) (round2_start_status (num_bg s.config)) idle refl
          (started-Round2Ok s ok (rw none_yet)) (inr (refl, refl)) e p)
  | inr (st, current) ↦
      rw (current, dispatcher_round2_preprepare)
        (preprepare_in_status-Steps h s st (status_phase (some st)) current ok
          (inl (ap status_phase current)) e p)
]

-- A valid partial commit for the message that is collected.
count_in_place :
    (s : ConnManager) (st : CycleStatus) (view seq : ℕ)
    → s.round2_current_status ≡ some st
    → Round2Ok s
    → is_state round2_collector_waiting_for_partialcommits st ≡ true
    → view ≡ st.round2_view
    → seq ≡ st.round2_sequence
    → Steps s.config (vote view seq) (phase s) s.send_queue (count_partial_commit s st)
count_in_place s st view seq current ok collects same_view same_seq =
    let same_place : vote st.round2_view st.round2_sequence ≡ vote view seq = cc in
    let state =
      state_code-injective st.state round2_collector_waiting_for_partialcommits (ground arith) in
    let collected =
      phase_collecting s.config st s.temporary_storage_of_preprepare st.state
        (phase_of s st current ok) collects in
    subst (λ event. Steps s.config event (phase s) s.send_queue (count_partial_commit s st))
      same_place
      (count_partial_commit-Steps s st (ap status_phase current ∙ ap (state_phase st) state) state
        collected.2)

partial_commit_in_status-Steps :
    (h : Host) (s : ConnManager) (st : CycleStatus) (e : QueueElement)
    (p : MessageRound2PartialCommit)
    → s.round2_current_status ≡ some st
    → Round2Ok s
    → Ensures
        (Steps s.config (vote p.view p.seq) (phase s) s.send_queue)
        (partial_commit_in_status h s st e p)
unfolding partial_commit_in_status juggle
partial_commit_in_status-Steps h s st e p current ok =
    let event = vote p.view p.seq in
    let Q = Steps s.config event (phase s) s.send_queue in
    let dropped : Q s = Steps-wait event (phase s) s (inl refl) in
    let put_back : Q (juggle s e) = Steps-wait event (phase s) (juggle s e) (inl refl) in
    Ensures-if Q (is_state round2_waiting_for_preprepare st) _ _ (λ _. put_back)
      λ _.
        Ensures-if Q (ltb st.round2_view p.view || ltb st.round2_sequence p.seq) _ _ (λ _. put_back)
          λ _.
            Ensures-debug_throw_else_return Q h.debug_failfast s.round2_is_collector s _ dropped
              λ _.
                Ensures-debug_throw_else_return Q h.debug_failfast
                  (is_state round2_collector_waiting_for_partialcommits st) s _ dropped
                  λ collects.
                    Ensures-debug_throw_else_return Q h.debug_failfast (p.view == st.round2_view) s
                      _ dropped
                      λ same_view.
                        Ensures-debug_throw_else_return Q h.debug_failfast
                          (p.seq == st.round2_sequence) s _ dropped
                          λ same_seq. Ensures->>=_any Q (verify_partial_commit s p) _ λ valid.
                            Ensures-debug_throw_else_return Q h.debug_failfast valid s _ dropped
                              λ _.
                                count_in_place s st p.view p.seq current ok collects
                                  ((==_iff p.view st.round2_view).0 same_view)
                                  ((==_iff p.seq st.round2_sequence).0 same_seq)

pub dispatcher_round2_partial_commit-Steps :
    (h : Host) (s : ConnManager) (e : QueueElement) (p : MessageRound2PartialCommit)
    → Round2Ok s
    → Ensures
        (Steps s.config (vote p.view p.seq) (phase s) s.send_queue)
        (dispatcher_round2_partial_commit h s e p)
unfolding dispatcher_round2_partial_commit juggle
dispatcher_round2_partial_commit-Steps h s e p ok = elim (Option-cases s.round2_current_status) [
  | inl none_yet ↦
      rw (none_yet, dispatcher_round2_partial_commit)
        (Steps-wait (vote p.view p.seq) idle (juggle s e) (inl (ap status_phase none_yet)))
  | inr (st, current) ↦
      rw (current, dispatcher_round2_partial_commit)
        (subst
          (λ before.
            Ensures (Steps s.config (vote p.view p.seq) before s.send_queue)
              (partial_commit_in_status h s st e p))
          (ap status_phase current) (partial_commit_in_status-Steps h s st e p current ok))
]
