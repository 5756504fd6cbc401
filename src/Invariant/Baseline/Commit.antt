-- ===== src/Invariant/Baseline/Commit.antt =====
-- ConnManager_Baseline.cpp: a full commit keeps what holds of a node between two messages.
use rcanopus_membership.Prelude.{
  ℕ, ◌+◌, ◌-◌, ◌≡◌, refl, ◌∙◌, inl, inr, true, Option, some, arith, ◌==◌, Option-cases, u16, set,
}
use rcanopus_membership.Outcome.{
  Outcome, ◌>>=◌, Ensures, Ensures->>=, Ensures-mono, Ensures->>=_any, Ensures-if,
  Ensures-debug_throw_else_return,
}
use rcanopus_membership.Config.{Config}
use rcanopus_membership.Message.{MessageRound2Preprepare, MessageRound2FullCommit}
use rcanopus_membership.Message.Round3.{get_round3_response}
use rcanopus_membership.Manager.{
  ConnManager, Host, CycleStatus, CycleState, QueueElement, is_none, is_round2_leader, at, is_state,
  state_code, round2_waiting_for_preprepare, round2_waiting_for_fullcommit, round2_committed,
  round3_waiting_for_local_connectivity,
}
use rcanopus_membership.Round3.Envoy.{find_cycle}
use rcanopus_membership.FullCommit.Client.{leave_round2}
use rcanopus_membership.Baseline.Commit.{
  prepare_fake_response, skip_baseline_cycles, commit_own_baseline_cycle, commit_baseline_client,
  enter_baseline_round3, propose_agreement, end_connectivity, start_if_leader,
  commit_baseline_connectivity, commit_by_baseline_type, baseline_commit_in_status,
  dispatcher_baseline_full_commit,
}
use rcanopus_membership.Invariant.{Frame, Frame-refl, Frame-trans, Round2Ok, PhaseOk, Holds}
use rcanopus_membership.Invariant.Round2.{
  Keeps, Handles, Keeps-of_Frame, Handles-of_Keeps, start_round2_if_possible-Keeps,
}
use rcanopus_membership.Invariant.Round2.Replica.{phase_of}
use rcanopus_membership.Invariant.FullCommit.{left_Keeps}
use rcanopus_membership.Invariant.Baseline.Frame.{
  prepare_fake_response-Frame, enter_baseline_round3-Frame, skip_baseline_cycles-Frame,
  propose_agreement-Frame, end_connectivity-Frame,
}

-- A call after one that keeps the node.
pub then_Keeps :
    (s : ConnManager) (m : Outcome ConnManager) (f : ConnManager → Outcome ConnManager)
    → Ensures (Keeps s) m
    → ((t : ConnManager) → Round2Ok t → Ensures (Keeps t) (f t))
    → Ensures (Keeps s) (m >>= f)
then_Keeps s m f h k = Ensures->>= (Keeps s) (Keeps s) m f h λ t st.
    Ensures-mono (Keeps t) (Keeps s) (f t) (k t st.2)
      λ u tu. (tu.0 ∙ st.0, tu.1 ∙ st.1, tu.2, tu.3 ∙ st.3)

pub start_if_leader-Keeps :
    (h : Host) (s : ConnManager) → Round2Ok s → Ensures (Keeps s) (start_if_leader h s)
unfolding start_if_leader
start_if_leader-Keeps h s ok =
    Ensures-if (Keeps s) (is_round2_leader s) _ _ (λ _. start_round2_if_possible-Keeps h s ok)
      (λ _. (refl, refl, ok, refl))

pub commit_own_baseline_cycle-Keeps :
    (h : Host) (s : ConnManager) (st : CycleStatus) (p : MessageRound2Preprepare)
    (c : MessageRound2FullCommit)
    → Round2Ok s
    → Ensures (Keeps s) (commit_own_baseline_cycle h s st p c)
unfolding commit_own_baseline_cycle
commit_own_baseline_cycle-Keeps h s st p c ok =
    Ensures->>=_any (Keeps s) (get_round3_response p c (u16 s.config.sl_id) p.cycle) _ λ response.
      Ensures->>=_any (Keeps s) (at st.fetch_response s.config.bg_id) _ λ entry.
        Ensures-debug_throw_else_return (Keeps s) h.debug_failfast (is_none entry) s _
          (refl, refl, ok, refl)
          λ _.
            let st' = record st {
              fetch_response = set st.fetch_response s.config.bg_id (some response);
            } in
            left_Keeps s s (enter_baseline_round3 h (leave_round2 s) p.cycle st') (Frame-refl s)
              (enter_baseline_round3-Frame h (leave_round2 s) p.cycle st')

-- The cycles that were skipped and the message's own.
pub commit_cycles-Keeps :
    (h : Host) (s s' : ConnManager) (st : CycleStatus) (p : MessageRound2Preprepare)
    (c : MessageRound2FullCommit) (n first : ℕ)
    → Frame s s'
    → Round2Ok s
    → Ensures
        (Keeps s)
        (skip_baseline_cycles h s' st p c n first >>= λ t. commit_own_baseline_cycle h t st p c)
commit_cycles-Keeps h s s' st p c n first f ok =
    then_Keeps s (skip_baseline_cycles h s' st p c n first)
      (λ t. commit_own_baseline_cycle h t st p c)
      (Ensures-mono (Frame s') (Keeps s) (skip_baseline_cycles h s' st p c n first)
        (skip_baseline_cycles-Frame h s' st p c n first)
        λ t g. Keeps-of_Frame s t ok (Frame-trans s s' t f g))
      (λ t. commit_own_baseline_cycle-Keeps h t st p c)

-- A node whose status is committed, before the message is used up or put back.
module _ (h : Host) (s : ConnManager) (st : CycleStatus) (e : QueueElement)
    (p : MessageRound2Preprepare) (held : Holds st s.temporary_storage_of_preprepare)
    (type : st.awaiting_message_type ≡ 5) (counter : st.message_received_counter ≡ 0)
    (required : st.message_required ≡ 1) where
  abbrev committed_node : ConnManager
  committed_node = record s {
    round2_current_status = some (record st { state = round2_committed });
  }

  commit_baseline_connectivity-Handles :
      Ensures
        (Handles e s)
        (commit_baseline_connectivity h committed_node (record st { state = round2_committed }) e p)
  unfolding commit_baseline_connectivity
  commit_baseline_connectivity-Handles =
      Ensures->>=_any (Handles e s) (find_cycle committed_node p.cycle) _ λ cycle_status.
        Ensures-if (Handles e s) (is_state round3_waiting_for_local_connectivity cycle_status) _ _
          (λ _.
            Ensures->>= (Frame committed_node) (Handles e s)
              (propose_agreement h committed_node p.cycle) _
              (propose_agreement-Frame h committed_node p.cycle)
              λ s' f.
                Ensures-mono (Keeps committed_node) (Handles e s) _
                  (then_Keeps committed_node
                    (end_connectivity (leave_round2 s') p.cycle cycle_status) (start_if_leader h)
                    (left_Keeps committed_node s'
                      (end_connectivity (leave_round2 s') p.cycle cycle_status) f
                      (end_connectivity-Frame (leave_round2 s') p.cycle cycle_status))
                    (start_if_leader-Keeps h))
                  (Handles-of_Keeps e s))
          (λ _. (refl, inr refl, (type, counter, required, held), inl refl))

  commit_by_baseline_type-Handles :
      (c : MessageRound2FullCommit)
      → Ensures
          (Handles e s)
          (commit_by_baseline_type h committed_node (record st { state = round2_committed }) e p c)
  unfolding commit_by_baseline_type commit_baseline_client
  commit_by_baseline_type-Handles c =
      let st' = record st { state = round2_committed } in
      let first = u16 (p.lastcycle + 1) in
      Ensures-if (Handles e s) (p.request_type == 0) _ _
        (λ _.
          Ensures-mono (Keeps committed_node) (Handles e s) _
            (then_Keeps committed_node _ (start_if_leader h)
              (commit_cycles-Keeps h committed_node (prepare_fake_response committed_node p) st' p c
                (p.cycle - first) first (prepare_fake_response-Frame committed_node p) (type, held))
              (start_if_leader-Keeps h))
            (Handles-of_Keeps e s))
        λ _.
          Ensures-if (Handles e s) (p.request_type == 2) _ _
            (λ _. commit_baseline_connectivity-Handles) λ _. tt

pub phase_waiting :
    (c : Config) (st : CycleStatus) (stored : Option MessageRound2Preprepare) (state : CycleState)
    → PhaseOk c st stored state
    → (state_code state == state_code round2_waiting_for_fullcommit) ≡ true
    → (st.awaiting_message_type ≡ 5)
      × (st.message_received_counter ≡ 0)
      × (st.message_required ≡ 1)
      × Holds st stored
phase_waiting c st stored round2_waiting_for_fullcommit h test = h
phase_waiting c st stored _ h test = ground arith

baseline_commit_in_status-Handles :
    (h : Host) (s : ConnManager) (st : CycleStatus) (e : QueueElement) (c : MessageRound2FullCommit)
    → s.round2_current_status ≡ some st
    → Round2Ok s
    → Ensures (Handles e s) (baseline_commit_in_status h s st e c)
unfolding baseline_commit_in_status
baseline_commit_in_status-Handles h s st e c current ok =
    Ensures-if (Handles e s) (is_state round2_waiting_for_preprepare st) _ _
      (λ _. (refl, inr refl, ok, inl refl))
      λ _.
        Ensures-debug_throw_else_return (Handles e s) h.debug_failfast
          (is_state round2_waiting_for_fullcommit st) s _ (refl, inl refl, ok, inl refl)
          λ waiting.
            Ensures-debug_throw_else_return (Handles e s) h.debug_failfast
              (c.view == st.round2_view) s _ (refl, inl refl, ok, inl refl)
              λ _.
                Ensures-debug_throw_else_return (Handles e s) h.debug_failfast
                  (c.seq == st.round2_sequence) s _ (refl, inl refl, ok, inl refl)
                  λ _.
                    let phase =
                      phase_waiting s.config st s.temporary_storage_of_preprepare st.state
                        (phase_of s st current ok) waiting in
                    elim (Option-cases s.temporary_storage_of_preprepare) [
                      | inl missing ↦ rw missing tt
                      | inr (p, stored) ↦ rw stored (
                          commit_by_baseline_type-Handles h s st e p phase.3 phase.0 phase.1 phase.2
                            c)
                    ]

pub dispatcher_baseline_full_commit-Handles :
    (h : Host) (s : ConnManager) (e : QueueElement) (c : MessageRound2FullCommit)
    → Round2Ok s
    → Ensures (Handles e s) (dispatcher_baseline_full_commit h s e c)
unfolding dispatcher_baseline_full_commit
dispatcher_baseline_full_commit-Handles h s e c ok = elim (Option-cases s.round2_current_status) [
  | inl idle ↦ rw (idle, dispatcher_baseline_full_commit) (refl, inr refl, ok, inl refl)
  | inr (st, current) ↦
      rw (current, dispatcher_baseline_full_commit)
        (baseline_commit_in_status-Handles h s st e c current ok)
]
