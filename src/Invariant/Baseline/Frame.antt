-- ===== src/Invariant/Baseline/Frame.antt =====
-- ConnManager_Baseline.cpp: the calls of Round 3 leave Round 2 and the juggle queue alone.
use rcanopus_membership.Prelude.{ℕ, zero, suc, u16, ◌+◌, refl, false, ◌==◌, inl, inr}
use rcanopus_membership.Outcome.{
  done, Ensures, Ensures-debug_throw, Ensures-debug_throw_else_return, Ensures->>=_any, Ensures-if,
}
use rcanopus_membership.Config.{num_bg}
use rcanopus_membership.Message.{
  MessageRound2Preprepare, MessageRound2FullCommit, MessageRound3FetchRequest,
  MessageRound3FetchResponse, MessageRound3PreprepareBaseline, MessageRound3PartialCommitBaseline,
  MessageRound3FullCommitBaseline, message_round3_preprepare_baseline,
  message_round3_partial_commit_baseline,
}
use rcanopus_membership.Message.Image.{memcpy}
use rcanopus_membership.Message.Round3.{get_round3_response}
use rcanopus_membership.Manager.{
  ConnManager, Host, CycleStatus, QueueElement, is_round2_leader, is_state, round2_committed,
  round3_waiting_for_preprepare_baseline, round3_collector_waiting_for_partialcommits_baseline,
  round3_waiting_for_fullcommit_baseline,
}
use rcanopus_membership.Round3.Envoy.{find_cycle}
use rcanopus_membership.Round3.Fetch.{put_status}
use rcanopus_membership.Baseline.Fetch.{
  fetch_for_itself, send_baseline_fetch_request, dispatcher_baseline_fetch_request, keep_response,
  go_on_if_all_there, dispatcher_baseline_fetch_response,
}
use rcanopus_membership.Baseline.Commit.{
  prepare_fake_response, enter_baseline_round3, skip_baseline_cycle, skip_baseline_cycles,
  propose_agreement, end_connectivity,
}
use rcanopus_membership.Baseline.Agreement.{
  take_up_proposal, dispatcher_round3_preprepare, count_partial_commit_baseline,
  dispatcher_round3_partial_commit, dispatcher_round3_full_commit,
}
use rcanopus_membership.Invariant.{sends, Frame, Frame-refl, Round2Ok}
use rcanopus_membership.Invariant.Frame.{
  then_Frame, respond_to_pending_fetch_requests-Frame, round3_committed-Frame,
  send_fetch_request-Frame,
}
use rcanopus_membership.Invariant.Round2.{Handles}
use rcanopus_membership.Invariant.Dispatch.{Handles-of_Frames, push_and_start-Handles}

fetch_for_itself-Frame :
    (h : Host) (s : ConnManager) (cycle : ℕ) (st : CycleStatus)
    → Ensures (Frame s) (fetch_for_itself h s cycle st)
unfolding fetch_for_itself
fetch_for_itself-Frame h s cycle st =
    Ensures-if (Frame s) (num_bg s.config == 1) _ _
      (λ _. round3_committed-Frame (put_status s cycle _) cycle)
      (λ _. send_fetch_request-Frame h (put_status s cycle _) _)

send_baseline_fetch_request-Frame :
    (h : Host) (s : ConnManager) (cycle : ℕ)
    → Ensures (Frame s) (send_baseline_fetch_request h s cycle)
unfolding send_baseline_fetch_request
send_baseline_fetch_request-Frame h s cycle = Ensures->>=_any (Frame s) (find_cycle s cycle) _ λ st.
    Ensures-if (Frame s) (is_state round2_committed st) _ _
      (λ _. fetch_for_itself-Frame h s cycle st) (λ _. tt)

pub dispatcher_baseline_fetch_request-Frame :
    (s : ConnManager) (p : MessageRound3FetchRequest)
    → Ensures (Frame s) (dispatcher_baseline_fetch_request s p)
unfolding dispatcher_baseline_fetch_request
dispatcher_baseline_fetch_request-Frame s p = grind sends

go_on_if_all_there-Frame :
    (s : ConnManager) (cycle : ℕ) (st : CycleStatus) → Frame s (go_on_if_all_there s cycle st)
unfolding go_on_if_all_there
go_on_if_all_there-Frame s cycle st = grind sends

pub dispatcher_baseline_fetch_response-Handles :
    (h : Host) (s : ConnManager) (e : QueueElement) (p : MessageRound3FetchResponse)
    → Round2Ok s
    → Ensures (Handles e s) (dispatcher_baseline_fetch_response h s p)
unfolding dispatcher_baseline_fetch_response
dispatcher_baseline_fetch_response-Handles h s e p ok =
    Ensures->>=_any (Handles e s) (find_cycle s p.cycle) _ λ st.
      Ensures-debug_throw (Handles e s) h.debug_failfast _ _ (
        Ensures->>=_any (Handles e s) (keep_response st p) _ λ st'.
          let s' = go_on_if_all_there s p.cycle st' in
          Ensures-if (Handles e s) (is_round2_leader s') _ _
            (λ _. push_and_start-Handles h e s s' ok (go_on_if_all_there-Frame s p.cycle st'))
            (λ _. Handles-of_Frames e s (done s') ok (go_on_if_all_there-Frame s p.cycle st')))

pub prepare_fake_response-Frame :
    (s : ConnManager) (p : MessageRound2Preprepare) → Frame s (prepare_fake_response s p)
unfolding prepare_fake_response
prepare_fake_response-Frame s p = grind sends

pub enter_baseline_round3-Frame :
    (h : Host) (s : ConnManager) (cycle : ℕ) (st : CycleStatus)
    → Ensures (Frame s) (enter_baseline_round3 h s cycle st)
unfolding enter_baseline_round3
enter_baseline_round3-Frame h s cycle st = Ensures-debug_throw (Frame s) h.debug_failfast _ _ (
    then_Frame s _ _ (respond_to_pending_fetch_requests-Frame (put_status s cycle st) cycle)
      (λ t. send_baseline_fetch_request-Frame h t cycle))

skip_baseline_cycle-Frame :
    (h : Host) (s : ConnManager) (st : CycleStatus) (p : MessageRound2Preprepare)
    (c : MessageRound2FullCommit) (cycle : ℕ)
    → Ensures (Frame s) (skip_baseline_cycle h s st p c cycle)
unfolding skip_baseline_cycle
skip_baseline_cycle-Frame h s st p c cycle =
    Ensures-debug_throw (Frame s) h.debug_failfast false _ (
      Ensures->>=_any (Frame s) (memcpy _ _) _ λ content.
        Ensures->>=_any (Frame s) (get_round3_response _ c _ cycle) _
          λ response. enter_baseline_round3-Frame h s cycle _)

pub skip_baseline_cycles-Frame :
    (h : Host) (s : ConnManager) (st : CycleStatus) (p : MessageRound2Preprepare)
    (c : MessageRound2FullCommit) (n cycle : ℕ)
    → Ensures (Frame s) (skip_baseline_cycles h s st p c n cycle)
unfolding skip_baseline_cycles
skip_baseline_cycles-Frame h s st p c zero cycle = Frame-refl s
skip_baseline_cycles-Frame h s st p c (suc n) cycle =
    then_Frame s (skip_baseline_cycle h s st p c cycle) _
      (skip_baseline_cycle-Frame h s st p c cycle)
      (λ t. skip_baseline_cycles-Frame h t st p c n (u16 (cycle + 1)))

pub propose_agreement-Frame :
    (h : Host) (s : ConnManager) (cycle : ℕ) → Ensures (Frame s) (propose_agreement h s cycle)
unfolding propose_agreement
propose_agreement-Frame h s cycle = grind sends

pub end_connectivity-Frame :
    (s : ConnManager) (cycle : ℕ) (st : CycleStatus)
    → Ensures (Frame s) (end_connectivity s cycle st)
unfolding end_connectivity
end_connectivity-Frame s cycle st =
    Ensures-if (Frame s) (is_round2_leader s) _ _ (λ _. Frame-refl s)
      (λ _. round3_committed-Frame (put_status s cycle _) cycle)

take_up_proposal-Frame :
    (s : ConnManager) (st : CycleStatus) (p : MessageRound3PreprepareBaseline)
    → Ensures (Frame s) (take_up_proposal s st p)
unfolding take_up_proposal
take_up_proposal-Frame s st p = grind sends

count_partial_commit_baseline-Frame :
    (s : ConnManager) (cycle : ℕ) (st : CycleStatus)
    → Ensures (Frame s) (count_partial_commit_baseline s cycle st)
unfolding count_partial_commit_baseline
count_partial_commit_baseline-Frame s cycle st = grind sends

pub dispatcher_round3_preprepare-Handles :
    (h : Host) (s : ConnManager) (e : QueueElement) (p : MessageRound3PreprepareBaseline)
    → Round2Ok s
    → Ensures (Handles e s) (dispatcher_round3_preprepare h s e p)
unfolding dispatcher_round3_preprepare
dispatcher_round3_preprepare-Handles h s e p ok =
    Ensures->>=_any (Handles e s) (find_cycle s p.cycle) _ λ st.
      Ensures-if (Handles e s) (is_state round3_waiting_for_preprepare_baseline st) _ _
        (λ _.
          Ensures-debug_throw_else_return (Handles e s) h.debug_failfast
            (st.awaiting_message_type == message_round3_preprepare_baseline) s _
            (refl, inl refl, ok, inl refl)
            λ _.
              Ensures-debug_throw_else_return (Handles e s) h.debug_failfast
                (st.message_received_counter == 0) s _ (refl, inl refl, ok, inl refl)
                λ _. Handles-of_Frames e s _ ok (take_up_proposal-Frame s st p))
        (λ _. (refl, inr refl, ok, inl refl))

pub dispatcher_round3_partial_commit-Handles :
    (h : Host) (s : ConnManager) (e : QueueElement) (p : MessageRound3PartialCommitBaseline)
    → Round2Ok s
    → Ensures (Handles e s) (dispatcher_round3_partial_commit h s e p)
unfolding dispatcher_round3_partial_commit
dispatcher_round3_partial_commit-Handles h s e p ok =
    Ensures-debug_throw_else_return (Handles e s) h.debug_failfast (is_round2_leader s) s _
      (refl, inl refl, ok, inl refl)
      λ _. Ensures->>=_any (Handles e s) (find_cycle s p.cycle) _ λ st.
        Ensures-if (Handles e s) (is_state round3_collector_waiting_for_partialcommits_baseline st)
          _ _
          (λ _.
            Ensures-debug_throw_else_return (Handles e s) h.debug_failfast
              (st.awaiting_message_type == message_round3_partial_commit_baseline) s _
              (refl, inl refl, ok, inl refl)
              λ _. Handles-of_Frames e s _ ok (count_partial_commit_baseline-Frame s p.cycle st))
          (λ _. (refl, inr refl, ok, inl refl))

pub dispatcher_round3_full_commit-Handles :
    (s : ConnManager) (e : QueueElement) (p : MessageRound3FullCommitBaseline)
    → Round2Ok s
    → Ensures (Handles e s) (dispatcher_round3_full_commit s e p)
unfolding dispatcher_round3_full_commit
dispatcher_round3_full_commit-Handles s e p ok =
    Ensures->>=_any (Handles e s) (find_cycle s p.cycle) _ λ st.
      Ensures-if (Handles e s) (is_state round3_waiting_for_fullcommit_baseline st) _ _
        (λ _. Handles-of_Frames e s _ ok (round3_committed-Frame (put_status s p.cycle _) p.cycle))
        (λ _. (refl, inr refl, ok, inl refl))
