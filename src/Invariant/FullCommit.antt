-- ===== src/Invariant/FullCommit.antt =====
-- A full commit keeps what holds of a node between two messages.
pub mod Handler
use rcanopus_membership.Round3.Connectivity.{envoy_round3_send_fetch_connectivity_request}
use rcanopus_membership.Round3.Membership.{envoy_round3_send_fetch_membership_request}
use rcanopus_membership.Prelude.{
  ℕ, ◌+◌, ◌-◌, ◌≡◌, refl, ◌∙◌, inl, inr, true, false, Option, some, arith, if◌then◌else◌, ◌==◌,
  Option-cases, u16, set,
}
use rcanopus_membership.Outcome.{
  Outcome, done, Ensures, Ensures->>=, Ensures-mono, Ensures-debug_throw, Ensures->>=_any,
  Ensures-if, Ensures-debug_throw_else_return,
}
use rcanopus_membership.Config.{Config, num_bg}
use rcanopus_membership.Message.{
  message_round3_connectivity_response, MessageRound2Preprepare, MessageRound2FullCommit,
  message_round3_fetch_response,
}
use rcanopus_membership.Message.Round3.{get_round3_response, unpack_fetch_response}
use rcanopus_membership.Manager.{
  round3_waiting_for_replicated_connectivity, ConnManager, Host, CycleStatus, CycleState,
  QueueElement, is_none, is_round2_leader, at, is_state, state_code, round2_waiting_for_preprepare,
  round2_waiting_for_fullcommit, round2_committed,
}
use rcanopus_membership.Round2.Leader.{start_round2_if_possible}
use rcanopus_membership.Round3.Envoy.{find_cycle}
use rcanopus_membership.Round3.Pending.{
  respond_to_pending_fetch_connectivity_requests, respond_to_pending_fetch_membership_requests,
}
use rcanopus_membership.Round3.Fetch.{put_status}
use rcanopus_membership.Round3.Membership.Votes.{count_votes}
use rcanopus_membership.FullCommit.{
  commit_stored, exchange_connectivity, exchange_membership, commit_own_cycle, leave_round2,
  enter_round3, skip_cycles, count_fetched_result, commit_from_client, commit_fetched_result,
  commit_local_connectivity, commit_remote_connectivity, commit_local_membership,
  commit_full_membership, commit_by_type, full_commit_in_status, dispatcher_round2_full_commit,
}
use rcanopus_membership.Invariant.{sends, Frame, Frame-refl, Round2Ok, PhaseOk, Holds}
use rcanopus_membership.Invariant.Frame.{
  then_Frame, skip_cycles-Frame, enter_round3-Frame, round3_committed-Frame,
  respond_to_pending_fetch_connectivity_requests-Frame,
  respond_to_pending_fetch_membership_requests-Frame,
  envoy_round3_send_fetch_connectivity_request-Frame,
  envoy_round3_send_fetch_membership_request-Frame,
}
use rcanopus_membership.Invariant.Round2.{
  Keeps, Handles, Keeps-of_Frame, Handles-of_Keeps, start_round2_if_possible-Keeps,
}
use rcanopus_membership.Invariant.Round2.Replica.{phase_of}

-- What follows after Round 2 is left.
Keeps-of_left : (s s' t : ConnManager) → Frame s s' → Frame (leave_round2 s') t → Keeps s t
unfolding leave_round2
Keeps-of_left s s' t f g = (g.0 ∙ f.0, g.1 ∙ f.1, rw (g.2, g.3) refl, g.4 ∙ f.4)

pub left_Keeps :
    (s s' : ConnManager) (m : Outcome ConnManager)
    → Frame s s'
    → Ensures (Frame (leave_round2 s')) m
    → Ensures (Keeps s) m
left_Keeps s s' m f h =
    Ensures-mono (Frame (leave_round2 s')) (Keeps s) m h (λ t g. Keeps-of_left s s' t f g)

commit_own_cycle-Keeps :
    (h : Host) (s : ConnManager) (st : CycleStatus) (p : MessageRound2Preprepare)
    (c : MessageRound2FullCommit)
    → Round2Ok s
    → Ensures (Keeps s) (commit_own_cycle h s st p c)
unfolding commit_own_cycle
commit_own_cycle-Keeps h s st p c ok =
    Ensures->>=_any (Keeps s) (get_round3_response p c (u16 s.config.sl_id) p.cycle) _ λ response.
      Ensures->>=_any (Keeps s) (at st.fetch_response s.config.bg_id) _ λ entry.
        Ensures-debug_throw_else_return (Keeps s) h.debug_failfast (is_none entry) s _
          (refl, refl, ok, refl)
          λ _.
            let st' = record st {
              fetch_response = set st.fetch_response s.config.bg_id (some response);
            } in
            left_Keeps s s (enter_round3 h (leave_round2 s) p.cycle st') (Frame-refl s)
              (enter_round3-Frame h (leave_round2 s) p.cycle st')

commit_from_client-Keeps :
    (h : Host) (s : ConnManager) (st : CycleStatus) (p : MessageRound2Preprepare)
    (c : MessageRound2FullCommit)
    → Round2Ok s
    → Ensures (Keeps s) (commit_from_client h s st p c)
unfolding commit_from_client
commit_from_client-Keeps h s st p c ok =
    let first = u16 (p.lastcycle + 1) in
    Ensures->>= (Frame s) (Keeps s) (skip_cycles h s st p c (p.cycle - first) first)
      (λ s'. commit_own_cycle h s' st p c) (skip_cycles-Frame h s st p c (p.cycle - first) first)
      λ s' f.
        Ensures-mono (Keeps s') (Keeps s) (commit_own_cycle h s' st p c)
          (commit_own_cycle-Keeps h s' st p c (Keeps-of_Frame s s' ok f).2)
          λ t k. (k.0 ∙ f.0, k.1 ∙ f.1, k.2, k.3 ∙ f.4)

exchange_connectivity-Frame :
    (h : Host) (s : ConnManager) (cycle : ℕ) → Ensures (Frame s) (exchange_connectivity h s cycle)
unfolding exchange_connectivity
exchange_connectivity-Frame h s cycle =
    then_Frame s (respond_to_pending_fetch_connectivity_requests s cycle)
      (λ t. envoy_round3_send_fetch_connectivity_request h t cycle)
      (respond_to_pending_fetch_connectivity_requests-Frame s cycle)
      (λ t. envoy_round3_send_fetch_connectivity_request-Frame h t cycle)

exchange_membership-Frame :
    (h : Host) (s : ConnManager) (cycle : ℕ) → Ensures (Frame s) (exchange_membership h s cycle)
unfolding exchange_membership
exchange_membership-Frame h s cycle =
    then_Frame s (respond_to_pending_fetch_membership_requests s cycle)
      (λ t. envoy_round3_send_fetch_membership_request h t cycle)
      (respond_to_pending_fetch_membership_requests-Frame s cycle)
      (λ t. envoy_round3_send_fetch_membership_request-Frame h t cycle)

count_fetched_result-Frame :
    (s : ConnManager) (cycle : ℕ) (st : CycleStatus) → Frame s (count_fetched_result s cycle st)
unfolding count_fetched_result
count_fetched_result-Frame s cycle st = grind sends

pub commit_fetched_result-Keeps :
    (h : Host) (s : ConnManager) (p : MessageRound2Preprepare)
    → Round2Ok s
    → Ensures (Keeps s) (commit_fetched_result h s p)
unfolding commit_fetched_result
commit_fetched_result-Keeps h s p ok = Ensures->>=_any (Keeps s) (find_cycle s p.cycle) _ λ st.
    Ensures->>=_any (Keeps s) (unpack_fetch_response p) _ λ response.
      Ensures->>=_any (Keeps s) (at st.fetch_response p.bg_id) _ λ entry.
        Ensures-debug_throw_else_return (Keeps s) h.debug_failfast (is_none entry) s _
          (refl, refl, ok, refl)
          λ _.
            Ensures-debug_throw (Keeps s) h.debug_failfast
              (st.awaiting_message_type == message_round3_fetch_response) _
              (Keeps-of_left s s
                (count_fetched_result (leave_round2 s) p.cycle
                  (record st { fetch_response = set st.fetch_response p.bg_id (some response) }))
                (Frame-refl s)
                (count_fetched_result-Frame (leave_round2 s) p.cycle
                  (record st { fetch_response = set st.fetch_response p.bg_id (some response) })))

pub commit_local_connectivity-Keeps :
    (h : Host) (s : ConnManager) (p : MessageRound2Preprepare) (c : MessageRound2FullCommit)
    → Round2Ok s
    → Ensures (Keeps s) (commit_local_connectivity h s p c)
unfolding commit_local_connectivity
commit_local_connectivity-Keeps h s p c ok =
    Ensures->>=_any (Keeps s) (find_cycle s p.cycle) _ λ st.
      Ensures->>=_any (Keeps s) (get_round3_response p c _ p.cycle) _ λ made.
        Ensures->>=_any (Keeps s) (at st.connectivity_response s.config.bg_id) _ λ entry.
          Ensures-debug_throw_else_return (Keeps s) h.debug_failfast (is_none entry) s _
            (refl, refl, ok, refl)
            λ _. left_Keeps s s _ (Frame-refl s) (exchange_connectivity-Frame h _ p.cycle)

pub commit_remote_connectivity-Keeps :
    (h : Host) (s : ConnManager) (p : MessageRound2Preprepare)
    → Round2Ok s
    → Ensures (Keeps s) (commit_remote_connectivity h s p)
unfolding commit_remote_connectivity
commit_remote_connectivity-Keeps h s p ok = Ensures-debug_throw (Keeps s) h.debug_failfast false _ (
    Ensures->>=_any (Keeps s) (find_cycle s p.cycle) _ λ st.
      Ensures->>=_any (Keeps s) (unpack_fetch_response p) _ λ made.
        Ensures->>=_any (Keeps s) (at st.fetch_response p.bg_id) _ λ entry.
          Ensures-debug_throw_else_return (Keeps s) h.debug_failfast (is_none entry) s _
            (refl, refl, ok, refl)
            λ _.
              Ensures-debug_throw (Keeps s) h.debug_failfast
                (is_state round3_waiting_for_replicated_connectivity st) _
                (Ensures-debug_throw (Keeps s) h.debug_failfast
                  (st.awaiting_message_type == message_round3_connectivity_response) _
                  (refl, refl, refl, refl)))

pub commit_local_membership-Keeps :
    (h : Host) (s : ConnManager) (p : MessageRound2Preprepare)
    → Round2Ok s
    → Ensures (Keeps s) (commit_local_membership h s p)
unfolding commit_local_membership
commit_local_membership-Keeps h s p ok = Ensures->>=_any (Keeps s) (find_cycle s p.cycle) _ λ st.
    Ensures->>=_any (Keeps s) (at st.membership_response s.config.bg_id) _ λ entry.
      Ensures-debug_throw_else_return (Keeps s) h.debug_failfast (is_none entry) s _
        (refl, refl, ok, refl)
        λ _. left_Keeps s s _ (Frame-refl s) (exchange_membership-Frame h _ p.cycle)

pub commit_full_membership-Keeps :
    (h : Host) (s : ConnManager) (p : MessageRound2Preprepare)
    → Ensures (Keeps s) (commit_full_membership h s p)
unfolding commit_full_membership
commit_full_membership-Keeps h s p = Ensures->>=_any (Keeps s) (find_cycle s p.cycle) _ λ st.
    Ensures->>=_any (Keeps s) (count_votes h.debug_failfast (num_bg s.config) p) _ λ votes.
      left_Keeps s s _ (Frame-refl s)
        (round3_committed-Frame (put_status (leave_round2 s) p.cycle _) p.cycle)

pub commit_by_type-Keeps :
    (h : Host) (s : ConnManager) (st : CycleStatus) (p : MessageRound2Preprepare)
    (c : MessageRound2FullCommit)
    → Round2Ok s
    → Ensures (Keeps s) (commit_by_type h s st p c)
unfolding commit_by_type
commit_by_type-Keeps h s st p c ok =
    Ensures-if (Keeps s) (p.request_type == 0) _ _ (λ _. commit_from_client-Keeps h s st p c ok)
      λ _.
        Ensures-if (Keeps s) (p.request_type == 1) _ _ (λ _. commit_fetched_result-Keeps h s p ok)
          λ _.
            Ensures-if (Keeps s) (p.request_type == 2) _ _
              (λ _. commit_local_connectivity-Keeps h s p c ok)
              λ _.
                Ensures-if (Keeps s) (p.request_type == 3) _ _
                  (λ _. commit_remote_connectivity-Keeps h s p ok)
                  λ _.
                    Ensures-if (Keeps s) (p.request_type == 4) _ _
                      (λ _. commit_local_membership-Keeps h s p ok)
                      λ _.
                        Ensures-if (Keeps s) (p.request_type == 5) _ _
                          (λ _. commit_full_membership-Keeps h s p) λ _. tt
