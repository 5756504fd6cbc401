-- ===== src/Invariant/Frame.antt =====
-- The calls of Round 3 leave Round 2 and the juggle queue alone.
use rcanopus_membership.Prelude.{ℕ, zero, suc, u16, ◌+◌, ◌≡◌, false, refl, ◌==◌}
use rcanopus_membership.Outcome.{
  Outcome, ◌>>=◌, Ensures, Ensures->>=, Ensures-debug_throw, Ensures->>=_any, Ensures-if,
  Ensures-mono,
}
use rcanopus_membership.Message.{
  MessageRound2Preprepare, MessageRound2FullCommit, MessageRound3FetchRequest,
  MessageRound3FetchResponse, MessageRound3GeneralFetch,
}
use rcanopus_membership.Manager.{
  connection, round2_committed, is_state, ConnManager, Host, CycleStatus, QueueElement,
}
use rcanopus_membership.Round3.Pending.{
  respond_to_pending_fetch_requests, respond_to_pending_fetch_connectivity_requests,
  respond_to_pending_fetch_membership_requests,
}
use rcanopus_membership.Round3.Envoy.{
  is_primary_envoy_round3, is_backup_envoy_round3, find_cycle, round3_committed,
}
use rcanopus_membership.Round3.Fetch.{
  envoy_round3_send_fetch_request, fetch_from_others, send_fetch_request, put_status,
  forward_to_leader, dispatcher_round3_fetch_request,
}
use rcanopus_membership.Round3.Connectivity.{
  envoy_round3_send_fetch_connectivity_request, store_connectivity_response,
}
use rcanopus_membership.Round3.Membership.{
  envoy_round3_send_fetch_membership_request, dispatcher_round3_fetch_membership_request,
}
use rcanopus_membership.FullCommit.{enter_round3, skip_cycle, skip_cycles}
use rcanopus_membership.Config.{num_bg}
use rcanopus_membership.Message.Image.{memcpy}
use rcanopus_membership.Message.Round3.{get_round3_response}
use rcanopus_membership.Invariant.{
  is_ballot, ballots-send_other, sends, Frame, Frame-refl, Frame-trans,
}

pub then_Frame :
    (s : ConnManager) (m : Outcome ConnManager) (f : ConnManager → Outcome ConnManager)
    → Ensures (Frame s) m
    → ((t : ConnManager) → Ensures (Frame t) (f t))
    → Ensures (Frame s) (m >>= f)
then_Frame s m f h k =
    Ensures->>= (Frame s) (Frame s) m f h
      λ t st. Ensures-mono (Frame t) (Frame s) (f t) (k t) λ u tu. Frame-trans s t u st tu

pub respond_to_pending_fetch_requests-Frame :
    (s : ConnManager) (cycle : ℕ) → Ensures (Frame s) (respond_to_pending_fetch_requests s cycle)
unfolding respond_to_pending_fetch_requests
respond_to_pending_fetch_requests-Frame s cycle = grind sends

pub respond_to_pending_fetch_connectivity_requests-Frame :
    (s : ConnManager) (cycle : ℕ)
    → Ensures (Frame s) (respond_to_pending_fetch_connectivity_requests s cycle)
unfolding respond_to_pending_fetch_connectivity_requests
respond_to_pending_fetch_connectivity_requests-Frame s cycle = grind sends

pub respond_to_pending_fetch_membership_requests-Frame :
    (s : ConnManager) (cycle : ℕ)
    → Ensures (Frame s) (respond_to_pending_fetch_membership_requests s cycle)
unfolding respond_to_pending_fetch_membership_requests
respond_to_pending_fetch_membership_requests-Frame s cycle = grind sends

pub round3_committed-Frame :
    (s : ConnManager) (cycle : ℕ) → Ensures (Frame s) (round3_committed s cycle)
unfolding round3_committed
round3_committed-Frame s cycle = grind sends

pub send_fetch_request-Frame :
    (h : Host) (s : ConnManager) (st : CycleStatus) → Ensures (Frame s) (send_fetch_request h s st)
unfolding send_fetch_request
send_fetch_request-Frame h s st = grind sends

fetch_from_others-Frame :
    (h : Host) (s : ConnManager) (cycle : ℕ) (st : CycleStatus)
    → Ensures (Frame s) (fetch_from_others h s cycle st)
unfolding fetch_from_others
fetch_from_others-Frame h s cycle st =
    Ensures-if (Frame s) (num_bg s.config == 1) _ _
      (λ _. round3_committed-Frame (put_status s cycle _) cycle)
      (λ _.
        Ensures->>=_any (Frame s) (is_primary_envoy_round3 (put_status s cycle _) cycle) _
          λ primary.
            Ensures-if (Frame s) primary _ _
              (λ _. send_fetch_request-Frame h (put_status s cycle _) _)
              (λ _.
                Ensures->>=_any (Frame s) (is_backup_envoy_round3 (put_status s cycle _) cycle) _
                  λ backup. (refl, refl, refl, refl, refl)))

pub envoy_round3_send_fetch_request-Frame :
    (h : Host) (s : ConnManager) (cycle : ℕ)
    → Ensures (Frame s) (envoy_round3_send_fetch_request h s cycle)
unfolding envoy_round3_send_fetch_request
envoy_round3_send_fetch_request-Frame h s cycle =
    Ensures->>=_any (Frame s) (find_cycle s cycle) _ λ st.
      Ensures-if (Frame s) (is_state round2_committed st) _ _
        (λ _. fetch_from_others-Frame h s cycle st) (λ _. tt)

pub envoy_round3_send_fetch_connectivity_request-Frame :
    (h : Host) (s : ConnManager) (cycle : ℕ)
    → Ensures (Frame s) (envoy_round3_send_fetch_connectivity_request h s cycle)
unfolding envoy_round3_send_fetch_connectivity_request
envoy_round3_send_fetch_connectivity_request-Frame h s cycle = grind sends

pub envoy_round3_send_fetch_membership_request-Frame :
    (h : Host) (s : ConnManager) (cycle : ℕ)
    → Ensures (Frame s) (envoy_round3_send_fetch_membership_request h s cycle)
unfolding envoy_round3_send_fetch_membership_request
envoy_round3_send_fetch_membership_request-Frame h s cycle = grind sends

pub enter_round3-Frame :
    (h : Host) (s : ConnManager) (cycle : ℕ) (st : CycleStatus)
    → Ensures (Frame s) (enter_round3 h s cycle st)
unfolding enter_round3
enter_round3-Frame h s cycle st = Ensures-debug_throw (Frame s) h.debug_failfast _ _ (
    then_Frame s _ _ (respond_to_pending_fetch_requests-Frame (put_status s cycle st) cycle)
      (λ t. envoy_round3_send_fetch_request-Frame h t cycle))

pub forward_to_leader-Frame :
    (s : ConnManager) (e : QueueElement)
    → is_ballot e.message ≡ false
    → Ensures (Frame s) (forward_to_leader s e)
unfolding forward_to_leader
forward_to_leader-Frame s e other =
    Ensures->>=_any (Frame s) (connection s.config s.config.bg_id 0) _
      λ recipient. (refl, refl, refl, refl, ballots-send_other s.send_queue _ other)

pub dispatcher_round3_fetch_request-Frame :
    (h : Host) (s : ConnManager) (p : MessageRound3FetchRequest)
    → Ensures (Frame s) (dispatcher_round3_fetch_request h s p)
unfolding dispatcher_round3_fetch_request
dispatcher_round3_fetch_request-Frame h s p = grind sends

pub store_connectivity_response-Frame :
    (s : ConnManager) (st : CycleStatus) (p : MessageRound3FetchResponse)
    → Ensures (Frame s) (store_connectivity_response s st p)
unfolding store_connectivity_response
store_connectivity_response-Frame s st p = grind sends

pub dispatcher_round3_fetch_membership_request-Frame :
    (h : Host) (s : ConnManager) (p : MessageRound3GeneralFetch)
    → Ensures (Frame s) (dispatcher_round3_fetch_membership_request h s p)
unfolding dispatcher_round3_fetch_membership_request
dispatcher_round3_fetch_membership_request-Frame h s p = grind sends

skip_cycle-Frame :
    (h : Host) (s : ConnManager) (st : CycleStatus) (p : MessageRound2Preprepare)
    (c : MessageRound2FullCommit) (cycle : ℕ)
    → Ensures (Frame s) (skip_cycle h s st p c cycle)
unfolding skip_cycle
skip_cycle-Frame h s st p c cycle = Ensures-debug_throw (Frame s) h.debug_failfast false _ (
    Ensures->>=_any (Frame s) (memcpy _ _) _ λ content.
      Ensures->>=_any (Frame s) (get_round3_response _ c _ cycle) _
        λ response. enter_round3-Frame h s cycle _)

pub skip_cycles-Frame :
    (h : Host) (s : ConnManager) (st : CycleStatus) (p : MessageRound2Preprepare)
    (c : MessageRound2FullCommit) (n cycle : ℕ)
    → Ensures (Frame s) (skip_cycles h s st p c n cycle)
unfolding skip_cycles
skip_cycles-Frame h s st p c zero cycle = Frame-refl s
skip_cycles-Frame h s st p c (suc n) cycle =
    then_Frame s (skip_cycle h s st p c cycle) _ (skip_cycle-Frame h s st p c cycle)
      (λ t. skip_cycles-Frame h t st p c n (u16 (cycle + 1)))
