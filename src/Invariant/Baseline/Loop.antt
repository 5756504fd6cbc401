-- ===== src/Invariant/Baseline/Loop.antt =====
-- ConnManager_Baseline.cpp: the dispatch of a message and a round of the loop of start.
use rcanopus_membership.Prelude.{Sublistᴰ, ◌<◌, ◌≡◌, ◌==◌, refl, ap, [], ◌∷◌, ◌++◌}
use rcanopus_membership.Const.{version_1_0}
use rcanopus_membership.Outcome.{thrown, invalid_version, Ensures, Ensures-debug_throw, Ensures-if}
use rcanopus_membership.Config.{num_sl}
use rcanopus_membership.Message.{
  Message, message_header, request, preprepare, partial_commit, full_commit, fetch_request,
  fetch_response, preprepare_baseline, partial_commit_baseline, full_commit_baseline, kind_request,
  kind_preprepare, kind_partial_commit, kind_full_commit, kind_fetch_request, kind_fetch_response,
  kind_empty,
}
use rcanopus_membership.Message.Wire.Baseline.{
  serialize_baseline_message, recv_baseline_message, BaselineKind, baseline_kind_of, kind_common,
  kind_preprepare_baseline, kind_partial_commit_baseline, kind_full_commit_baseline,
}
use rcanopus_membership.Manager.{ConnManager, Host, QueueElement, is_round2_leader}
use rcanopus_membership.Round2.Leader.{start_round2_if_possible}
use rcanopus_membership.Baseline.Fetch.{dispatcher_baseline_fetch_request}
use rcanopus_membership.Baseline.Dispatcher.{
  dispatch_baseline_as, dispatcher_baseline, process_baseline_juggled, process_baseline_element,
}
use rcanopus_membership.Invariant.{is_ballot, setup, Frame-refl, Round2Ok}
use rcanopus_membership.Invariant.Round2.{is_agreement, Handles, dispatcher_round2_request-Handles}
use rcanopus_membership.Invariant.Round2.Replica.{
  dispatcher_round2_preprepare-Handles, dispatcher_round2_partial_commit-Handles,
}
use rcanopus_membership.Invariant.Dispatch.{Handles-of_Frames, push_and_start-Handles}
use rcanopus_membership.Invariant.Rounds.{Variant, round-KeepsOrder}
use rcanopus_membership.Invariant.Baseline.Frame.{
  dispatcher_baseline_fetch_request-Frame, dispatcher_baseline_fetch_response-Handles,
  dispatcher_round3_preprepare-Handles, dispatcher_round3_partial_commit-Handles,
  dispatcher_round3_full_commit-Handles,
}
use rcanopus_membership.Invariant.Baseline.Commit.{dispatcher_baseline_full_commit-Handles}

dispatch_baseline_as-Handles :
    (h : Host) (s : ConnManager) (e : QueueElement) (kind : BaselineKind) (m : Message)
    → e.message ≡ m
    → 0 < num_sl s.config s.config.bg_id
    → Round2Ok s
    → Ensures (Handles e s) (dispatch_baseline_as h s e kind m)
unfolding dispatch_baseline_as
dispatch_baseline_as-Handles h s e (kind_common kind_empty) m same pos ok =
    Ensures-debug_throw (Handles e s) h.debug_failfast (is_round2_leader s)
      (start_round2_if_possible h s) (push_and_start-Handles h e s s ok (Frame-refl s))
dispatch_baseline_as-Handles h s e (kind_common kind_request) (request p) same pos ok =
    dispatcher_round2_request-Handles h s e p (ap is_ballot same) ok
dispatch_baseline_as-Handles h s e (kind_common kind_preprepare) (preprepare p) same pos ok =
    dispatcher_round2_preprepare-Handles h s e p (ap is_agreement same) pos ok
dispatch_baseline_as-Handles h s e (kind_common kind_partial_commit) (partial_commit p) same pos
      ok =
    dispatcher_round2_partial_commit-Handles h s e p (ap is_agreement same) ok
dispatch_baseline_as-Handles h s e (kind_common kind_full_commit) (full_commit p) same pos ok =
    dispatcher_baseline_full_commit-Handles h s e p ok
dispatch_baseline_as-Handles h s e (kind_common kind_fetch_request) (fetch_request p) same pos ok =
    Handles-of_Frames e s (dispatcher_baseline_fetch_request s p) ok
      (dispatcher_baseline_fetch_request-Frame s p)
dispatch_baseline_as-Handles h s e (kind_common kind_fetch_response) (fetch_response p) same pos
      ok =
    dispatcher_baseline_fetch_response-Handles h s e p ok
dispatch_baseline_as-Handles h s e kind_preprepare_baseline (preprepare_baseline p) same pos ok =
    dispatcher_round3_preprepare-Handles h s e p ok
dispatch_baseline_as-Handles h s e kind_partial_commit_baseline (partial_commit_baseline p) same pos
      ok =
    dispatcher_round3_partial_commit-Handles h s e p ok
dispatch_baseline_as-Handles h s e kind_full_commit_baseline (full_commit_baseline p) same pos ok =
    dispatcher_round3_full_commit-Handles s e p ok
dispatch_baseline_as-Handles h s e _ _ same pos ok = tt

pub dispatcher_baseline-Handles :
    (h : Host) (s : ConnManager) (e : QueueElement)
    → 0 < num_sl s.config s.config.bg_id
    → Round2Ok s
    → Ensures (Handles e s) (dispatcher_baseline h s e)
unfolding dispatcher_baseline
dispatcher_baseline-Handles h s e pos ok =
    Ensures-if (Handles e s) ((message_header e.message).version == version_1_0) _
      (thrown invalid_version)
      (λ _.
        dispatch_baseline_as-Handles h s e (baseline_kind_of (message_header e.message).msg_type)
          e.message refl pos ok)
      (λ _. tt)

abbrev pub baseline_variant : Variant
unfolding process_baseline_juggled
baseline_variant = record {
  dispatch = dispatcher_baseline;
  serialize = serialize_baseline_message;
  recv = recv_baseline_message;
  juggled = process_baseline_juggled;
  dispatch-Handles = dispatcher_baseline-Handles;
  juggled-zero = λ h s. refl;
  juggled-suc = λ h s n. refl;
}

-- A round of the loop of start of the baseline, on a well-formed node of a group with super leaves, if
-- it returns, keeps the configuration, the verifier, the number of batch counters and the
-- well-formedness of Round 2, and leaves in the juggle queue a part of the messages that it held and
-- the new one, unchanged and in order.
pub process_baseline_element-keeps_order :
    (h : Host) (s : ConnManager) (e : QueueElement)
    → 0 < num_sl s.config s.config.bg_id
    → Round2Ok s
    → Ensures
        (λ t. (setup t ≡ setup s) × Round2Ok t × Sublistᴰ t.juggle_queue (s.juggle_queue ++ e ∷ []))
        (process_baseline_element h s e)
unfolding process_baseline_element
process_baseline_element-keeps_order = round-KeepsOrder baseline_variant
