-- ===== src/Invariant/Hybrid/Loop.antt =====
-- ConnManager_Hybrid.cpp: the dispatch of a message and a round of the loop of start.
use rcanopus_membership.Message.Wire.{serialize_message, recv_message}
use rcanopus_membership.Prelude.{Sublistᴰ, ◌<◌, ◌≡◌, ◌==◌, refl, ap, [], ◌∷◌, ◌++◌}
use rcanopus_membership.Const.{version_1_0}
use rcanopus_membership.Outcome.{thrown, invalid_version, Ensures, Ensures-if}
use rcanopus_membership.Config.{num_sl}
use rcanopus_membership.Message.{
  Message, MessageKind, message_header, kind_of, preprepare, full_commit, fetch_response,
  kind_preprepare, kind_full_commit, kind_fetch_response,
}
use rcanopus_membership.Manager.{ConnManager, Host, QueueElement}
use rcanopus_membership.Hybrid.Dispatcher.{
  dispatch_hybrid_as, dispatcher_hybrid, process_hybrid_juggled, process_hybrid_element,
}
use rcanopus_membership.Invariant.{setup, Round2Ok}
use rcanopus_membership.Invariant.Dispatch.{dispatch_as-Handles}
use rcanopus_membership.Invariant.Round2.{is_agreement, Handles}
use rcanopus_membership.Invariant.Rounds.{Variant, round-KeepsOrder}
use rcanopus_membership.Invariant.Baseline.Frame.{dispatcher_baseline_fetch_response-Handles}
use rcanopus_membership.Invariant.Hybrid.Preprepare.{dispatcher_hybrid_preprepare-Handles}
use rcanopus_membership.Invariant.Hybrid.Commit.{dispatcher_hybrid_full_commit-Handles}

dispatch_hybrid_as-Handles :
    (h : Host) (s : ConnManager) (e : QueueElement) (kind : MessageKind) (m : Message)
    → e.message ≡ m
    → 0 < num_sl s.config s.config.bg_id
    → Round2Ok s
    → Ensures (Handles e s) (dispatch_hybrid_as h s e kind m)
unfolding dispatch_hybrid_as
dispatch_hybrid_as-Handles h s e kind_preprepare (preprepare p) same pos ok =
    dispatcher_hybrid_preprepare-Handles h s e p (ap is_agreement same) pos ok
dispatch_hybrid_as-Handles h s e kind_full_commit (full_commit p) same pos ok =
    dispatcher_hybrid_full_commit-Handles h s e p ok
dispatch_hybrid_as-Handles h s e kind_fetch_response (fetch_response p) same pos ok =
    dispatcher_baseline_fetch_response-Handles h s e p ok
dispatch_hybrid_as-Handles h s e kind m same pos ok = dispatch_as-Handles h s e kind m same pos ok

pub dispatcher_hybrid-Handles :
    (h : Host) (s : ConnManager) (e : QueueElement)
    → 0 < num_sl s.config s.config.bg_id
    → Round2Ok s
    → Ensures (Handles e s) (dispatcher_hybrid h s e)
unfolding dispatcher_hybrid
dispatcher_hybrid-Handles h s e pos ok =
    Ensures-if (Handles e s) ((message_header e.message).version == version_1_0) _
      (thrown invalid_version)
      (λ _.
        dispatch_hybrid_as-Handles h s e (kind_of (message_header e.message).msg_type) e.message
          refl pos ok)
      (λ _. tt)

abbrev pub hybrid_variant : Variant
unfolding process_hybrid_juggled
hybrid_variant = record {
  dispatch = dispatcher_hybrid;
  serialize = serialize_message;
  recv = recv_message;
  juggled = process_hybrid_juggled;
  dispatch-Handles = dispatcher_hybrid-Handles;
  juggled-zero = λ h s. refl;
  juggled-suc = λ h s n. refl;
}

-- A round of the loop of start of the hybrid variant, on a well-formed node of a group with super
-- leaves, if it returns, keeps the configuration, the verifier, the number of batch counters and the
-- well-formedness of Round 2, and leaves in the juggle queue a part of the messages that it held and
-- the new one, unchanged and in order.
pub process_hybrid_element-keeps_order :
    (h : Host) (s : ConnManager) (e : QueueElement)
    → 0 < num_sl s.config s.config.bg_id
    → Round2Ok s
    → Ensures
        (λ t. (setup t ≡ setup s) × Round2Ok t × Sublistᴰ t.juggle_queue (s.juggle_queue ++ e ∷ []))
        (process_hybrid_element h s e)
unfolding process_hybrid_element
process_hybrid_element-keeps_order = round-KeepsOrder hybrid_variant
