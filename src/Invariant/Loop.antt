-- ===== src/Invariant/Loop.antt =====
-- ConnManager.cpp: a round of the loop of start keeps what holds of a node between two messages, and
-- the order of the juggled messages.
use rcanopus_membership.Message.Wire.{serialize_message, recv_message}
use rcanopus_membership.Prelude.{Sublistᴰ, ◌<◌, ◌≡◌, refl, [], ◌∷◌, ◌++◌}
use rcanopus_membership.Outcome.{Ensures}
use rcanopus_membership.Config.{num_sl}
use rcanopus_membership.Manager.{ConnManager, Host, QueueElement}
use rcanopus_membership.Dispatcher.{dispatcher_round2, process_juggled, process_element}
use rcanopus_membership.Invariant.{setup, Round2Ok}
use rcanopus_membership.Invariant.Dispatch.{dispatcher_round2-Handles}
use rcanopus_membership.Invariant.Rounds.{Variant, round-KeepsOrder}

unfoldable pub membership_variant : Variant
unfolding process_juggled
membership_variant = record {
  dispatch = dispatcher_round2;
  serialize = serialize_message;
  recv = recv_message;
  juggled = process_juggled;
  dispatch-Handles = dispatcher_round2-Handles;
  juggled-zero = λ h s. refl;
  juggled-suc = λ h s n. refl;
}

-- A round of the loop of start, on a well-formed node of a group with super leaves, with a message
-- from the queue: the message is dispatched and then every message that is in the juggle queue is
-- dispatched once. If the round returns, the configuration, the verifier and
-- the number of batch counters are as before, the node is well formed, and
-- the juggle queue holds a part of the messages that it held before and the new one, each as it was
-- and in the same order: none is invented, doubled or changed, and none overtakes another.
pub process_element-keeps_order :
    (h : Host) (s : ConnManager) (e : QueueElement)
    → 0 < num_sl s.config s.config.bg_id
    → Round2Ok s
    → Ensures
        (λ t. (setup t ≡ setup s) × Round2Ok t × Sublistᴰ t.juggle_queue (s.juggle_queue ++ e ∷ []))
        (process_element h s e)
unfolding process_element membership_variant
process_element-keeps_order = round-KeepsOrder membership_variant
