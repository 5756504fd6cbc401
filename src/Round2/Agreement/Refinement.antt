-- ===== src/Round2/Agreement/Refinement.antt =====
-- ConnManager.cpp: the dispatch of a message of the agreement, beside the abstract machine.
use rcanopus_membership.Prelude.{◌≡◌, ap, ◌==◌, List}
use rcanopus_membership.Outcome.{Ensures, Ensures-if}
use rcanopus_membership.Message.{
  Message, MessageKind, preprepare, partial_commit, message_header, kind_of, kind_preprepare,
  kind_partial_commit,
}
use rcanopus_membership.Manager.{ConnManager, Host, QueueElement, Peer}
use rcanopus_membership.Dispatcher.{dispatch_as, dispatcher_round2}
use rcanopus_membership.Invariant.{Round2Ok}
use rcanopus_membership.Round2.Agreement.{phase, Event, proposal, vote, Steps}
use rcanopus_membership.Round2.Agreement.Handlers.{
  dispatcher_round2_preprepare-Steps, dispatcher_round2_partial_commit-Steps,
}

-- The message is a preprepare or partial commit, with the type of its struct, and this event.
abbrev pub IsFor : Message → Event → Type 0
IsFor (preprepare p) event =
    (p.header.msg_type ≡ 3) × (event ≡ proposal p.view p.seq p.collector_sl_id)
IsFor (partial_commit p) event = (p.header.msg_type ≡ 4) × (event ≡ vote p.view p.seq)
IsFor _ event = ⊥

by_kind-Ensures :
    (h : Host) (s : ConnManager) (e : QueueElement) (kind : MessageKind) (P : ConnManager → Type 0)
    → kind_of (message_header e.message).msg_type ≡ kind
    → Ensures P (dispatch_as h s e kind e.message)
    → Ensures P (dispatcher_round2 h s e)
unfolding dispatcher_round2
by_kind-Ensures h s e kind P type r =
    Ensures-if P ((message_header e.message).version == 1) _ _ (λ _. rw type r) (λ _. tt)

message-Steps :
    (h : Host) (s : ConnManager) (up_peers : List Peer) (m : Message) (event : Event)
    → Round2Ok s
    → IsFor m event
    → Ensures
        (Steps s.config event (phase s) s.send_queue)
        (dispatcher_round2 h s (record { up_peers = up_peers; message = m }))
unfolding message_header dispatch_as kind_of
message-Steps h s up_peers (preprepare p) event ok (type, same) = rw same (
    by_kind-Ensures h s _ kind_preprepare _ (ap kind_of type)
      (dispatcher_round2_preprepare-Steps h s _ p ok))
message-Steps h s up_peers (partial_commit p) event ok (type, same) = rw same (
    by_kind-Ensures h s _ kind_partial_commit _ (ap kind_of type)
      (dispatcher_round2_partial_commit-Steps h s _ p ok))
message-Steps h s up_peers _ event ok for = absurd for

-- On a well-formed node the dispatch of a preprepare or partial commit, if it returns, does a step of
-- the abstract machine, sends what the step sends behind what was in the send queue, and keeps the
-- configuration.
pub dispatcher_round2-Steps :
    (h : Host) (s : ConnManager) (e : QueueElement) (event : Event)
    → Round2Ok s
    → IsFor e.message event
    → Ensures (Steps s.config event (phase s) s.send_queue) (dispatcher_round2 h s e)
dispatcher_round2-Steps h s e = message-Steps h s e.up_peers e.message
