-- ===== src/Invariant/Dispatch.antt =====
-- The dispatch of a message keeps what holds of a node between two messages.
use rcanopus_membership.Const.{version_1_0}
use rcanopus_membership.Message.{
  request, preprepare, partial_commit, full_commit, fetch_request, fetch_response, general_fetch,
  full_membership, kind_request, kind_preprepare, kind_partial_commit, kind_full_commit,
  kind_fetch_request, kind_fetch_response, kind_general_fetch, kind_connectivity_response,
  kind_membership_response, kind_empty, Message, MessageRound3FetchResponse,
  MessageRound3GeneralFetch, MessageRound3FullMembership, message_header, MessageKind, kind_of,
  message_round3_connectivity_response, message_round3_membership_response,
}
use rcanopus_membership.Prelude.{
  ◌+◌, ◌<◌, ◌≡◌, ap, false, refl, ◌∙◌, inl, inr, some, ◌==◌, not, u16, set,
}
use rcanopus_membership.Outcome.{
  invalid_version, Outcome, thrown, Ensures, Ensures->>=, Ensures-mono, Ensures-debug_throw,
  Ensures->>=_any, Ensures-if, Ensures-debug_throw_else_return,
}
use rcanopus_membership.Config.{num_sl}
use rcanopus_membership.Message.Round3.{pack_fetch_response}
use rcanopus_membership.Manager.{
  ConnManager, Host, CycleStatus, QueueElement, is_none, is_round2_leader, at, is_state,
  round3_waiting_for_replicated_membership,
}
use rcanopus_membership.Round2.Leader.{start_round2_if_possible}
use rcanopus_membership.Round3.Envoy.{find_cycle}
use rcanopus_membership.Round3.Fetch.{
  dispatcher_round3_fetch_request, forward_to_leader, push_pending_preprepare,
  dispatcher_round3_fetch_response,
}
use rcanopus_membership.Round3.Connectivity.{
  dispatcher_round3_fetch_connectivity_request, dispatcher_round3_fetch_connectivity_response,
  store_connectivity_response,
}
use rcanopus_membership.Round3.Membership.{
  store_membership_response, full_membership_preprepare,
  dispatcher_round3_fetch_membership_response,
}
use rcanopus_membership.Dispatcher.{
  dispatcher_round3_general_fetch_request, dispatch_as, dispatcher_round2,
}
use rcanopus_membership.Invariant.{is_ballot, sends, Frame, Frame-refl, Round2Ok}
use rcanopus_membership.Invariant.Frame.{
  forward_to_leader-Frame, dispatcher_round3_fetch_request-Frame, store_connectivity_response-Frame,
  dispatcher_round3_fetch_membership_request-Frame,
}
use rcanopus_membership.Invariant.Round2.{
  is_agreement, Keeps, Handles, Keeps-of_Frame, Handles-of_Keeps, start_round2_if_possible-Keeps,
  dispatcher_round2_request-Handles,
}
use rcanopus_membership.Invariant.Round2.Replica.{
  dispatcher_round2_preprepare-Handles, dispatcher_round2_partial_commit-Handles,
}
use rcanopus_membership.Invariant.FullCommit.Handler.{dispatcher_round2_full_commit-Handles}

pub Handles-of_Frames :
    (e : QueueElement) (s : ConnManager) (m : Outcome ConnManager)
    → Round2Ok s
    → Ensures (Frame s) m
    → Ensures (Handles e s) m
Handles-of_Frames e s m ok h =
    Ensures-mono (Frame s) (Handles e s) m h λ t f. Handles-of_Keeps e s t (Keeps-of_Frame s t ok f)

-- A proposal is queued, and Round 2 starts if it can.
pub push_and_start-Handles :
    (h : Host) (e : QueueElement) (s s' : ConnManager)
    → Round2Ok s
    → Frame s s'
    → Ensures (Handles e s) (start_round2_if_possible h s')
push_and_start-Handles h e s s' ok f =
    Ensures-mono (Keeps s') (Handles e s) (start_round2_if_possible h s')
      (start_round2_if_possible-Keeps h s' (Keeps-of_Frame s s' ok f).2)
      λ t k. (k.0 ∙ f.0, inl (k.1 ∙ f.1), k.2, inl (k.3 ∙ f.4))

dispatcher_round3_fetch_response-Handles :
    (h : Host) (s : ConnManager) (e : QueueElement) (p : MessageRound3FetchResponse)
    → is_ballot e.message ≡ false
    → Round2Ok s
    → Ensures (Handles e s) (dispatcher_round3_fetch_response h s e p)
unfolding dispatcher_round3_fetch_response
dispatcher_round3_fetch_response-Handles h s e p other ok =
    Ensures-if (Handles e s) (is_round2_leader s) _ _
      (λ _. Ensures->>=_any (Handles e s) (pack_fetch_response (u16 s.config.sl_id) p) _ λ packed.
        push_and_start-Handles h e s (push_pending_preprepare s packed) ok
          (refl, refl, refl, refl, refl))
      (λ _. Handles-of_Frames e s (forward_to_leader s e) ok (forward_to_leader-Frame s e other))

dispatcher_round3_fetch_connectivity_response-Handles :
    (h : Host) (s : ConnManager) (e : QueueElement) (p : MessageRound3FetchResponse)
    → is_ballot e.message ≡ false
    → Round2Ok s
    → Ensures (Handles e s) (dispatcher_round3_fetch_connectivity_response h s e p)
unfolding dispatcher_round3_fetch_connectivity_response
dispatcher_round3_fetch_connectivity_response-Handles h s e p other ok =
    Ensures-if (Handles e s) (is_round2_leader s) _ _
      (λ _. Ensures->>=_any (Handles e s) (find_cycle s p.cycle) _ λ st.
        Ensures-if (Handles e s)
          (not (st.awaiting_message_type == message_round3_connectivity_response)) _ _
          (λ _. (refl, inr refl, ok, inl refl))
          (λ _.
            Ensures->>= (Frame s) (Handles e s) (store_connectivity_response s st p)
              (λ s'. start_round2_if_possible h s') (store_connectivity_response-Frame s st p)
              λ s' f. push_and_start-Handles h e s s' ok f))
      (λ _. Handles-of_Frames e s (forward_to_leader s e) ok (forward_to_leader-Frame s e other))

store_membership_response-Handles :
    (h : Host) (s : ConnManager) (st : CycleStatus) (e : QueueElement)
    (p : MessageRound3FullMembership)
    → Round2Ok s
    → Ensures (Handles e s) (store_membership_response h s st p)
unfolding store_membership_response
store_membership_response-Handles h s st e p ok =
    Ensures->>=_any (Handles e s) (at st.membership_response p.sender_bg_id) _ λ entry.
      Ensures-debug_throw_else_return (Handles e s) h.debug_failfast (is_none entry) s _
        (refl, inl refl, ok, inl refl)
        λ _.
          Ensures-debug_throw (Handles e s) h.debug_failfast
            (st.awaiting_message_type == message_round3_membership_response) _
            (Ensures-if (Handles e s) (st.message_received_counter + 1 == st.message_required) _ _
              (λ _.
                Ensures->>=_any (Handles e s)
                  (full_membership_preprepare s.config p.cycle
                    (set st.membership_response p.sender_bg_id (some p)))
                  _ λ q. push_and_start-Handles h e s _ ok (refl, refl, refl, refl, refl))
              (λ _. (refl, inl refl, ok, inl refl)))

dispatcher_round3_fetch_membership_response-Handles :
    (h : Host) (s : ConnManager) (e : QueueElement) (p : MessageRound3FullMembership)
    → is_ballot e.message ≡ false
    → Round2Ok s
    → Ensures (Handles e s) (dispatcher_round3_fetch_membership_response h s e p)
unfolding dispatcher_round3_fetch_membership_response
dispatcher_round3_fetch_membership_response-Handles h s e p other ok =
    Ensures-if (Handles e s) (is_round2_leader s) _ _
      (λ _. Ensures->>=_any (Handles e s) (find_cycle s p.cycle) _ λ st.
        Ensures-if (Handles e s) (not (is_state round3_waiting_for_replicated_membership st)) _ _
          (λ _. (refl, inr refl, ok, inl refl))
          (λ _. store_membership_response-Handles h s st e p ok))
      (λ _. Handles-of_Frames e s (forward_to_leader s e) ok (forward_to_leader-Frame s e other))

dispatcher_round3_fetch_connectivity_request-Handles :
    (s : ConnManager) (e : QueueElement) (p : MessageRound3GeneralFetch)
    → Round2Ok s
    → Ensures (Handles e s) (dispatcher_round3_fetch_connectivity_request s e p)
unfolding dispatcher_round3_fetch_connectivity_request
dispatcher_round3_fetch_connectivity_request-Handles s e p ok = grind sends

dispatcher_round3_general_fetch_request-Handles :
    (h : Host) (s : ConnManager) (e : QueueElement) (p : MessageRound3GeneralFetch)
    → Round2Ok s
    → Ensures (Handles e s) (dispatcher_round3_general_fetch_request h s e p)
unfolding dispatcher_round3_general_fetch_request
dispatcher_round3_general_fetch_request-Handles h s e p ok =
    Ensures-if (Handles e s) (p.msg_type_demanded == message_round3_connectivity_response) _ _
      (λ _. dispatcher_round3_fetch_connectivity_request-Handles s e p ok)
      λ _.
        Ensures-if (Handles e s) (p.msg_type_demanded == message_round3_membership_response) _ _
          (λ _. Handles-of_Frames e s _ ok (dispatcher_round3_fetch_membership_request-Frame h s p))
          (λ _. tt)

pub dispatch_as-Handles :
    (h : Host) (s : ConnManager) (e : QueueElement) (kind : MessageKind) (m : Message)
    → e.message ≡ m
    → 0 < num_sl s.config s.config.bg_id
    → Round2Ok s
    → Ensures (Handles e s) (dispatch_as h s e kind m)
unfolding dispatch_as
dispatch_as-Handles h s e kind_empty m same pos ok =
    Ensures-debug_throw (Handles e s) h.debug_failfast (is_round2_leader s)
      (start_round2_if_possible h s) (push_and_start-Handles h e s s ok (Frame-refl s))
dispatch_as-Handles h s e kind_request (request p) same pos ok =
    dispatcher_round2_request-Handles h s e p (ap is_ballot same) ok
dispatch_as-Handles h s e kind_preprepare (preprepare p) same pos ok =
    dispatcher_round2_preprepare-Handles h s e p (ap is_agreement same) pos ok
dispatch_as-Handles h s e kind_partial_commit (partial_commit p) same pos ok =
    dispatcher_round2_partial_commit-Handles h s e p (ap is_agreement same) ok
dispatch_as-Handles h s e kind_full_commit (full_commit p) same pos ok =
    dispatcher_round2_full_commit-Handles h s e p ok
dispatch_as-Handles h s e kind_fetch_request (fetch_request p) same pos ok =
    Handles-of_Frames e s (dispatcher_round3_fetch_request h s p) ok
      (dispatcher_round3_fetch_request-Frame h s p)
dispatch_as-Handles h s e kind_fetch_response (fetch_response p) same pos ok =
    dispatcher_round3_fetch_response-Handles h s e p (ap is_ballot same) ok
dispatch_as-Handles h s e kind_general_fetch (general_fetch p) same pos ok =
    dispatcher_round3_general_fetch_request-Handles h s e p ok
dispatch_as-Handles h s e kind_connectivity_response (fetch_response p) same pos ok =
    dispatcher_round3_fetch_connectivity_response-Handles h s e p (ap is_ballot same) ok
dispatch_as-Handles h s e kind_membership_response (full_membership p) same pos ok =
    dispatcher_round3_fetch_membership_response-Handles h s e p (ap is_ballot same) ok
dispatch_as-Handles h s e _ _ same pos ok = tt

-- A node of a group with super leaves that is well formed between two messages dispatches a message,
-- of any type and from any sender. If the call returns, the node has the same configuration, verifier
-- and number of batch counters and is well formed again, the message is either used up, with the
-- juggle queue as it was, or put back unchanged at the end of the juggle queue, and the partial and
-- full commits in the send queue are as before unless the message is a preprepare or partial commit.
pub dispatcher_round2-Handles :
    (h : Host) (s : ConnManager) (e : QueueElement)
    → 0 < num_sl s.config s.config.bg_id
    → Round2Ok s
    → Ensures (Handles e s) (dispatcher_round2 h s e)
unfolding dispatcher_round2
dispatcher_round2-Handles h s e pos ok =
    Ensures-if (Handles e s) ((message_header e.message).version == version_1_0) _
      (thrown invalid_version)
      (λ _.
        dispatch_as-Handles h s e (kind_of (message_header e.message).msg_type) e.message refl pos
          ok)
      (λ _. tt)
