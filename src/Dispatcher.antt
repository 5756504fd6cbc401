-- ===== src/Dispatcher.antt =====
-- ConnManager.cpp: the dispatch of a message by its type, and one round of the loop of start.
use rcanopus_membership.Prelude.{ℕ, zero, suc, ◌==◌, if◌then◌else◌, [], ◌∷◌, length}
use rcanopus_membership.Const.{version_1_0}
use rcanopus_membership.Outcome.{
  Outcome, done, thrown, undefined, invalid_version, invalid_type, ◌>>=◌, ◌>>◌, debug_throw,
}
use rcanopus_membership.Message.{
  Message, MessageRound3GeneralFetch, request, preprepare, partial_commit, full_commit,
  fetch_request, fetch_response, general_fetch, full_membership, message_header, MessageKind,
  kind_of, kind_hello, kind_request, kind_preprepare, kind_partial_commit, kind_full_commit,
  kind_fetch_request, kind_fetch_response, kind_general_fetch, kind_connectivity_response,
  kind_membership_response, kind_empty, kind_other, message_round3_connectivity_response,
  message_round3_membership_response,
}
use rcanopus_membership.Manager.{ConnManager, Host, QueueElement, is_round2_leader}
use rcanopus_membership.Round2.Leader.{start_round2_if_possible, dispatcher_round2_request}
use rcanopus_membership.Round2.Replica.{
  dispatcher_round2_preprepare, dispatcher_round2_partial_commit,
}
use rcanopus_membership.FullCommit.{dispatcher_round2_full_commit}
use rcanopus_membership.Round3.Fetch.{
  dispatcher_round3_fetch_request, dispatcher_round3_fetch_response,
}
use rcanopus_membership.Round3.Connectivity.{
  dispatcher_round3_fetch_connectivity_request, dispatcher_round3_fetch_connectivity_response,
}
use rcanopus_membership.Round3.Membership.{
  dispatcher_round3_fetch_membership_request, dispatcher_round3_fetch_membership_response,
}

unfoldable pub dispatcher_round3_general_fetch_request :
    Host → ConnManager → QueueElement → MessageRound3GeneralFetch → Outcome ConnManager
dispatcher_round3_general_fetch_request h s e p =
    if p.msg_type_demanded == message_round3_connectivity_response
    then dispatcher_round3_fetch_connectivity_request s e p
    else if p.msg_type_demanded == message_round3_membership_response
    then dispatcher_round3_fetch_membership_request h s p
    else thrown invalid_type

-- The switch of dispatcher_round2: the cast must fit the buffer. A hello has no case of its own.
unfoldable pub dispatch_as :
    Host → ConnManager → QueueElement → MessageKind → Message → Outcome ConnManager
unfolding dispatcher_round3_general_fetch_request
dispatch_as h s e kind_empty _ =
    debug_throw h.debug_failfast (is_round2_leader s) >> start_round2_if_possible h s
dispatch_as h s e kind_request (request p) = dispatcher_round2_request h s e p
dispatch_as h s e kind_preprepare (preprepare p) = dispatcher_round2_preprepare h s e p
dispatch_as h s e kind_partial_commit (partial_commit p) = dispatcher_round2_partial_commit h s e p
dispatch_as h s e kind_full_commit (full_commit p) = dispatcher_round2_full_commit h s e p
dispatch_as h s e kind_fetch_request (fetch_request p) = dispatcher_round3_fetch_request h s p
dispatch_as h s e kind_fetch_response (fetch_response p) = dispatcher_round3_fetch_response h s e p
dispatch_as h s e kind_general_fetch (general_fetch p) =
    dispatcher_round3_general_fetch_request h s e p
dispatch_as h s e kind_connectivity_response (fetch_response p) =
    dispatcher_round3_fetch_connectivity_response h s e p
dispatch_as h s e kind_membership_response (full_membership p) =
    dispatcher_round3_fetch_membership_response h s e p
dispatch_as h s e kind_hello _ = thrown invalid_type
dispatch_as h s e kind_other _ = thrown invalid_type
dispatch_as h s e _ _ = undefined

unfoldable pub dispatcher_round2 : Host → ConnManager → QueueElement → Outcome ConnManager
unfolding dispatch_as
dispatcher_round2 h s e =
    if (message_header e.message).version == version_1_0
    then dispatch_as h s e (kind_of (message_header e.message).msg_type) e.message
    else thrown invalid_version

-- The inner loop of start: n messages of the juggle queue, each taken off before it is dispatched.
unfoldable pub process_juggled : Host → ConnManager → ℕ → Outcome ConnManager
process_juggled h s zero = done s
process_juggled h s (suc n) =
    (elim s.juggle_queue [
      | [] ↦ undefined
      | e ∷ rest ↦ dispatcher_round2 h (record s { juggle_queue = rest }) e
    ])
    >>= λ s'. process_juggled h s' n

-- One round of the loop of start that finds a message in the queue.
unfoldable pub process_element : Host → ConnManager → QueueElement → Outcome ConnManager
unfolding process_juggled
process_element h s e = do
  s' ← dispatcher_round2 h s e
  process_juggled h s' (length s'.juggle_queue)
