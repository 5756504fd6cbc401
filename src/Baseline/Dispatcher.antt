-- ===== src/Baseline/Dispatcher.antt =====
-- ConnManager_Baseline.cpp: the dispatch of a message by its type, and one round of the loop of start.
use rcanopus_membership.Prelude.{ℕ, zero, suc, ◌==◌, if◌then◌else◌, [], ◌∷◌, length}
use rcanopus_membership.Const.{version_1_0}
use rcanopus_membership.Outcome.{
  Outcome, done, thrown, undefined, invalid_version, invalid_type, ◌>>=◌, ◌>>◌, debug_throw,
}
use rcanopus_membership.Message.{
  Message, request, preprepare, partial_commit, full_commit, fetch_request, fetch_response,
  preprepare_baseline, partial_commit_baseline, full_commit_baseline, message_header, kind_hello,
  kind_request, kind_preprepare, kind_partial_commit, kind_full_commit, kind_fetch_request,
  kind_fetch_response, kind_general_fetch, kind_connectivity_response, kind_membership_response,
  kind_empty, kind_other,
}
use rcanopus_membership.Message.Wire.Baseline.{
  BaselineKind, kind_common, kind_preprepare_baseline, kind_partial_commit_baseline,
  kind_full_commit_baseline, baseline_kind_of,
}
use rcanopus_membership.Manager.{ConnManager, Host, QueueElement, is_round2_leader}
use rcanopus_membership.Round2.Leader.{start_round2_if_possible, dispatcher_round2_request}
use rcanopus_membership.Round2.Replica.{
  dispatcher_round2_preprepare, dispatcher_round2_partial_commit,
}
use rcanopus_membership.Baseline.Fetch.{
  dispatcher_baseline_fetch_request, dispatcher_baseline_fetch_response,
}
use rcanopus_membership.Baseline.Commit.{dispatcher_baseline_full_commit}
use rcanopus_membership.Baseline.Agreement.{
  dispatcher_round3_preprepare, dispatcher_round3_partial_commit, dispatcher_round3_full_commit,
}

-- The switch of dispatcher_round2: the cast must fit the buffer.
unfoldable pub dispatch_baseline_as :
    Host → ConnManager → QueueElement → BaselineKind → Message → Outcome ConnManager
dispatch_baseline_as h s e (kind_common kind_empty) _ =
    debug_throw h.debug_failfast (is_round2_leader s) >> start_round2_if_possible h s
dispatch_baseline_as h s e (kind_common kind_request) (request p) =
    dispatcher_round2_request h s e p
dispatch_baseline_as h s e (kind_common kind_preprepare) (preprepare p) =
    dispatcher_round2_preprepare h s e p
dispatch_baseline_as h s e (kind_common kind_partial_commit) (partial_commit p) =
    dispatcher_round2_partial_commit h s e p
dispatch_baseline_as h s e (kind_common kind_full_commit) (full_commit p) =
    dispatcher_baseline_full_commit h s e p
dispatch_baseline_as h s e (kind_common kind_fetch_request) (fetch_request p) =
    dispatcher_baseline_fetch_request s p
dispatch_baseline_as h s e (kind_common kind_fetch_response) (fetch_response p) =
    dispatcher_baseline_fetch_response h s p
dispatch_baseline_as h s e kind_preprepare_baseline (preprepare_baseline p) =
    dispatcher_round3_preprepare h s e p
dispatch_baseline_as h s e kind_partial_commit_baseline (partial_commit_baseline p) =
    dispatcher_round3_partial_commit h s e p
dispatch_baseline_as h s e kind_full_commit_baseline (full_commit_baseline p) =
    dispatcher_round3_full_commit s e p
dispatch_baseline_as h s e (kind_common kind_hello) _ = thrown invalid_type
dispatch_baseline_as h s e (kind_common kind_general_fetch) _ = thrown invalid_type
dispatch_baseline_as h s e (kind_common kind_connectivity_response) _ = thrown invalid_type
dispatch_baseline_as h s e (kind_common kind_membership_response) _ = thrown invalid_type
dispatch_baseline_as h s e (kind_common kind_other) _ = thrown invalid_type
dispatch_baseline_as h s e _ _ = undefined

unfoldable pub dispatcher_baseline : Host → ConnManager → QueueElement → Outcome ConnManager
unfolding dispatch_baseline_as
dispatcher_baseline h s e =
    if (message_header e.message).version == version_1_0
    then dispatch_baseline_as h s e (baseline_kind_of (message_header e.message).msg_type) e.message
    else thrown invalid_version

-- The inner loop of start: n messages of the juggle queue, each taken off before it is dispatched.
unfoldable pub process_baseline_juggled : Host → ConnManager → ℕ → Outcome ConnManager
process_baseline_juggled h s zero = done s
process_baseline_juggled h s (suc n) =
    (elim s.juggle_queue [
      | [] ↦ undefined
      | e ∷ rest ↦ dispatcher_baseline h (record s { juggle_queue = rest }) e
    ])
    >>= λ s'. process_baseline_juggled h s' n

unfoldable pub process_baseline_element : Host → ConnManager → QueueElement → Outcome ConnManager
unfolding process_baseline_juggled
process_baseline_element h s e = do
  s' ← dispatcher_baseline h s e
  process_baseline_juggled h s' (length s'.juggle_queue)
