-- ===== src/Hybrid/Dispatcher.antt =====
-- ConnManager_Hybrid.cpp: the dispatch of a message by its type, and one round of the loop of start.
use rcanopus_membership.Prelude.{ℕ, zero, suc, ◌==◌, if◌then◌else◌, [], ◌∷◌, length}
use rcanopus_membership.Const.{version_1_0}
use rcanopus_membership.Outcome.{Outcome, done, thrown, undefined, invalid_version, ◌>>=◌}
use rcanopus_membership.Message.{
  Message, preprepare, full_commit, fetch_response, message_header, MessageKind, kind_of,
  kind_preprepare, kind_full_commit, kind_fetch_response,
}
use rcanopus_membership.Manager.{ConnManager, Host, QueueElement}
use rcanopus_membership.Dispatcher.{dispatch_as}
use rcanopus_membership.Baseline.Fetch.{dispatcher_baseline_fetch_response}
use rcanopus_membership.Hybrid.Preprepare.{dispatcher_hybrid_preprepare}
use rcanopus_membership.Hybrid.Commit.{dispatcher_hybrid_full_commit}

-- The switch of dispatcher_round2: three handlers are the variant's own.
unfoldable pub dispatch_hybrid_as :
    Host → ConnManager → QueueElement → MessageKind → Message → Outcome ConnManager
unfolding dispatch_as
dispatch_hybrid_as h s e kind_preprepare (preprepare p) = dispatcher_hybrid_preprepare h s e p
dispatch_hybrid_as h s e kind_full_commit (full_commit p) = dispatcher_hybrid_full_commit h s e p
dispatch_hybrid_as h s e kind_fetch_response (fetch_response p) =
    dispatcher_baseline_fetch_response h s p
dispatch_hybrid_as h s e k m = dispatch_as h s e k m

unfoldable pub dispatcher_hybrid : Host → ConnManager → QueueElement → Outcome ConnManager
unfolding dispatch_hybrid_as
dispatcher_hybrid h s e =
    if (message_header e.message).version == version_1_0
    then dispatch_hybrid_as h s e (kind_of (message_header e.message).msg_type) e.message
    else thrown invalid_version

-- The inner loop of start: n messages of the juggle queue, each taken off before it is dispatched.
unfoldable pub process_hybrid_juggled : Host → ConnManager → ℕ → Outcome ConnManager
process_hybrid_juggled h s zero = done s
process_hybrid_juggled h s (suc n) =
    (elim s.juggle_queue [
      | [] ↦ undefined
      | e ∷ rest ↦ dispatcher_hybrid h (record s { juggle_queue = rest }) e
    ])
    >>= λ s'. process_hybrid_juggled h s' n

unfoldable pub process_hybrid_element : Host → ConnManager → QueueElement → Outcome ConnManager
unfolding process_hybrid_juggled
process_hybrid_element h s e = do
  s' ← dispatcher_hybrid h s e
  process_hybrid_juggled h s' (length s'.juggle_queue)
