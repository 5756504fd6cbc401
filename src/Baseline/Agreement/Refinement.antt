-- ===== src/Baseline/Agreement/Refinement.antt =====
-- ConnManager_Baseline.cpp: the dispatch of a message of the agreement, beside the abstract machine.
use rcanopus_membership.Prelude.{ℕ, ◌≡◌, ap, ◌==◌}
use rcanopus_membership.Outcome.{Ensures, Ensures-if}
use rcanopus_membership.Message.{
  partial_commit_baseline, full_commit_baseline, Message, message_header, preprepare_baseline,
}
use rcanopus_membership.Manager.{ConnManager, Host, QueueElement}
use rcanopus_membership.Baseline.Agreement.Phases.{Event, proposal, vote, verdict, Steps}
use rcanopus_membership.Message.Wire.Baseline.{
  baseline_kind_of, kind_preprepare_baseline, kind_partial_commit_baseline,
  kind_full_commit_baseline,
}
use rcanopus_membership.Const.{version_1_0}
use rcanopus_membership.Baseline.Dispatcher.{dispatcher_baseline, dispatch_baseline_as}
use rcanopus_membership.Baseline.Agreement.Handlers.{
  dispatcher_round3_preprepare-Steps, dispatcher_round3_partial_commit-Steps,
  dispatcher_round3_full_commit-Steps,
}

-- A message of the agreement on a cycle, and what it is to the machine.
abbrev pub IsFor : Message → ℕ → Event → Type 0
IsFor (preprepare_baseline p) cycle event =
    (p.header.msg_type ≡ 11) × (p.cycle ≡ cycle) × (event ≡ proposal p.collector_bg_id)
IsFor (partial_commit_baseline p) cycle event =
    (p.header.msg_type ≡ 12) × (p.cycle ≡ cycle) × (event ≡ vote)
IsFor (full_commit_baseline p) cycle event =
    (p.header.msg_type ≡ 13) × (p.cycle ≡ cycle) × (event ≡ verdict)
IsFor _ cycle event = ⊥

dispatch_baseline_as-Steps :
    (h : Host) (s : ConnManager) (e : QueueElement) (m : Message) (cycle : ℕ) (event : Event)
    → IsFor m cycle event
    → Ensures
        (Steps s cycle event)
        (dispatch_baseline_as h s e (baseline_kind_of (message_header m).msg_type) m)
unfolding dispatch_baseline_as baseline_kind_of message_header
dispatch_baseline_as-Steps h s e (preprepare_baseline p) cycle event for =
    let kind : baseline_kind_of p.header.msg_type ≡ kind_preprepare_baseline =
      ap baseline_kind_of for.0 in
    rw (kind, ← for.1, for.2) (dispatcher_round3_preprepare-Steps h s e p)
dispatch_baseline_as-Steps h s e (partial_commit_baseline p) cycle event for =
    let kind : baseline_kind_of p.header.msg_type ≡ kind_partial_commit_baseline =
      ap baseline_kind_of for.0 in
    rw (kind, ← for.1, for.2) (dispatcher_round3_partial_commit-Steps h s e p)
dispatch_baseline_as-Steps h s e (full_commit_baseline p) cycle event for =
    let kind : baseline_kind_of p.header.msg_type ≡ kind_full_commit_baseline =
      ap baseline_kind_of for.0 in
    rw (kind, ← for.1, for.2) (dispatcher_round3_full_commit-Steps s e p)
dispatch_baseline_as-Steps h s e _ cycle event for = absurd for

-- The dispatch of a message of the baseline's agreement, if it returns, keeps the phases of all other
-- cycles, and either leaves the phase of the message's cycle and the send queue as they are or does a
-- step of the abstract machine with that phase that fits the message, and sends what the step sends: with
-- a proposal a leader that waits for one sends its partial commit to the collector, and collects if it
-- is the collector; the collector counts a partial commit, and with the last one sends the full commit
-- to all leaders; the full commit ends the cycle.
pub dispatcher_baseline-Steps :
    (h : Host) (s : ConnManager) (e : QueueElement) (cycle : ℕ) (event : Event)
    → IsFor e.message cycle event
    → Ensures (Steps s cycle event) (dispatcher_baseline h s e)
unfolding dispatcher_baseline
dispatcher_baseline-Steps h s e cycle event for =
    Ensures-if (Steps s cycle event) ((message_header e.message).version == version_1_0) _ _
      (λ _. dispatch_baseline_as-Steps h s e e.message cycle event for) (λ _. tt)
