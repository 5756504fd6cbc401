-- ===== src/Invariant.antt =====
-- What holds of a node between two messages (ConnManager.h, CycleStatus.h): the phase of its current
-- Round 2 message, and what the calls of Round 3 leave alone.
pub mod Frame
pub mod Round2
pub mod FullCommit
pub mod Dispatch
pub mod Rounds
pub mod Loop
pub mod Baseline
pub mod Hybrid
pub mod Returns
use rcanopus_membership.Prelude.{
  ℕ, ◌<◌, ◌≡◌, ◌⊎◌, List, Option, none, some, refl, ap, ◌∙◌, length, Bool, true, false,
  if◌then◌else◌, [], ◌∷◌, ◌++◌, arith,
}
use rcanopus_membership.Config.{Config, num_sl}
use rcanopus_membership.Message.{Message, MessageRound2Preprepare, partial_commit, full_commit}
use rcanopus_membership.Manager.{
  ConnManager, QueueElement, CycleStatus, CycleState, SigVerifier, round2_waiting_for_preprepare,
  round2_collector_waiting_for_partialcommits, round2_waiting_for_fullcommit, round2_committed,
}

-- The stored message is the one that the status is about.
abbrev pub Holds : CycleStatus → Option MessageRound2Preprepare → Type 0
Holds st none = ⊥
Holds st (some p) = (p.view ≡ st.round2_view) × (p.seq ≡ st.round2_sequence)

-- What a node in a phase of Round 2 waits for, by its state. The committed state is only left behind
-- by a full commit that a check of a build without DEBUG_FAILFAST has dropped.
abbrev pub PhaseOk : Config → CycleStatus → Option MessageRound2Preprepare → CycleState → Type 0
PhaseOk c st stored round2_waiting_for_preprepare =
    (st.awaiting_message_type ≡ 3)
    × (st.message_received_counter ≡ 0)
    × (st.message_required ≡ 1)
    × (stored ≡ none)
PhaseOk c st stored round2_collector_waiting_for_partialcommits =
    (st.awaiting_message_type ≡ 4)
    × (st.message_received_counter < st.message_required)
    × (st.message_required ≡ num_sl c c.bg_id)
    × Holds st stored
PhaseOk c st stored round2_waiting_for_fullcommit =
    (st.awaiting_message_type ≡ 5)
    × (st.message_received_counter ≡ 0)
    × (st.message_required ≡ 1)
    × Holds st stored
PhaseOk c st stored round2_committed = (st.awaiting_message_type ≡ 5) × Holds st stored
PhaseOk c st stored _ = ⊥

-- Between two messages of Round 2 nothing is stored.
abbrev pub StatusOk : Config → Option CycleStatus → Option MessageRound2Preprepare → Type 0
StatusOk c none stored = stored ≡ none
StatusOk c (some st) stored = PhaseOk c st stored st.state

abbrev pub Round2Ok : ConnManager → Type 0
Round2Ok s = StatusOk s.config s.round2_current_status s.temporary_storage_of_preprepare

-- What the constructor sets up and no call changes: the configuration, the verifier and the number of
-- batch counters.
abbrev pub Setup : Type 0
Setup = Config × Option SigVerifier × ℕ

abbrev pub setup : ConnManager → Setup
setup s = (s.config, s.round2_verifier, length s.rg_leader_batch_received_from)

abbrev pub set_config : Setup → Config
set_config x = x.0

-- The partial and full commits among the messages that were sent.
abbrev pub is_ballot : Message → Bool
is_ballot (partial_commit p) = true
is_ballot (full_commit p) = true
is_ballot _ = false

unfoldable pub ballots : List QueueElement → List Message
ballots [] = []
ballots (e ∷ rest) =
    let later = ballots rest in if is_ballot e.message then e.message ∷ later else later

pub ballots-send_other :
    (xs : List QueueElement) (e : QueueElement)
    → is_ballot e.message ≡ false
    → ballots (xs ++ e ∷ []) ≡ ballots xs
unfolding ballots
ballots-send_other [] e h = rw h refl
ballots-send_other (x ∷ xs) e h =
    ap (λ ys. if is_ballot x.message then x.message ∷ ys else ys) (ballots-send_other xs e h)

pub ruleset sends = (arith, ballots-send_other)

-- The calls of Round 3 keep the setup, the juggle queue, the current status and the stored message, and
-- send no partial or full commit.
abbrev pub Frame : ConnManager → ConnManager → Type 0
Frame s t =
    (setup t ≡ setup s)
    × (t.juggle_queue ≡ s.juggle_queue)
    × (t.round2_current_status ≡ s.round2_current_status)
    × (t.temporary_storage_of_preprepare ≡ s.temporary_storage_of_preprepare)
    × (ballots t.send_queue ≡ ballots s.send_queue)

pub Frame-refl : (s : ConnManager) → Frame s s
Frame-refl s = (refl, refl, refl, refl, refl)

pub Frame-trans : (s t u : ConnManager) → Frame s t → Frame t u → Frame s u
Frame-trans s t u h k = (k.0 ∙ h.0, k.1 ∙ h.1, k.2 ∙ h.2, k.3 ∙ h.3, k.4 ∙ h.4)
