-- ===== src/Round2/Agreement.antt =====
-- ConnManager.cpp: the agreement of a group's super leaves on a message, as an abstract machine beside
-- dispatcher_round2_preprepare and dispatcher_round2_partialCommit.
pub mod Handlers
pub mod Refinement
pub mod Ballots
pub mod Network
pub mod Delivery
use rcanopus_membership.Prelude.{ℕ, ◌+◌, ◌≡◌, ◌≢◌, ◌⊎◌, List, [], ◌∷◌, ◌++◌, Option, none, some}
use rcanopus_membership.Outcome.{done}
use rcanopus_membership.Config.{Config, num_sl}
use rcanopus_membership.Message.{partial_commit, full_commit}
use rcanopus_membership.Manager.{
  ConnManager, QueueElement, CycleStatus, CycleState, Peer, self, connection, broadcast_peers,
  new_cycle_status, round2_waiting_for_preprepare, round2_collector_waiting_for_partialcommits,
  round2_waiting_for_fullcommit,
}
use rcanopus_membership.Round2.Replica.{own_partial_commit, own_full_commit}

-- Where a super leaf stands in Round 2: it has no status, waits for a message, has counted some partial
-- commits for the message of a view and sequence number, or waits for its full commit.
pub data Phase : Type 0 where
  idle awaiting elsewhere : Phase
  collecting : ℕ → ℕ → ℕ → Phase
  commit_awaited : ℕ → ℕ → Phase

abbrev pub state_phase : CycleStatus → CycleState → Phase
state_phase st round2_waiting_for_preprepare = awaiting
state_phase st round2_collector_waiting_for_partialcommits =
    collecting st.round2_view st.round2_sequence st.message_received_counter
state_phase st round2_waiting_for_fullcommit = commit_awaited st.round2_view st.round2_sequence
state_phase st _ = elsewhere

abbrev pub status_phase : Option CycleStatus → Phase
status_phase none = idle
status_phase (some st) = state_phase st st.state

abbrev pub phase : ConnManager → Phase
phase s = status_phase s.round2_current_status

-- The messages for a view and sequence number.
abbrev place : ℕ → ℕ → CycleStatus
place view seq = record (new_cycle_status 0) { round2_view = view; round2_sequence = seq }

abbrev pub partial_commit_to : Config → ℕ → ℕ → Peer → QueueElement
partial_commit_to c view seq recipient = record {
  up_peers = recipient ∷ [];
  message = partial_commit (own_partial_commit c (place view seq));
}

abbrev pub full_commit_to_all : Config → ℕ → ℕ → QueueElement
full_commit_to_all c view seq = record {
  up_peers = broadcast_peers c;
  message = full_commit (own_full_commit c (place view seq));
}

-- What a super leaf gets: a message with its place and collector, or a partial commit for a place.
pub data Event : Type 0 where
  proposal : ℕ → ℕ → ℕ → Event
  vote : ℕ → ℕ → Event

-- A step from a phase to a phase, with what the super leaf sends. A message makes its collector count
-- the partial commits of the whole group, its own included, and the others wait for the full commit; the
-- collector sends the full commit with the last partial commit. A message that is put back may give the
-- super leaf a status.
pub data Step (c : Config) (event : Event) : Phase → List QueueElement → Phase → Type 0 where
  wait : {p q : Phase} → (q ≡ p) ⊎ ((p ≡ idle) × (q ≡ awaiting)) → Step c event p [] q
  collect :
      {p q : Phase} {out : List QueueElement} (view seq : ℕ)
      → event ≡ proposal view seq c.sl_id
      → (p ≡ idle) ⊎ (p ≡ awaiting)
      → q ≡ collecting view seq 0
      → out ≡ partial_commit_to c view seq self ∷ []
      → Step c event p out q
  follow :
      {p q : Phase} {out : List QueueElement} (view seq collector : ℕ) (recipient : Peer)
      → event ≡ proposal view seq collector
      → collector ≢ c.sl_id
      → connection c c.bg_id collector ≡ done recipient
      → (p ≡ idle) ⊎ (p ≡ awaiting)
      → q ≡ commit_awaited view seq
      → out ≡ partial_commit_to c view seq recipient ∷ []
      → Step c event p out q
  count :
      {p q : Phase} (view seq n : ℕ)
      → event ≡ vote view seq
      → n + 1 ≢ num_sl c c.bg_id
      → p ≡ collecting view seq n
      → q ≡ collecting view seq (n + 1)
      → Step c event p [] q
  complete :
      {p q : Phase} {out : List QueueElement} (view seq n : ℕ)
      → event ≡ vote view seq
      → n + 1 ≡ num_sl c c.bg_id
      → p ≡ collecting view seq n
      → q ≡ commit_awaited view seq
      → out ≡ full_commit_to_all c view seq ∷ []
      → Step c event p out q

-- What a handler does: a step from the phase that the node was in.
pub record Steps (c : Config) (event : Event) (before : Phase) (sends : List QueueElement)
    (t : ConnManager) : Type 0 where
  pub out : List QueueElement
  pub sent : t.send_queue ≡ sends ++ out
  pub same_config : t.config ≡ c
  pub step : Step c event before out (phase t)
