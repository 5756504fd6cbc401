-- ===== src/Baseline/Agreement/Phases.antt =====
-- The agreement of the baseline on a cycle, as a leader goes through it: an abstract machine, and that
-- the handlers of ConnManager_Baseline.cpp do its steps.
use rcanopus_membership.Prelude.{
  ℕ, ◌+◌, ◌≡◌, ◌≢◌, Bool, true, false, if◌then◌else◌, List, [], ◌∷◌, ◌++◌, Option, none, some,
  lookup,
}
use rcanopus_membership.Outcome.{done}
use rcanopus_membership.Config.{Config, num_bg}
use rcanopus_membership.Message.{partial_commit_baseline, full_commit_baseline}
use rcanopus_membership.Manager.{
  ConnManager, QueueElement, CycleStatus, Peer, self, connection, is_state, storage_exist,
  round3_waiting_for_preprepare_baseline, round3_collector_waiting_for_partialcommits_baseline,
  round3_waiting_for_fullcommit_baseline,
}
use rcanopus_membership.Baseline.Agreement.{
  own_partial_commit_baseline, own_full_commit_baseline, push_other_leaders,
}

-- Where a leader stands with a cycle. A collector has so many partial commits of so many.
pub data Phase : Type 0 where
  elsewhere proposal_awaited commit_awaited finished : Phase
  collecting : ℕ → ℕ → Phase

abbrev pub status_phase : CycleStatus → Phase
status_phase st =
    if is_state round3_waiting_for_preprepare_baseline st
    then proposal_awaited
    else if is_state round3_collector_waiting_for_partialcommits_baseline st
    then collecting st.message_received_counter st.message_required
    else if is_state round3_waiting_for_fullcommit_baseline st
    then commit_awaited
    else elsewhere

-- A cycle that is in no status is over if it is stored.
abbrev pub entry_phase : Option CycleStatus → Bool → Phase
entry_phase (some st) stored = status_phase st
entry_phase none true = finished
entry_phase none false = elsewhere

abbrev pub phase : ConnManager → ℕ → Phase
phase s cycle = entry_phase (lookup cycle s.map_round3_status) (storage_exist cycle s.storage)

abbrev pub partial_commit_to : Config → ℕ → Peer → QueueElement
partial_commit_to c cycle recipient = record {
  up_peers = recipient ∷ [];
  message = partial_commit_baseline (own_partial_commit_baseline c cycle);
}

abbrev pub full_commit_to : Config → ℕ → List Peer → QueueElement
full_commit_to c cycle peers = record {
  up_peers = self ∷ peers;
  message = full_commit_baseline (own_full_commit_baseline c cycle);
}

-- What a leader gets: the proposal with its collector, a partial commit, the full commit.
pub data Event : Type 0 where
  proposal : ℕ → Event
  vote verdict : Event

-- The machine: a step from a phase to a phase, with what the leader sends. A proposal makes the
-- collector collect from all groups, itself included, and the others wait for its full commit, which
-- it sends with the last partial commit; the full commit ends the cycle. With `wait` nothing happens.
pub data Step (c : Config) (cycle : ℕ) (event : Event)
    : Phase → List QueueElement → Phase → Type 0 where
  wait : {p q : Phase} → q ≡ p → Step c cycle event p [] q
  collect :
      {p q : Phase} {out : List QueueElement}
      → event ≡ proposal c.bg_id
      → p ≡ proposal_awaited
      → q ≡ collecting 0 (num_bg c)
      → out ≡ partial_commit_to c cycle self ∷ []
      → Step c cycle event p out q
  follow :
      {p q : Phase} {out : List QueueElement} (collector : ℕ) (leader : Peer)
      → event ≡ proposal collector
      → collector ≢ c.bg_id
      → connection c collector 0 ≡ done leader
      → p ≡ proposal_awaited
      → q ≡ commit_awaited
      → out ≡ partial_commit_to c cycle leader ∷ []
      → Step c cycle event p out q
  count :
      {p q : Phase} (n required : ℕ)
      → event ≡ vote
      → n + 1 ≢ required
      → p ≡ collecting n required
      → q ≡ collecting (n + 1) required
      → Step c cycle event p [] q
  complete :
      {p q : Phase} {out : List QueueElement} (n : ℕ) (leaders : List Peer)
      → event ≡ vote
      → push_other_leaders c (num_bg c) ≡ done leaders
      → p ≡ collecting n (n + 1)
      → q ≡ commit_awaited
      → out ≡ full_commit_to c cycle leaders ∷ []
      → Step c cycle event p out q
  finish :
      {p q : Phase}
      → event ≡ verdict
      → p ≡ commit_awaited
      → q ≡ finished
      → Step c cycle event p [] q

-- What a handler does for a cycle: a step, and nothing for the other cycles.
pub record Steps (s : ConnManager) (cycle : ℕ) (event : Event) (s' : ConnManager) : Type 0 where
  pub out : List QueueElement
  pub sent : s'.send_queue ≡ s.send_queue ++ out
  pub same_config : s'.config ≡ s.config
  pub step : Step s.config cycle event (phase s cycle) out (phase s' cycle)
  pub others : (other : ℕ) → other ≢ cycle → phase s' other ≡ phase s other
