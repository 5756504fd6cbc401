-- ===== src/Baseline/Agreement/Moves.antt =====
-- The partial and full commits that a leader sends in the agreement of the baseline, and how its steps
-- count them.
use rcanopus_membership.Prelude.{
  ℕ, ◌+◌, ◌≤◌, ◌<◌, ◌≡◌, sym, ◌∙◌, ◌==◌, if◌then◌else◌, ◌⊎◌, inl, inr, List, arith,
}
use rcanopus_membership.Network.{count_messages}
use rcanopus_membership.Config.{Config, num_bg}
use rcanopus_membership.Message.{Message, partial_commit_baseline, full_commit_baseline}
use rcanopus_membership.Manager.{QueueElement}
use rcanopus_membership.Baseline.Agreement.{own_partial_commit_baseline, own_full_commit_baseline}
use rcanopus_membership.Baseline.Agreement.Phases.{
  Phase, elsewhere, proposal_awaited, commit_awaited, finished, collecting, Event, vote, verdict,
  Step, wait, collect, follow, count, complete, finish,
}

-- The partial and full commits for a cycle among messages that were sent.
abbrev pub vote_of : ℕ → Message → ℕ
vote_of cycle (partial_commit_baseline p) = if p.cycle == cycle then 1 else 0
vote_of cycle _ = 0

abbrev pub verdict_of : ℕ → Message → ℕ
verdict_of cycle (full_commit_baseline p) = if p.cycle == cycle then 1 else 0
verdict_of cycle _ = 0

-- The leader has taken up a proposal.
abbrev pub answered : Phase → ℕ
answered elsewhere = 0
answered proposal_awaited = 0
answered commit_awaited = 1
answered finished = 1
answered (collecting n required) = 1

abbrev pub counted : Phase → ℕ
counted (collecting n required) = n
counted _ = 0

pub answered-le : (p : Phase) → answered p ≤ 1
answered-le elsewhere = omega arith
answered-le proposal_awaited = omega arith
answered-le commit_awaited = omega arith
answered-le finished = omega arith
answered-le (collecting n required) = omega arith

-- What a step of a leader means for the network.
pub Step-answered :
    {c : Config} {cycle : ℕ} {event : Event} {p q : Phase} {out : List QueueElement}
    → Step c cycle event p out q
    → count_messages (vote_of cycle) out + answered p ≤ answered q
unfolding own_partial_commit_baseline own_full_commit_baseline
Step-answered (wait same) = rw same (omega arith)
Step-answered (collect ev from to sent) = rw (from, to, sent) (ground arith)
Step-answered (follow k leader ev other conn from to sent) = rw (from, to, sent) (ground arith)
Step-answered (count k r ev more from to) = rw (from, to) (omega arith)
Step-answered (complete k leaders ev conn from to sent) = rw (from, to, sent) (ground arith)
Step-answered (finish ev from to) = rw (from, to) (omega arith)

pub Step-required :
    {c : Config} {cycle : ℕ} {event : Event} {p q : Phase} {out : List QueueElement}
    → Step c cycle event p out q
    → (k r : ℕ) → q ≡ collecting k r
    → (r ≡ num_bg c) ⊎ ((k' : ℕ) × (p ≡ collecting k' r))
Step-required (wait same) k r e = inr (k, sym same ∙ e)
Step-required (collect ev from to sent) k r e = inl (cc)
Step-required (follow k' leader ev other conn from to sent) k r e = cc
Step-required (count k' r' ev more from to) k r e = inr (k', cc)
Step-required (complete k' leaders ev conn from to sent) k r e = cc
Step-required (finish ev from to) k r e = cc

pub Step-decided :
    {c : Config} {cycle : ℕ} {event : Event} {p q : Phase} {out : List QueueElement}
    → Step c cycle event p out q
    → 0 < count_messages (verdict_of cycle) out
    → (k : ℕ) × (event ≡ vote) × (p ≡ collecting k (k + 1))
unfolding own_partial_commit_baseline own_full_commit_baseline
Step-decided (wait same) l = absurd (omega arith)
Step-decided (collect ev from to sent) l = absurd (ground arith)
Step-decided (follow k leader ev other conn from to sent) l = absurd (ground arith)
Step-decided (count k r ev more from to) l = absurd (omega arith)
Step-decided (complete k leaders ev conn from to sent) l = (k, ev, from)
Step-decided (finish ev from to) l = absurd (omega arith)

pub Step-over :
    {c : Config} {cycle : ℕ} {event : Event} {p q : Phase} {out : List QueueElement}
    → Step c cycle event p out q
    → q ≡ finished
    → (p ≡ finished) ⊎ (event ≡ verdict)
Step-over (wait same) e = inl (sym same ∙ e)
Step-over (collect ev from to sent) e = cc
Step-over (follow k leader ev other conn from to sent) e = cc
Step-over (count k r ev more from to) e = cc
Step-over (complete k leaders ev conn from to sent) e = cc
Step-over (finish ev from to) e = inr ev
