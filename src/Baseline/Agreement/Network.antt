-- ===== src/Baseline/Agreement/Network.antt =====
-- ConnManager_Baseline.cpp: the leaders of all groups, which exchange the messages of the agreement on
-- one cycle in any order.
use mathlib.Core.Path.{subst}
use rcanopus_membership.Prelude.{ℕ, ◌+◌, ◌≤◌, ◌<◌, ◌≡◌, ap, ◌∙◌, ◌==◌, inl, inr, arith, Bool-cases}
use rcanopus_membership.Network.{
  Nodes, replace, replace_cases, count_messages, count_messages-append, sum_below, sum_below_all,
  sum_below_mono,
}
use rcanopus_membership.Outcome.{done, Ensures}
use rcanopus_membership.Config.{num_bg}
use rcanopus_membership.Manager.{ConnManager, Host, QueueElement}
use rcanopus_membership.Baseline.Dispatcher.{dispatcher_baseline}
use rcanopus_membership.Baseline.Agreement.Phases.{
  proposal_awaited, finished, collecting, phase, Event, proposal, vote, verdict, Steps,
}
use rcanopus_membership.Baseline.Agreement.Refinement.{IsFor, dispatcher_baseline-Steps}
use rcanopus_membership.Baseline.Agreement.Moves.{
  vote_of, verdict_of, counted, answered, answered-le, Step-answered, Step-required, Step-decided,
  Step-over,
}

-- The nodes are the leaders, by their group.
module _ (n cycle : ℕ) where
  abbrev pub votes : Nodes → ℕ → ℕ
  votes nodes i = count_messages (vote_of cycle) (nodes i).send_queue

  abbrev pub verdicts : Nodes → ℕ → ℕ
  verdicts nodes i = count_messages (verdict_of cycle) (nodes i).send_queue

  -- What a leader may get: any proposal; a partial commit if fewer were counted than were sent; a full
  -- commit if one was sent.
  abbrev pub IsUnderWay : Nodes → ℕ → Event → Type 0
  IsUnderWay nodes i (proposal collector) = Unit
  IsUnderWay nodes i vote = counted (phase (nodes i) cycle) < sum_below n (votes nodes)
  IsUnderWay nodes i verdict = (j : ℕ) × (j < n) × (0 < verdicts nodes j)

  -- One leader dispatches one message of the agreement.
  pub data Deliver (nodes : Nodes) : Nodes → Type 0 where
    deliver :
        (h : Host) (i : ℕ) (e : QueueElement) (event : Event) (s : ConnManager)
        → i < n
        → IsFor e.message cycle event
        → IsUnderWay nodes i event
        → dispatcher_baseline h (nodes i) e ≡ done s
        → Deliver nodes (replace nodes i s)

  pub data Reach (nodes : Nodes) : Nodes → Type 0 where
    here : Reach nodes nodes
    next : {now then_ : Nodes} → Reach nodes now → Deliver now then_ → Reach nodes then_

  abbrev pub AllAnswered : Nodes → Type 0
  AllAnswered nodes = (j : ℕ) → j < n → answered (phase (nodes j) cycle) ≡ 1

  pub record IsFair (nodes : Nodes) : Type 0 where
    pub grouped : (i : ℕ) → i < n → num_bg (nodes i).config ≡ n
    pub voted : (i : ℕ) → i < n → votes nodes i ≤ answered (phase (nodes i) cycle)
    pub required : (i k r : ℕ) → i < n → phase (nodes i) cycle ≡ collecting k r → r ≡ n
    pub decided : (i : ℕ) → i < n → 0 < verdicts nodes i → AllAnswered nodes
    pub over : (i : ℕ) → i < n → phase (nodes i) cycle ≡ finished → AllAnswered nodes

  -- The network after a delivery to leader i.
  module _ (nodes : Nodes) (i : ℕ) (s : ConnManager) (fair : IsFair nodes) (l : i < n) where
    module _ {event : Event} (moved : Steps (nodes i) cycle event s) where
      answered_grows : answered (phase (nodes i) cycle) ≤ answered (phase s cycle)
      answered_grows = omega (arith, Step-answered moved.step)

      AllAnswered-replace : AllAnswered nodes → AllAnswered (replace nodes i s)
      AllAnswered-replace all j k = elim (replace_cases nodes i s j) [
        | inl (e, new) ↦
            rw new (omega (arith, answered_grows, all i l, answered-le (phase s cycle)))
        | inr old ↦ rw old (all j k)
      ]

      all_counted :
          IsUnderWay nodes i event
          → (k : ℕ) → event ≡ vote
          → phase (nodes i) cycle ≡ collecting k (k + 1)
          → AllAnswered nodes
      all_counted way k ev at_last =
          let whole : k + 1 ≡ n = fair.required i k (k + 1) l at_last in
          let more : counted (phase (nodes i) cycle) < sum_below n (votes nodes) = rw ev at way in
          let most =
            sum_below_mono n (votes nodes) (λ j. answered (phase (nodes j) cycle)) fair.voted in
          sum_below_all n (λ j. answered (phase (nodes j) cycle)) (λ j m. answered-le _)
            (omega (arith, whole, ap counted at_last, more, most))

      all_decided :
          IsUnderWay nodes i event
          → 0 < count_messages (verdict_of cycle) s.send_queue
          → AllAnswered nodes
      all_decided way some_sent = elim (Bool-cases (0 == verdicts nodes i)) [
        | inl fresh ↦
            let (k, ev, at_last) = Step-decided moved.step (
              ground (
                arith,
                ap (count_messages (verdict_of cycle)) moved.sent,
                count_messages-append (verdict_of cycle) (nodes i).send_queue moved.out,
              )) in
            all_counted way k ev at_last
        | inr old ↦ fair.decided i l (ground arith)
      ]

      all_over : IsUnderWay nodes i event → phase s cycle ≡ finished → AllAnswered nodes
      all_over way at_end = elim (Step-over moved.step at_end) [
        | inl before ↦ fair.over i l before
        | inr ev ↦ let (j, m, some_sent) = rw ev at way in fair.decided j m some_sent
      ]

      IsFair-replace : IsUnderWay nodes i event → IsFair (replace nodes i s)
      IsFair-replace way = record {
        grouped = λ j k. elim (replace_cases nodes i s j) [
          | inl (e, new) ↦ rw (new, moved.same_config) (fair.grouped i l)
          | inr old ↦ rw old (fair.grouped j k)
        ];
        voted = λ j k. elim (replace_cases nodes i s j) [
          | inl (e, new) ↦
              rw (new, moved.sent, count_messages-append)
                (omega (arith, fair.voted i l, Step-answered moved.step))
          | inr old ↦ rw old (fair.voted j k)
        ];
        required = λ j k r m at_phase. elim (replace_cases nodes i s j) [
          | inl (e, new) ↦ elim (Step-required moved.step k r (rw new at at_phase)) [
            | inl whole ↦ whole ∙ fair.grouped i l
            | inr (k', before) ↦ fair.required i k' r l before
          ]
          | inr old ↦ fair.required j k r m (rw old at at_phase)
        ];
        decided = λ j m some_sent. AllAnswered-replace (elim (replace_cases nodes i s j) [
          | inl (e, new) ↦ all_decided way (rw new at some_sent)
          | inr old ↦ fair.decided j m (rw old at some_sent)
        ]);
        over = λ j m at_end. AllAnswered-replace (elim (replace_cases nodes i s j) [
          | inl (e, new) ↦ all_over way (rw new at at_end)
          | inr old ↦ fair.over j m (rw old at at_end)
        ]);
      }

  Deliver-IsFair : {nodes then_ : Nodes} → Deliver nodes then_ → IsFair nodes → IsFair then_
  Deliver-IsFair {nodes} (deliver h i e event s l for way returns) fair =
      let moved : Steps (nodes i) cycle event s =
        subst (Ensures (Steps (nodes i) cycle event)) returns
          (dispatcher_baseline-Steps h (nodes i) e cycle event for) in
      IsFair-replace nodes i s fair l moved way

  -- The leaders at the start of the agreement: none has a proposal, and none has sent anything for it.
  abbrev pub IsStart : Nodes → Type 0
  IsStart nodes =
      (i : ℕ)
      → i < n
      → (num_bg (nodes i).config ≡ n)
        × (phase (nodes i) cycle ≡ proposal_awaited)
        × (votes nodes i ≡ 0)
        × (verdicts nodes i ≡ 0)

  IsStart-IsFair : (nodes : Nodes) → IsStart nodes → IsFair nodes
  IsStart-IsFair nodes start = record {
    grouped = λ i l. (start i l).0;
    voted = λ i l. omega (arith, (start i l).2);
    required = λ i k r l at_phase. cc ((start i l).1);
    decided = λ i l some_sent. absurd (omega (arith, (start i l).3));
    over = λ i l at_end. cc ((start i l).1);
  }

  Reach-IsFair : {nodes now : Nodes} → IsFair nodes → Reach nodes now → IsFair now
  Reach-IsFair fair here = fair
  Reach-IsFair fair (next reach step) = Deliver-IsFair step (Reach-IsFair fair reach)

  -- Let the leaders of n groups of the baseline start the agreement on a cycle, and dispatch its
  -- messages in any order, where a partial commit is only dispatched to a leader that has counted fewer
  -- than were sent, and a full commit only if one was sent. If one leader has finished the cycle, then
  -- every leader has taken up a proposal.
  pub finished-all_answered :
      {nodes now : Nodes} (i j : ℕ)
      → IsStart nodes
      → Reach nodes now
      → i < n
      → phase (now i) cycle ≡ finished
      → j < n
      → answered (phase (now j) cycle) ≡ 1
  finished-all_answered {nodes} i j start reach l at_end =
      (Reach-IsFair (IsStart-IsFair nodes start) reach).over i l at_end j
