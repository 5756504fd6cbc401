-- ===== src/Round2/Agreement/Network.antt =====
-- ConnManager.cpp: the super leaves of a group, which exchange the messages of Round 2 in any order.
use mathlib.Core.Path.{subst}
use rcanopus_membership.Prelude.{
  false, ℕ, ◌+◌, ◌≤◌, ◌<◌, ◌≡◌, refl, ap, ◌∙◌, ◌==◌, inl, inr, arith, Bool-cases,
}
use rcanopus_membership.Outcome.{done, Ensures}
use rcanopus_membership.Config.{num_sl}
use rcanopus_membership.Manager.{ConnManager, Host, QueueElement}
use rcanopus_membership.Network.{
  Nodes, replace, replace_cases, count_messages, count_messages-append, sum_below, sum_below_all,
}
use rcanopus_membership.Dispatcher.{dispatcher_round2}
use rcanopus_membership.Invariant.{set_config, Round2Ok}
use rcanopus_membership.Invariant.Round2.{is_agreement, Handles}
use rcanopus_membership.Invariant.Dispatch.{dispatcher_round2-Handles}
use rcanopus_membership.Round2.Agreement.{collecting, phase, Event, proposal, vote, Steps}
use rcanopus_membership.Round2.Agreement.Refinement.{IsFor, dispatcher_round2-Steps}
use rcanopus_membership.Round2.Agreement.Ballots.{
  vote_of, verdict_of, counted, Step-voted, Step-decided, same_votes, same_verdicts,
}

-- The super leaves of a group of n, and the message of a view and sequence number.
module _ (n view seq : ℕ) where
  abbrev pub votes : Nodes → ℕ → ℕ
  votes nodes i = count_messages (vote_of view seq) (nodes i).send_queue

  abbrev pub verdicts : Nodes → ℕ → ℕ
  verdicts nodes i = count_messages (verdict_of view seq) (nodes i).send_queue

  -- What a super leaf may get of the message: its preprepare if it has sent no partial commit for it,
  -- and a partial commit if it has counted fewer than were sent.
  abbrev pub IsUnderWay : Nodes → ℕ → Event → Type 0
  IsUnderWay nodes i (proposal v q collector) = v ≡ view → q ≡ seq → votes nodes i ≡ 0
  IsUnderWay nodes i (vote v q) =
      v ≡ view → q ≡ seq → counted view seq (phase (nodes i)) < sum_below n (votes nodes)

  -- A super leaf dispatches a preprepare or partial commit, for this place or another one, or a message
  -- of another type.
  pub data Act (nodes : Nodes) : Nodes → Type 0 where
    deliver :
        (h : Host) (i : ℕ) (e : QueueElement) (event : Event) (s : ConnManager)
        → i < n
        → IsFor e.message event
        → IsUnderWay nodes i event
        → dispatcher_round2 h (nodes i) e ≡ done s
        → Act nodes (replace nodes i s)
    deliver_other :
        (h : Host) (i : ℕ) (e : QueueElement) (s : ConnManager)
        → i < n
        → is_agreement e.message ≡ false
        → dispatcher_round2 h (nodes i) e ≡ done s
        → Act nodes (replace nodes i s)

  pub data Reach (nodes : Nodes) : Nodes → Type 0 where
    here : Reach nodes nodes
    next : {now then_ : Nodes} → Reach nodes now → Act now then_ → Reach nodes then_

  abbrev AllVoted : Nodes → Type 0
  AllVoted nodes = (j : ℕ) → j < n → votes nodes j ≡ 1

  record IsFair (nodes : Nodes) : Type 0 where
    pub grouped : (i : ℕ) → i < n → num_sl (nodes i).config (nodes i).config.bg_id ≡ n
    pub round2_ok : (i : ℕ) → i < n → Round2Ok (nodes i)
    pub voted : (i : ℕ) → i < n → votes nodes i ≤ 1
    pub decided : (i : ℕ) → i < n → 0 < verdicts nodes i → AllVoted nodes

  module _ (nodes : Nodes) (i : ℕ) (s : ConnManager) (fair : IsFair nodes) (l : i < n) where
    AllVoted-replace :
        AllVoted nodes
        → count_messages (vote_of view seq) s.send_queue ≡ 1
        → AllVoted (replace nodes i s)
    AllVoted-replace all kept j k = elim (replace_cases nodes i s j) [
      | inl (e, new) ↦ rw new kept
      | inr old ↦ rw old (all j k)
    ]

    IsFair-replace :
        s.config ≡ (nodes i).config
        → Round2Ok s
        → votes nodes i ≤ count_messages (vote_of view seq) s.send_queue
        → count_messages (vote_of view seq) s.send_queue ≤ 1
        → (0 < count_messages (verdict_of view seq) s.send_queue → AllVoted nodes)
        → IsFair (replace nodes i s)
    IsFair-replace same ok more most decides = record {
      grouped = λ j k. elim (replace_cases nodes i s j) [
        | inl (e, new) ↦ rw (new, same) (fair.grouped i l)
        | inr old ↦ rw old (fair.grouped j k)
      ];
      round2_ok = λ j k. elim (replace_cases nodes i s j) [
        | inl (e, new) ↦ rw new ok
        | inr old ↦ rw old (fair.round2_ok j k)
      ];
      voted = λ j k. elim (replace_cases nodes i s j) [
        | inl (e, new) ↦ rw new most
        | inr old ↦ rw old (fair.voted j k)
      ];
      decided = λ j m some_sent.
          let all : AllVoted nodes = elim (replace_cases nodes i s j) [
            | inl (e, new) ↦ decides (rw new at some_sent)
            | inr old ↦ fair.decided j m (rw old at some_sent)
          ] in
          AllVoted-replace all (omega (arith, all i l, more, most));
    }

    module _ {event : Event}
        (moved : Steps (nodes i).config event (phase (nodes i)) (nodes i).send_queue s) where
      -- A full commit for the message is sent with the last partial commit, when all have sent theirs.
      full_commit_decides :
          IsUnderWay nodes i event
          → 0 < count_messages (verdict_of view seq) moved.out
          → AllVoted nodes
      full_commit_decides way some_sent =
          let (k, ev, at_last, whole) = Step-decided view seq moved.step some_sent in
          let few : counted view seq (phase (nodes i)) < sum_below n (votes nodes) =
            (subst (IsUnderWay nodes i) ev way) refl refl in
          let at_k : counted view seq (phase (nodes i)) ≡ counted view seq (collecting view seq k) =
            ap (counted view seq) at_last in
          sum_below_all n (votes nodes) fair.voted
            (ground (arith, fair.grouped i l, whole, at_k, few))

      sent_votes :
          count_messages (vote_of view seq) s.send_queue
          ≡ votes nodes i + count_messages (vote_of view seq) moved.out
      sent_votes =
          ap (count_messages (vote_of view seq)) moved.sent
          ∙ count_messages-append (vote_of view seq) (nodes i).send_queue moved.out

      sent_verdicts :
          count_messages (verdict_of view seq) s.send_queue
          ≡ verdicts nodes i + count_messages (verdict_of view seq) moved.out
      sent_verdicts =
          ap (count_messages (verdict_of view seq)) moved.sent
          ∙ count_messages-append (verdict_of view seq) (nodes i).send_queue moved.out

      one_vote : IsUnderWay nodes i event → count_messages (vote_of view seq) s.send_queue ≤ 1
      one_vote way = elim (Step-voted view seq moved.step) [
        | inl none_sent ↦ omega (arith, sent_votes, none_sent, fair.voted i l)
        | inr (collector, ev, one_sent) ↦
            let fresh : votes nodes i ≡ 0 = (subst (IsUnderWay nodes i) ev way) refl refl in
            omega (arith, sent_votes, one_sent, fresh)
      ]

      decides :
          IsUnderWay nodes i event
          → 0 < count_messages (verdict_of view seq) s.send_queue
          → AllVoted nodes
      decides way some_sent = elim (Bool-cases (0 == verdicts nodes i)) [
        | inl fresh ↦ full_commit_decides way (ground (arith, sent_verdicts))
        | inr old ↦ fair.decided i l (ground arith)
      ]

  handled :
      (h : Host) (nodes : Nodes) (i : ℕ) (e : QueueElement) (s : ConnManager)
      → IsFair nodes
      → i < n
      → dispatcher_round2 h (nodes i) e ≡ done s
      → Handles e (nodes i) s
  handled h nodes i e s fair l returns = subst (Ensures (Handles e (nodes i))) returns (
      dispatcher_round2-Handles h (nodes i) e (omega (arith, fair.grouped i l))
        (fair.round2_ok i l))

  Act-IsFair : {nodes then_ : Nodes} → Act nodes then_ → IsFair nodes → IsFair then_
  Act-IsFair {nodes} (deliver h i e event s l for way returns) fair =
      let moved : Steps (nodes i).config event (phase (nodes i)) (nodes i).send_queue s =
        subst (Ensures (Steps (nodes i).config event (phase (nodes i)) (nodes i).send_queue))
          returns (dispatcher_round2-Steps h (nodes i) e event (fair.round2_ok i l) for) in
      IsFair-replace nodes i s fair l moved.same_config (handled h nodes i e s fair l returns).2
        (omega (arith, sent_votes nodes i s fair l moved)) (one_vote nodes i s fair l moved way)
        (decides nodes i s fair l moved way)
  Act-IsFair {nodes} (deliver_other h i e s l other returns) fair =
      let done_so = handled h nodes i e s fair l returns in
      elim (done_so.3) [
        | inl same ↦
            let kept = same_votes view seq s.send_queue (nodes i).send_queue same in
            IsFair-replace nodes i s fair l (ap set_config done_so.0) done_so.2
              (omega (arith, kept)) (omega (arith, kept, fair.voted i l))
              (λ some_sent. fair.decided i l (
                omega (
                  arith,
                  same_verdicts view seq s.send_queue (nodes i).send_queue same,
                  some_sent,
                )))
        | inr agrees ↦ cc
      ]

  Reach-IsFair : {nodes now : Nodes} → IsFair nodes → Reach nodes now → IsFair now
  Reach-IsFair fair here = fair
  Reach-IsFair fair (next reach act) = Act-IsFair act (Reach-IsFair fair reach)

  -- The super leaves before the message: well formed, and without a partial or full commit for it.
  abbrev pub IsStart : Nodes → Type 0
  IsStart nodes =
      (i : ℕ)
      → i < n
      → (num_sl (nodes i).config (nodes i).config.bg_id ≡ n)
        × Round2Ok (nodes i)
        × (votes nodes i ≡ 0)
        × (verdicts nodes i ≡ 0)

  -- Let the n super leaves of a group start well formed, with no partial or full commit sent for a view
  -- and sequence number, and dispatch messages of all types in any order, where the preprepare of the
  -- place is dispatched to a super leaf only before it has sent its partial commit for it, and a partial
  -- commit only to one that has counted fewer than were sent, both with the type of their struct. If one
  -- super leaf has sent the full commit, then every one of them has sent its partial commit, once.
  pub full_commit-all_voted :
      {nodes now : Nodes} (i j : ℕ)
      → IsStart nodes
      → Reach nodes now
      → i < n
      → 0 < verdicts now i
      → j < n
      → votes now j ≡ 1
  full_commit-all_voted {nodes} i j start reach l some_sent m =
      (Reach-IsFair
          (record {
            grouped = λ k o. (start k o).0;
            round2_ok = λ k o. (start k o).1;
            voted = λ k o. omega (arith, (start k o).2);
            decided = λ k o sent. absurd (omega (arith, (start k o).3));
          })
          reach).decided
        i l some_sent j m
