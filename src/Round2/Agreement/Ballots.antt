-- ===== src/Round2/Agreement/Ballots.antt =====
-- ConnManager.cpp: the partial and full commits for one message of Round 2, and what a step of the
-- abstract machine means for them.
use rcanopus_membership.Prelude.{
  [], false, ◌∷◌, sym, ℕ, ◌+◌, ◌<◌, ◌≡◌, refl, ap, ◌∙◌, ◌==◌, ◌&&◌, ==_iff, if◌then◌else◌, ◌⊎◌, inl,
  inr, List, arith, Bool-cases,
}
use rcanopus_membership.Config.{Config, num_sl}
use rcanopus_membership.Message.{Message, partial_commit, full_commit}
use rcanopus_membership.Manager.{QueueElement}
use rcanopus_membership.Invariant.{is_ballot, ballots}
use rcanopus_membership.Network.{count_messages}
use rcanopus_membership.Round2.Replica.{own_partial_commit, own_full_commit}
use rcanopus_membership.Round2.Agreement.{
  Phase, collecting, Event, proposal, vote, Step, wait, collect, follow, count, complete,
}

-- A sum over the messages that were sent, to which only the partial and full commits add.
abbrev sum_messages : (Message → ℕ) → List Message → ℕ
sum_messages f [] = 0
sum_messages f (m ∷ ms) = f m + sum_messages f ms

count_messages-ballots :
    (f : Message → ℕ) (others : (m : Message) → is_ballot m ≡ false → f m ≡ 0)
    (xs : List QueueElement)
    → count_messages f xs ≡ sum_messages f (ballots xs)
unfolding ballots
count_messages-ballots f others [] = refl
count_messages-ballots f others (x ∷ xs) = elim (Bool-cases (is_ballot x.message)) [
  | inl ballot ↦ rw ballot (omega (arith, count_messages-ballots f others xs))
  | inr other ↦ rw other (omega (arith, others x.message other, count_messages-ballots f others xs))
]

same_count :
    (f : Message → ℕ) (others : (m : Message) → is_ballot m ≡ false → f m ≡ 0)
    (xs ys : List QueueElement)
    → ballots xs ≡ ballots ys
    → count_messages f xs ≡ count_messages f ys
same_count f others xs ys same =
    count_messages-ballots f others xs
    ∙ ap (sum_messages f) same
    ∙ sym (count_messages-ballots f others ys)

-- The message of a view and sequence number.
module _ (view seq : ℕ) where
  abbrev pub is_place : ℕ → ℕ → ℕ
  is_place v q = if (v == view) && (q == seq) then 1 else 0

  -- The partial and full commits for the message among those that were sent.
  abbrev pub vote_of : Message → ℕ
  vote_of (partial_commit p) = is_place p.view p.seq
  vote_of _ = 0

  abbrev pub verdict_of : Message → ℕ
  verdict_of (full_commit p) = is_place p.view p.seq
  verdict_of _ = 0

  abbrev pub counted : Phase → ℕ
  counted (collecting v q k) = if (v == view) && (q == seq) then k else 0
  counted _ = 0

  is_place_cases : (v q : ℕ) → (is_place v q ≡ 0) ⊎ ((v ≡ view) × (q ≡ seq) × (is_place v q ≡ 1))
  is_place_cases v q = elim (Bool-cases (v == view)) [
    | inl same_view ↦ elim (Bool-cases (q == seq)) [
      | inl same_seq ↦
          inr
            ((==_iff v view).0 same_view, (==_iff q seq).0 same_seq, rw (same_view, same_seq) refl)
      | inr other ↦ inl (rw (same_view, other) refl)
    ]
    | inr other ↦ inl (rw other refl)
  ]

  -- What a step means for the message.
  place_voted :
      (v q collector : ℕ) (event : Event) (out : List QueueElement)
      → event ≡ proposal v q collector
      → count_messages vote_of out ≡ is_place v q + 0
      → (count_messages vote_of out ≡ 0)
        ⊎ ((collector : ℕ) × (event ≡ proposal view seq collector)
            × (count_messages vote_of out ≡ 1))
  place_voted v q collector event out ev counted_out = elim (is_place_cases v q) [
    | inl other ↦ inl (omega (arith, counted_out, other))
    | inr (same_view, same_seq, one) ↦ inr (
      collector,
      ev
          ∙ ap (λ v'. proposal v' q collector) same_view
          ∙ ap (λ q'. proposal view q' collector) same_seq,
      omega (arith, counted_out, one),
    )
  ]

  pub Step-voted :
      {c : Config} {event : Event} {p q : Phase} {out : List QueueElement}
      → Step c event p out q
      → (count_messages vote_of out ≡ 0)
        ⊎ ((collector : ℕ) × (event ≡ proposal view seq collector)
            × (count_messages vote_of out ≡ 1))
  unfolding own_partial_commit own_full_commit
  Step-voted (wait same) = inl refl
  Step-voted (collect v q ev from to sent) =
      place_voted v q _ _ _ ev (ap (count_messages vote_of) sent)
  Step-voted (follow v q collector recipient ev other conn from to sent) =
      place_voted v q _ _ _ ev (ap (count_messages vote_of) sent)
  Step-voted (count v q k ev more from to) = inl refl
  Step-voted (complete v q k ev last from to sent) = inl (rw sent (omega arith))

  pub Step-decided :
      {c : Config} {event : Event} {p q : Phase} {out : List QueueElement}
      → Step c event p out q
      → 0 < count_messages verdict_of out
      → (k : ℕ) × (event ≡ vote view seq) × (p ≡ collecting view seq k) × (k + 1 ≡ num_sl c c.bg_id)
  unfolding own_partial_commit own_full_commit
  Step-decided (wait same) l = absurd (omega arith)
  Step-decided (collect v q ev from to sent) l =
      absurd (omega (arith, ap (count_messages verdict_of) sent))
  Step-decided (follow v q collector recipient ev other conn from to sent) l =
      absurd (omega (arith, ap (count_messages verdict_of) sent))
  Step-decided (count v q k ev more from to) l = absurd (omega arith)
  Step-decided (complete v q k ev last from to sent) l = elim (is_place_cases v q) [
    | inl other ↦ absurd (omega (arith, other, ap (count_messages verdict_of) sent))
    | inr (same_view, same_seq, one) ↦ (
      k,
      ev ∙ ap (λ v'. vote v' q) same_view ∙ ap (λ q'. vote view q') same_seq,
      from ∙ ap (λ v'. collecting v' q k) same_view ∙ ap (λ q'. collecting view q' k) same_seq,
      last,
    )
  ]

  vote_of_other : (m : Message) → is_ballot m ≡ false → vote_of m ≡ 0
  vote_of_other m other = ground arith

  verdict_of_other : (m : Message) → is_ballot m ≡ false → verdict_of m ≡ 0
  verdict_of_other m other = ground arith

  pub same_votes :
      (xs ys : List QueueElement)
      → ballots xs ≡ ballots ys
      → count_messages vote_of xs ≡ count_messages vote_of ys
  same_votes = same_count vote_of vote_of_other

  pub same_verdicts :
      (xs ys : List QueueElement)
      → ballots xs ≡ ballots ys
      → count_messages verdict_of xs ≡ count_messages verdict_of ys
  same_verdicts = same_count verdict_of verdict_of_other
