-- ===== src/Round2/Leader/Proposal.antt =====
-- When the leader may propose, and what it sends then.
use rcanopus_membership.Manager.Recipients.{ReachesGroup, broadcast_peers-ReachesGroup}
use native.Mathlib.Nat.{add-zero, mod-eq_of_lt, mod-add-mod}
use rcanopus_membership.Prelude.{
  ℕ, zero, suc, ◌+◌, ◌%◌, ◌<◌, ◌≡◌, refl, ap, sym, ◌∙◌, ◌⊎◌, inl, inr, ◌↔◌, ◌≢◌, true, List, [],
  ◌∷◌, ◌++◌, none, some, get_elem?, append_assoc, append-nil, u16, arith, List-cases, Option-cases,
}
use rcanopus_membership.Config.{Config, num_sl}
use rcanopus_membership.Message.{MessageRound2Preprepare, preprepare}
use rcanopus_membership.Manager.{ConnManager, QueueElement, broadcast_peers}
use rcanopus_membership.Round2.Leader.{all_ahead, batches_ready, round2_ready, broadcast_preprepare}
use rcanopus_membership.Round2.Leader.Envoys.{next_round_robin_lem, next_round_robin-lt}

-- Every entry from the given place on is ahead of what was processed.
abbrev pub Ahead : ℕ → List ℕ → Type 0
Ahead processed received = (i v : ℕ) → get_elem? received i ≡ some v → processed < v

Ahead-of_all_ahead :
    (processed : ℕ) (received : List ℕ)
    → all_ahead processed received ≡ true
    → Ahead processed received
unfolding all_ahead
Ahead-of_all_ahead processed [] h i v e = ground arith
Ahead-of_all_ahead processed (w ∷ received) h zero v e = ground arith
Ahead-of_all_ahead processed (w ∷ received) h (suc i) v e =
    Ahead-of_all_ahead processed received (ground arith) i v e

all_ahead_of_Ahead :
    (processed : ℕ) (received : List ℕ)
    → Ahead processed received
    → all_ahead processed received ≡ true
unfolding all_ahead
all_ahead_of_Ahead processed [] h = refl
all_ahead_of_Ahead processed (w ∷ received) h =
    let first = h 0 w refl in
    let rest = all_ahead_of_Ahead processed received (λ i. h (suc i)) in ground arith

-- The leader has a batch from itself and from every other super leaf that no message of its own has
-- carried yet. The first entry of the counters is not read.
abbrev pub HasBatches : ConnManager → Type 0
HasBatches s =
    (s.leader_batch_processed < s.leader_batch_received_from_self)
    × ((i v : ℕ)
        → get_elem? s.rg_leader_batch_received_from (suc i) ≡ some v
        → s.leader_batch_processed < v)

-- The first part of canStartRound2, for counters with and without an entry.
batches_ready_iff : (s : ConnManager) → (batches_ready s ≡ true) ↔ HasBatches s
unfolding batches_ready
batches_ready_iff s = elim (List-cases s.rg_leader_batch_received_from) [
  | inl empty ↦ rw empty (ground arith)
  | inr (first, others, cons) ↦ rw cons (
    (λ h. (ground arith, Ahead-of_all_ahead s.leader_batch_processed others (ground arith))),
    (λ h. let ahead = all_ahead_of_Ahead s.leader_batch_processed others h.1 in ground arith),
  )
]

-- The leader may start Round 2 exactly when no message is on its way and there is either a message
-- that waits to be replicated or a new batch from every super leaf of the group.
pub round2_ready_iff :
    (s : ConnManager)
    → (round2_ready s ≡ true) ↔ (
        (s.round2_current_status ≡ none)
        × ((s.leader_round2_pending_preprepare_raw ≢ []) ⊎ HasBatches s))
unfolding round2_ready batches_ready
round2_ready_iff s = elim (Option-cases s.round2_current_status) [
  | inl idle ↦ elim (List-cases s.leader_round2_pending_preprepare_raw) [
    | inl empty ↦
        rw (idle, empty)
          (
            (λ h. (refl, inr ((batches_ready_iff s).0 h))),
            λ h. elim h.1 [
              | inl nonempty ↦ absurd (nonempty refl)
              | inr b ↦ (batches_ready_iff s).1 b
            ],
          )
    | inr (p, ps, waiting) ↦ rw (idle, waiting) ((λ h. (refl, inl λ e. ground arith)), λ h. refl)
  ]
  | inr (st, current) ↦ rw current ((λ h. ground arith), (λ h. ground arith))
]

-- The messages that the leader gives a place in its view, one after the other.
unfoldable pub broadcast_all : List MessageRound2Preprepare → ConnManager → ConnManager
broadcast_all [] s = s
broadcast_all (p ∷ ps) s = broadcast_all ps (broadcast_preprepare p s)

-- What is sent of them, from the i-th on: the place in the view is i places after seq, the collector
-- i super leaves after rr, around the group.
unfoldable placed : Config → ℕ → ℕ → ℕ → ℕ → List MessageRound2Preprepare → List QueueElement
placed c view seq rr i [] = []
placed c view seq rr i (p ∷ ps) =
    record {
      up_peers = broadcast_peers c;
      message = preprepare (record p {
        view = view;
        seq = (seq + i) % 65536;
        collector_sl_id = (rr + i) % num_sl c c.bg_id;
      });
    }
    ∷ placed c view seq rr (suc i) ps

placed_next :
    (c : Config) (view seq rr i : ℕ) (ps : List MessageRound2Preprepare)
    → placed c view (u16 (seq + 1)) ((rr + 1) % num_sl c c.bg_id) i ps
      ≡ placed c view seq rr (suc i) ps
unfolding placed
placed_next c view seq rr i [] = refl
placed_next c view seq rr i (p ∷ ps) =
    let place : ((seq + 1) % 65536 + i) % 65536 ≡ (seq + suc i) % 65536 = omega arith in
    let collector : ((rr + 1) % num_sl c c.bg_id + i) % num_sl c c.bg_id
        ≡ (rr + suc i) % num_sl c c.bg_id =
      mod-add-mod (rr + 1) (num_sl c c.bg_id) i
      ∙ ap (λ (n : ℕ). n % num_sl c c.bg_id) (omega arith) in
    rw (place, collector, placed_next c view seq rr (suc i) ps) refl

broadcast_all-placed :
    (ps : List MessageRound2Preprepare) (s : ConnManager)
    → num_sl s.config s.config.bg_id < 65536
    → s.leader_collector_rr < num_sl s.config s.config.bg_id
    → s.round2_next_seq < 65536
    → (broadcast_all ps s).send_queue
      ≡ s.send_queue
        ++ placed s.config s.round2_next_view s.round2_next_seq s.leader_collector_rr 0 ps
unfolding broadcast_all placed broadcast_preprepare
broadcast_all-placed [] s small turn place = sym (append-nil s.send_queue)
broadcast_all-placed (p ∷ ps) s small turn place =
    broadcast_all-placed ps (broadcast_preprepare p s) small
      (next_round_robin-lt (num_sl s.config s.config.bg_id) s.leader_collector_rr small turn)
      (omega arith)
    ∙ rw
        (
          append_assoc,
          next_round_robin_lem (num_sl s.config s.config.bg_id) s.leader_collector_rr small turn,
          placed_next s.config s.round2_next_view s.round2_next_seq s.leader_collector_rr 0 ps,
          add-zero s.round2_next_seq,
          add-zero s.leader_collector_rr,
          mod-eq_of_lt place,
          mod-eq_of_lt turn,
        )
        refl

-- What is sent of the messages, each to every super leaf of the group once.
abbrev pub ArePlaced :
    Config → ℕ → ℕ → ℕ → ℕ → List MessageRound2Preprepare → List QueueElement → Type 0
ArePlaced c view seq rr i [] [] = Unit
ArePlaced c view seq rr i (p ∷ ps) (e ∷ es) =
    ReachesGroup c e.up_peers
    × (e.message
        ≡ preprepare (record p {
          view = view;
          seq = (seq + i) % 65536;
          collector_sl_id = (rr + i) % num_sl c c.bg_id;
        }))
    × ArePlaced c view seq rr (suc i) ps es
ArePlaced c view seq rr i _ _ = ⊥

placed-ArePlaced :
    (c : Config) (view seq rr i : ℕ) (ps : List MessageRound2Preprepare)
    → c.sl_id < num_sl c c.bg_id
    → ArePlaced c view seq rr i ps (placed c view seq rr i ps)
unfolding placed
placed-ArePlaced c view seq rr i [] place = tt
placed-ArePlaced c view seq rr i (p ∷ ps) place =
    (broadcast_peers-ReachesGroup c place, refl, placed-ArePlaced c view seq rr (suc i) ps place)

-- If the leader has its place in its group, of fewer than 2^16 super leaves, the next collector is in
-- the group and the next sequence number has 16 bits, the leader gives the messages that it proposes one
-- after the other consecutive sequence numbers, modulo 2^16, and the super leaves of its group in turn
-- as their collectors, itself included, and sends each to every super leaf of the group, itself
-- included, once, and to nobody else, in this order and behind what waits to be sent.
pub broadcast_all_lem :
    (ps : List MessageRound2Preprepare) (s : ConnManager)
    → s.config.sl_id < num_sl s.config s.config.bg_id
    → num_sl s.config s.config.bg_id < 65536
    → s.leader_collector_rr < num_sl s.config s.config.bg_id
    → s.round2_next_seq < 65536
    → (sent : List QueueElement) × ((broadcast_all ps s).send_queue ≡ s.send_queue ++ sent)
      × ArePlaced s.config s.round2_next_view s.round2_next_seq s.leader_collector_rr 0 ps sent
broadcast_all_lem ps s member small turn place = (
  placed s.config s.round2_next_view s.round2_next_seq s.leader_collector_rr 0 ps,
  broadcast_all-placed ps s small turn place,
  placed-ArePlaced s.config s.round2_next_view s.round2_next_seq s.leader_collector_rr 0 ps member,
)
