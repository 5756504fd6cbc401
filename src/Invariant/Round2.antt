-- ===== src/Invariant/Round2.antt =====
-- The calls of Round 2 keep what holds of a node between two messages.
pub mod Replica
use rcanopus_membership.Prelude.{
  ltb, set, ap, ℕ, List, length, length-set, ◌∙◌, ◌+◌, ◌<◌, ◌≡◌, refl, Bool, ◌⊎◌, inl, inr, true,
  false, [], ◌∷◌, ◌++◌, Option, none, some, arith, ◌==◌, not, ◌||◌, Option-cases,
}
use rcanopus_membership.Outcome.{
  Ensures, Ensures->>=, Ensures-mono, Ensures-debug_throw, Ensures->>=_any, Ensures-if,
  Ensures-debug_throw_else_return,
}
use rcanopus_membership.Config.{Config, num_bg, num_sl}
use rcanopus_membership.Message.{
  Message, preprepare, partial_commit, MessageRound2Preprepare, MessageRound2Request,
  MessageRound2PartialCommit, message_round2_preprepare,
}
use rcanopus_membership.Manager.{
  state_code, state_code-injective, round2_collector_waiting_for_partialcommits, ConnManager, Host,
  CycleStatus, CycleState, QueueElement, is_none, is_round2_leader, round2_start_status, at,
  is_state, round2_waiting_for_preprepare,
}
use rcanopus_membership.Round2.Leader.{
  take_preprepare, create_preprepare, broadcast_preprepare, leader_round2_send_preprepare,
  start_round2_if_possible, can_start_round2, dispatcher_round2_request,
}
use rcanopus_membership.Round2.Replica.{
  take_up_preprepare, preprepare_in_status, dispatcher_round2_preprepare, is_later,
  verify_partial_commit, count_partial_commit, partial_commit_in_status,
  dispatcher_round2_partial_commit,
}
use rcanopus_membership.Invariant.{
  is_ballot, ballots-send_other, ballots, sends, setup, set_config, Frame, Frame-trans, Round2Ok,
  PhaseOk, Holds,
}

-- A call that takes no message: the setup and the juggle queue stay, and the node is well formed.
abbrev pub Stays : ConnManager → ConnManager → Type 0
Stays s t = (setup t ≡ setup s) × (t.juggle_queue ≡ s.juggle_queue) × Round2Ok t

-- One that sends no partial or full commit.
abbrev pub Keeps : ConnManager → ConnManager → Type 0
Keeps s t =
    (setup t ≡ setup s)
    × (t.juggle_queue ≡ s.juggle_queue)
    × Round2Ok t
    × (ballots t.send_queue ≡ ballots s.send_queue)

-- The messages that are answered by a partial or full commit.
abbrev pub is_agreement : Message → Bool
is_agreement (preprepare p) = true
is_agreement (partial_commit p) = true
is_agreement _ = false

-- The handling of an element: it is used up, or put back as it was behind the juggled ones; and a
-- partial or full commit is only sent for a preprepare or a partial commit.
abbrev pub Handles : QueueElement → ConnManager → ConnManager → Type 0
Handles e s t =
    (setup t ≡ setup s)
    × ((t.juggle_queue ≡ s.juggle_queue) ⊎ (t.juggle_queue ≡ s.juggle_queue ++ e ∷ []))
    × Round2Ok t
    × ((ballots t.send_queue ≡ ballots s.send_queue) ⊎ (is_agreement e.message ≡ true))

pub Keeps-of_Frame : (s t : ConnManager) → Round2Ok s → Frame s t → Keeps s t
Keeps-of_Frame s t ok f = (f.0, f.1, rw (ap set_config f.0, f.2, f.3) ok, f.4)

pub Handles-of_Keeps : (e : QueueElement) (s t : ConnManager) → Keeps s t → Handles e s t
Handles-of_Keeps e s t k = (k.0, inl k.1, k.2, inl k.3)

pub Handles-of_Stays :
    (e : QueueElement) (s t : ConnManager)
    → is_agreement e.message ≡ true
    → Stays s t
    → Handles e s t
Handles-of_Stays e s t agrees k = (k.0, inl k.1, k.2, inr agrees)

broadcast_preprepare-Frame :
    (p : MessageRound2Preprepare) (s : ConnManager) → Frame s (broadcast_preprepare p s)
unfolding broadcast_preprepare
broadcast_preprepare-Frame p s = (refl, refl, refl, refl, ballots-send_other s.send_queue _ refl)

take_preprepare-Frame :
    (h : Host) (s : ConnManager) → Ensures (λ r. Frame s r.1) (take_preprepare h s)
unfolding take_preprepare create_preprepare
take_preprepare-Frame h s = grind sends

abbrev pub started : ConnManager → ConnManager
started s = record s { round2_current_status = some (round2_start_status (num_bg s.config)) }

pub started-Round2Ok :
    (s : ConnManager) → Round2Ok s → is_none s.round2_current_status ≡ true → Round2Ok (started s)
unfolding round2_start_status
started-Round2Ok s ok idle = ground arith

leader_round2_send_preprepare-Keeps :
    (h : Host) (s : ConnManager)
    → Round2Ok s
    → Ensures (Keeps s) (leader_round2_send_preprepare h s)
unfolding leader_round2_send_preprepare
leader_round2_send_preprepare-Keeps h s ok =
    Ensures-debug_throw (Keeps s) h.debug_failfast (is_round2_leader s) _ (
      Ensures->>=_any (Keeps s) (can_start_round2 h s) _ λ ready.
        Ensures-debug_throw (Keeps s) h.debug_failfast ready _ (
          Ensures-if (Keeps s) (is_none s.round2_current_status) _ _
            (λ idle.
              Ensures->>= (λ r. Frame (started s) r.1) (Keeps s) (take_preprepare h (started s)) _
                (take_preprepare-Frame h (started s))
                λ r f.
                  Keeps-of_Frame (started s) (broadcast_preprepare r.0 r.1)
                    (started-Round2Ok s ok idle)
                    (Frame-trans (started s) r.1 (broadcast_preprepare r.0 r.1) f
                      (broadcast_preprepare-Frame r.0 r.1)))
            (λ _. tt)))

pub start_round2_if_possible-Keeps :
    (h : Host) (s : ConnManager) → Round2Ok s → Ensures (Keeps s) (start_round2_if_possible h s)
unfolding start_round2_if_possible
start_round2_if_possible-Keeps h s ok = Ensures->>=_any (Keeps s) (can_start_round2 h s) _ λ ready.
    Ensures-if (Keeps s) ready _ _ (λ _. leader_round2_send_preprepare-Keeps h s ok)
      (λ _. (refl, refl, ok, refl))

-- A batch is counted, and Round 2 starts if it can.
counted-Handles :
    (h : Host) (s : ConnManager) (e : QueueElement) (batches : List ℕ)
    → Round2Ok s
    → length batches ≡ length s.rg_leader_batch_received_from
    → Ensures
        (Handles e s)
        (start_round2_if_possible h (record s { rg_leader_batch_received_from = batches }))
counted-Handles h s e batches ok same =
    let s' = record s { rg_leader_batch_received_from = batches } in
    Ensures-mono (Keeps s') (Handles e s) (start_round2_if_possible h s')
      (start_round2_if_possible-Keeps h s' ok)
      λ t k. (k.0 ∙ ap (λ (n : ℕ). (s.config, s.round2_verifier, n)) same, inl k.1, k.2, inl k.3)

pub dispatcher_round2_request-Handles :
    (h : Host) (s : ConnManager) (e : QueueElement) (p : MessageRound2Request)
    → is_ballot e.message ≡ false
    → Round2Ok s
    → Ensures (Handles e s) (dispatcher_round2_request h s e p)
unfolding dispatcher_round2_request
dispatcher_round2_request-Handles h s e p other ok =
    Ensures-if (Handles e s) (is_round2_leader s) _ _
      (λ _.
        Ensures-debug_throw_else_return (Handles e s) h.debug_failfast
          (ltb p.sender (num_sl s.config s.config.bg_id)) s _ (refl, inl refl, ok, inl refl)
          λ _.
            Ensures->>=_any (Handles e s) (at s.rg_leader_batch_received_from p.sender) _
              λ received.
                counted-Handles h s e (set s.rg_leader_batch_received_from p.sender (received + 1))
                  ok (length-set s.rg_leader_batch_received_from p.sender (received + 1)))
      (λ _.
        Ensures-debug_throw (Handles e s) h.debug_failfast false _
          (refl, inl refl, ok, inl (ballots-send_other s.send_queue e other)))
