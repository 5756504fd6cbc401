-- ===== src/Threads/Interleaving.antt =====
-- ConnManager.cpp, start: the threads of a node, which run in any order. The main thread dispatches a
-- message as one step: the others meanwhile only put into and take from the queues, count the leader's own
-- batches and note when a cycle was submitted.
use mathlib.Core.Path.{subst}
use rcanopus_membership.Prelude.{
  refl, ℕ, suc, ◌≤◌, ◌<◌, ◌≡◌, ap, ◌∙◌, inl, inr, false, true, List, [], ◌∷◌, Option, arith, length,
  length-append,
}
use rcanopus_membership.Outcome.{done, Ensures, Ensures->>=_any}
use rcanopus_membership.Config.{num_sl}
use rcanopus_membership.Message.{Message}
use rcanopus_membership.Message.Wire.{ByteOrder}
use rcanopus_membership.Manager.{ConnManager, Host, QueueElement, Peer, is_round2_leader}
use rcanopus_membership.Threads.{
  Transmission, send_element, sender_step, mock_client_step, mock_client_on_leader_step,
  listener_pipe_step, listener_step,
}
use rcanopus_membership.Invariant.{Setup, setup, set_config, Round2Ok}
use rcanopus_membership.Invariant.Round2.{Handles}
use rcanopus_membership.Invariant.Rounds.{Variant}

-- A node at work: the main thread still dispatches some messages of the juggle queue in this round.
pub record Node : Type 0 where
  pub manager : ConnManager
  pub remaining : ℕ

module _ (v : Variant) (h : Host) (o : ByteOrder) where
  open v use {dispatch, dispatch-Handles, serialize, recv}

  -- A step of one of the threads. The constructors of the client are for a super leaf that leads its
  -- group and for one that does not.
  pub data Step (n : Node) : Node → Type 0 where
    take :
        (e : QueueElement) (rest : List QueueElement) (s : ConnManager)
        → n.remaining ≡ 0
        → n.manager.recv_queue ≡ e ∷ rest
        → dispatch h (record n.manager { recv_queue = rest }) e ≡ done s
        → Step n (record { manager = s; remaining = length s.juggle_queue })
    take_juggled :
        (e : QueueElement) (rest : List QueueElement) (s : ConnManager) (left : ℕ)
        → n.remaining ≡ suc left
        → n.manager.juggle_queue ≡ e ∷ rest
        → dispatch h (record n.manager { juggle_queue = rest }) e ≡ done s
        → Step n (record { manager = s; remaining = left })
    transmit :
        (s : ConnManager) (t : Option Transmission)
        → sender_step (serialize o) n.manager ≡ done (s, t)
        → Step n (record n { manager = s })
    submit :
        (cycle now : ℕ)
        → is_round2_leader n.manager ≡ false
        → Step n (record n { manager = mock_client_step n.manager cycle now })
    submit_on_leader :
        (cycle now : ℕ)
        → is_round2_leader n.manager ≡ true
        → Step n (record n { manager = mock_client_on_leader_step n.manager cycle now })
    wake :
        is_round2_leader n.manager ≡ true
        → Step n (record n { manager = listener_pipe_step n.manager })
    listen :
        (from : Peer) (wire : Message) (s : ConnManager)
        → listener_step (recv o) n.manager from wire ≡ done s
        → Step n (record n { manager = s })

  pub data Reach (n : Node) : Node → Type 0 where
    here : Reach n n
    next : {now then_ : Node} → Reach n now → Step now then_ → Reach n then_

  -- What holds of a node at any time: its setup, the well-formedness of Round 2, and that the juggle
  -- queue has the messages that the main thread goes on to take from it.
  pub record IsSound (x : Setup) (n : Node) : Type 0 where
    pub as_set_up : setup n.manager ≡ x
    pub round2_ok : Round2Ok n.manager
    pub enough_juggled : n.remaining ≤ length n.manager.juggle_queue

  -- What the other threads leave alone.
  abbrev Beside : ConnManager → ConnManager → Type 0
  Beside s t =
      (setup t ≡ setup s)
      × (t.juggle_queue ≡ s.juggle_queue)
      × (t.round2_current_status ≡ s.round2_current_status)
      × (t.temporary_storage_of_preprepare ≡ s.temporary_storage_of_preprepare)

  Beside-refl : (s : ConnManager) → Beside s s
  Beside-refl s = (refl, refl, refl, refl)

  sender_step-Beside : (s : ConnManager) → Ensures (λ r. Beside s r.0) (sender_step (serialize o) s)
  unfolding sender_step send_element
  sender_step-Beside s = ground arith

  listener_step-Beside :
      (s : ConnManager) (from : Peer) (wire : Message)
      → Ensures (Beside s) (listener_step (recv o) s from wire)
  unfolding listener_step
  listener_step-Beside s from wire =
      Ensures->>=_any (Beside s) (recv o wire) _ λ message. Beside-refl s

  -- A step of another thread than the main one.
  Beside-IsSound :
      (x : Setup) (n : Node) (s : ConnManager)
      → Beside n.manager s
      → IsSound x n
      → IsSound x (record n { manager = s })
  Beside-IsSound x n s f sound = record {
    as_set_up = f.0 ∙ sound.as_set_up;
    round2_ok = rw (ap set_config f.0, f.2, f.3) sound.round2_ok;
    enough_juggled = rw f.1 sound.enough_juggled;
  }

  module _ (x : Setup) (pos : 0 < num_sl (set_config x) (set_config x).bg_id) where
    leaves_there : (s : ConnManager) → setup s ≡ x → 0 < num_sl s.config s.config.bg_id
    leaves_there s same = rw (ap set_config same) pos

    dispatched :
        (s t : ConnManager) (e : QueueElement)
        → setup s ≡ x
        → Round2Ok s
        → dispatch h s e ≡ done t
        → Handles e s t
    dispatched s t e same ok returns =
        subst (Ensures (Handles e s)) returns (dispatch-Handles h s e (leaves_there s same) ok)

    kept-le :
        (e : QueueElement) (s t : ConnManager) (left : ℕ)
        → Handles e s t
        → left ≤ length s.juggle_queue
        → left ≤ length t.juggle_queue
    kept-le e s t left handled h = elim (handled.1) [
      | inl used ↦ rw used h
      | inr again ↦ rw again (omega (arith, length-append s.juggle_queue (e ∷ [])))
    ]

    pub Step-IsSound : {n m : Node} → Step n m → IsSound x n → IsSound x m
    unfolding mock_client_step mock_client_on_leader_step listener_pipe_step
    Step-IsSound {n} (take e rest s idle queue returns) sound =
        let handled =
          dispatched (record n.manager { recv_queue = rest }) s e sound.as_set_up sound.round2_ok
            returns in
        record {
          as_set_up = handled.0 ∙ sound.as_set_up;
          round2_ok = handled.2;
          enough_juggled = omega arith;
        }
    Step-IsSound {n} (take_juggled e rest s left more queue returns) sound =
        let before = record n.manager { juggle_queue = rest } in
        let handled = dispatched before s e sound.as_set_up sound.round2_ok returns in
        record {
          as_set_up = handled.0 ∙ sound.as_set_up;
          round2_ok = handled.2;
          enough_juggled =
              kept-le e before s left handled
                (omega (arith, more, ap length queue, sound.enough_juggled));
        }
    Step-IsSound {n} (transmit s t returns) sound =
        Beside-IsSound x n s
          (subst (Ensures (λ r. Beside n.manager r.0)) returns (sender_step-Beside n.manager)) sound
    Step-IsSound {n} (submit cycle now follower) sound =
        Beside-IsSound x n _ (Beside-refl n.manager) sound
    Step-IsSound {n} (submit_on_leader cycle now leader) sound =
        Beside-IsSound x n _ (Beside-refl n.manager) sound
    Step-IsSound {n} (wake leader) sound = Beside-IsSound x n _ (Beside-refl n.manager) sound
    Step-IsSound {n} (listen from wire s returns) sound =
        Beside-IsSound x n s
          (subst (Ensures (Beside n.manager)) returns (listener_step-Beside n.manager from wire))
          sound

    -- Whatever the order in which the threads of a node run, in a group with super leaves, a node that
    -- starts sound stays sound: it keeps the configuration, the verifier and the number of batch
    -- counters, Round 2 is well formed, and the inner loop finds every message that it goes on to take.
    pub Reach-IsSound : {n m : Node} → Reach n m → IsSound x n → IsSound x m
    Reach-IsSound here sound = sound
    Reach-IsSound (next reach step) sound = Step-IsSound step (Reach-IsSound reach sound)
