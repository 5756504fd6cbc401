-- ===== src/Threads/Listener/Steps.antt =====
-- ConnManager.cpp, listener: a round is a run of the steps of the threads, and stays within the slots.
use rcanopus_membership.Prelude.{
  ℕ, suc, ◌+◌, ◌≤◌, ◌<◌, ◌≡◌, ◌≢◌, ◌%◌, refl, ◌∙◌, inl, inr, true, false, ◌==◌, ==_iff,
  if◌then◌else◌, Bool-cases, List, [], ◌∷◌, ◌++◌, none, some, arith, length, length-append,
  get_elem?, get_elem?-lt,
}
use rcanopus_membership.Outcome.{Outcome, done, undefined, Returns, Returns-Ensures, Ensures-all}
use rcanopus_membership.Config.{Config}
use rcanopus_membership.Connections.{all_leaves}
use rcanopus_membership.Message.{Message}
use rcanopus_membership.Message.Wire.{ByteOrder}
use rcanopus_membership.Manager.{ConnManager, Host, Peer, QueueElement, peer, is_round2_leader}
use rcanopus_membership.Invariant.Rounds.{Variant}
use rcanopus_membership.Threads.{listener_pipe_step, listener_step}
use rcanopus_membership.Threads.Interleaving.{Node, Reach, here, next, wake, listen}
use rcanopus_membership.Threads.Listener.{
  count_remote, num_of_remote_peers, remote_slots, poll_slot_to_connection, num_fd, PollEvent,
  drain_pipe, listener_slot, listener_round,
}

length-remote_slots :
    (c : Config) (leaves : List (ℕ × ℕ)) → length (remote_slots c leaves) ≡ count_remote c leaves
unfolding remote_slots count_remote
length-remote_slots c [] = refl
length-remote_slots c ((bg, sl) ∷ rest) = ground (arith, length-remote_slots c rest)

slots_counted : (c : Config) → length (poll_slot_to_connection c) ≡ num_of_remote_peers c
unfolding poll_slot_to_connection num_of_remote_peers
slots_counted c = length-remote_slots c (all_leaves c)

listener_step-received :
    (recv : Message → Outcome Message) (s : ConnManager) (from : Peer) (wire : Message)
    → Returns (recv wire)
    → (m : Message) × (listener_step recv s from wire
        ≡ done (record s {
          recv_queue = s.recv_queue ++ record { up_peers = from ∷ []; message = m } ∷ [];
        }))
unfolding listener_step
listener_step-received recv s from wire r =
    let (m, e, _) =
      Returns-Ensures (λ _. Unit {0}) (recv wire) r
        (Ensures-all (λ _. Unit {0}) (recv wire) (λ _. tt)) in
    (m, rw e refl)

-- The number of readable slots.
abbrev pub count_readable : List PollEvent → ℕ
count_readable [] = 0
count_readable (event ∷ events) =
    let n = count_readable events in if event.revents % 2 == 1 then suc n else n

-- If slot i is readable, the message that can be received on its connection converts, or the read of
-- the pipe neither fails nor fills the buffer.
abbrev pub Receives : (Message → Outcome Message) → Config → ℕ → PollEvent → Type 0
Receives recv c i event =
    ((event.revents % 2 == 1) ≡ true → i ≢ num_of_remote_peers c → Returns (recv event.wire))
    × ((event.revents % 2 == 1) ≡ true
        → i ≡ num_of_remote_peers c
        → Returns (drain_pipe event.read))

abbrev pub ReceivesAll : (Message → Outcome Message) → Config → ℕ → List PollEvent → Type 0
ReceivesAll recv c i [] = Unit
ReceivesAll recv c i (event ∷ events) = Receives recv c i event × ReceivesAll recv c (i + 1) events

module _ (v : Variant) (h : Host) (o : ByteOrder) (n : Node) where
  -- From a node in a run to one with more elements in the queue.
  abbrev Polled : ConnManager → ℕ → ConnManager → Type 0
  Polled s k t =
      Reach v h o n (record n { manager = t })
      × (t.config ≡ s.config)
      × (length t.recv_queue ≡ length s.recv_queue + k)

  one_more : (q : List QueueElement) (e : QueueElement) → length (q ++ e ∷ []) ≡ length q + 1
  one_more q e = length-append q (e ∷ [])

  connection-Polled :
      (s : ConnManager) (i : ℕ) (wire : Message)
      → Reach v h o n (record n { manager = s })
      → i < num_of_remote_peers s.config
      → Returns (v.recv o wire)
      → (t : ConnManager) × ((elim (get_elem? (poll_slot_to_connection s.config) i) [
        | none ↦ undefined
        | some (bg, sl) ↦ listener_step (v.recv o) s (peer bg sl) wire
      ])
          ≡ done t)
        × Polled s 1 t
  connection-Polled s i wire reach inside converts =
      let ((bg, sl), there) =
        get_elem?-lt (poll_slot_to_connection s.config) i
          (omega (arith, slots_counted s.config, inside)) in
      let (m, received) = listener_step-received (v.recv o) s (peer bg sl) wire converts in
      (
        _,
        rw there received,
        (next reach (listen (peer bg sl) wire _ received), refl, one_more s.recv_queue _),
      )

  pipe-Polled :
      (s : ConnManager)
      → Reach v h o n (record n { manager = s })
      → is_round2_leader s ≡ true
      → Polled s 1 (listener_pipe_step s)
  unfolding listener_pipe_step
  pipe-Polled s reach leads = (next reach (wake leads), refl, one_more s.recv_queue _)

  -- A slot that listener polls, of a node without DEBUG_FAILFAST.
  slot-Polled :
      (s : ConnManager) (i : ℕ) (event : PollEvent)
      → Reach v h o n (record n { manager = s })
      → i < num_fd s
      → Receives (v.recv o) s.config i event
      → (t : ConnManager) × (listener_slot
            (record h { debug_failfast = false })
            (v.recv o)
            s
            i
            event
          ≡ done t)
        × Polled s (count_readable (event ∷ [])) t
  unfolding listener_slot num_fd
  slot-Polled s i event reach polled receives = elim (Bool-cases (event.revents == 0)) [
    | inl quiet ↦ (s, rw quiet refl, (reach, refl, ground (arith, quiet)))
    | inr some_bits ↦ elim (Bool-cases (event.revents % 2 == 1)) [
      | inl readable ↦ elim (Bool-cases (i == num_of_remote_peers s.config)) [
        | inl at_pipe ↦
            let (_, drained, _) =
              Returns-Ensures (λ _. Unit {0}) (drain_pipe event.read)
                (receives.1 readable ((==_iff i (num_of_remote_peers s.config)).0 at_pipe))
                (Ensures-all (λ _. Unit {0}) (drain_pipe event.read) (λ _. tt)) in
            (
              listener_pipe_step s,
              rw (some_bits, readable, at_pipe, drained) refl,
              rw readable (pipe-Polled s reach (ground (arith, polled, at_pipe))),
            )
        | inr connected ↦
            let away : i ≢ num_of_remote_peers s.config = λ e. ground (arith, connected, e) in
            let (t, e, rest) =
              connection-Polled s i event.wire reach (ground (arith, polled, connected))
                (receives.0 readable away) in
            (t, rw (some_bits, readable, connected) e, rw readable rest)
      ]
      | inr other ↦ (s, rw (some_bits, other) refl, (reach, refl, rw other (omega arith)))
    ]
  ]

  same_slots : (s t : ConnManager) → t.config ≡ s.config → num_fd t ≡ num_fd s
  unfolding num_fd is_round2_leader
  same_slots s t same = rw same refl

  round-Polled :
      (events : List PollEvent) (s : ConnManager) (i : ℕ)
      → Reach v h o n (record n { manager = s })
      → i + length events ≤ num_fd s
      → ReceivesAll (v.recv o) s.config i events
      → (t : ConnManager) × (listener_round
            (record h { debug_failfast = false })
            (v.recv o)
            s
            i
            events
          ≡ done t)
        × Polled s (count_readable events) t
  unfolding listener_round
  round-Polled [] s i reach polled receives = (s, refl, (reach, refl, omega arith))
  round-Polled (event ∷ events) s i reach polled receives =
      let (s', e, (reach', same, more)) =
        slot-Polled s i event reach (omega (arith, polled)) receives.0 in
      let (t, e', (reach'', same', more')) =
        round-Polled events s' (i + 1) reach' (omega (arith, polled, same_slots s s' same))
          (rw same receives.1) in
      (t, rw e e', (reach'', same' ∙ same, ground (arith, more, more')))

-- Let a node without DEBUG_FAILFAST be at any point of a run of a variant. If poll reports of no more
-- slots than listener polls, every message that can be received on a readable connection converts, and
-- a read of the readable pipe gives less than its buffer holds or nothing for now, then a round of
-- listener returns, without an access beyond its slots. What it does is a run of the steps of the
-- threads, and it puts one element for each readable slot into the queue.
pub listener_round-Reach :
    (v : Variant) (h : Host) (o : ByteOrder) (n : Node) (events : List PollEvent)
    → length events ≤ num_fd n.manager
    → ReceivesAll (v.recv o) n.manager.config 0 events
    → (t : ConnManager) × (listener_round
          (record h { debug_failfast = false })
          (v.recv o)
          n.manager
          0
          events
        ≡ done t)
      × Reach v h o n (record n { manager = t })
      × (length t.recv_queue ≡ length n.manager.recv_queue + count_readable events)
listener_round-Reach v h o n events polled receives =
    let (t, e, (reach, same, more)) =
      round-Polled v h o n events n.manager 0 here (omega (arith, polled)) receives in
    (t, e, reach, more)
