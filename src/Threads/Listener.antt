-- ===== src/Threads/Listener.antt =====
-- ConnManager.cpp: the poll slots that the constructor fills, and a round of listener over what poll
-- reports of them.
pub mod Steps
use rcanopus_membership.Prelude.{
  ℕ, zero, suc, ◌+◌, ◌%◌, Bool, false, ◌==◌, ltb, if◌then◌else◌, List, [], ◌∷◌, Option, none, some,
  get_elem?,
}
use rcanopus_membership.Const.{pipe_read_buffer}
use rcanopus_membership.Outcome.{
  Outcome, done, thrown, undefined, exception_recv, ◌>>=◌, ◌>>◌, debug_throw,
}
use rcanopus_membership.Config.{Config}
use rcanopus_membership.Connections.{is_own_place, all_leaves}
use rcanopus_membership.Message.{Message}
use rcanopus_membership.Manager.{ConnManager, Host, peer, is_round2_leader}
use rcanopus_membership.Threads.{listener_pipe_step, listener_step}

-- numOfRemotePeers, as the first loop over the super leaves counts it.
unfoldable pub count_remote : Config → List (ℕ × ℕ) → ℕ
unfolding is_own_place
count_remote c [] = 0
count_remote c ((bg, sl) ∷ rest) =
    let n = count_remote c rest in if is_own_place c bg sl then n else suc n

unfoldable pub num_of_remote_peers : Config → ℕ
unfolding all_leaves count_remote
num_of_remote_peers c = count_remote c (all_leaves c)

-- rgPollSlotToConnection, as the second loop fills it.
unfoldable pub remote_slots : Config → List (ℕ × ℕ) → List (ℕ × ℕ)
unfolding is_own_place
remote_slots c [] = []
remote_slots c ((bg, sl) ∷ rest) =
    let slots = remote_slots c rest in if is_own_place c bg sl then slots else (bg, sl) ∷ slots

unfoldable pub poll_slot_to_connection : Config → List (ℕ × ℕ)
unfolding all_leaves remote_slots
poll_slot_to_connection c = remote_slots c (all_leaves c)

-- The number of slots that listener polls: the leader's pipe comes behind the connections.
unfoldable pub num_fd : ConnManager → ℕ
unfolding num_of_remote_peers is_round2_leader
num_fd s =
    let peers = num_of_remote_peers s.config in if is_round2_leader s then suc peers else peers

-- What a read of the pipe gives: nothing for now, an error, or a number of bytes.
pub data ReadResult : Type 0 where
  would_block read_error : ReadResult
  read_bytes : ℕ → ReadResult

-- The loop that empties the pipe. Every round ends it or throws, also when the buffer is full; an error
-- is -1, which is not less than the size of the buffer when it is compared as a size_t.
unfoldable pub drain_pipe : ReadResult → Outcome (Unit {0})
drain_pipe would_block = done tt
drain_pipe read_error = thrown exception_recv
drain_pipe (read_bytes n) = if ltb n pipe_read_buffer then done tt else thrown exception_recv

-- What poll reports of a slot, and what can be received from it: a message, or the bytes of the pipe.
pub record PollEvent : Type 0 where
  pub revents : ℕ
  pub wire : Message
  pub read : ReadResult

-- A slot in the loop of listener; `recv` is the switch of recvMessage_caller_free_mem. By the precedence of != the test for POLLIN is one of the lowest bit,
-- and so is the one for POLLHUP, whose branch is never taken.
unfoldable pub listener_slot :
    Host → (Message → Outcome Message) → ConnManager → ℕ → PollEvent → Outcome ConnManager
unfolding num_of_remote_peers poll_slot_to_connection drain_pipe
listener_slot h recv s i event =
    if event.revents == 0
    then done s
    else if event.revents % 2 == 1
    then (if i == num_of_remote_peers s.config
        then (do drain_pipe event.read; done (listener_pipe_step s))
        else elim (get_elem? (poll_slot_to_connection s.config) i) [
          | none ↦ undefined
          | some (bg, sl) ↦ listener_step recv s (peer bg sl) event.wire
        ])
    else (do debug_throw h.debug_failfast false; done s)

-- The loop of listener from slot i on.
unfoldable pub listener_round :
    Host → (Message → Outcome Message) → ConnManager → ℕ → List PollEvent → Outcome ConnManager
unfolding listener_slot
listener_round h recv s i [] = done s
listener_round h recv s i (event ∷ events) = do
  s' ← listener_slot h recv s i event
  listener_round h recv s' (i + 1) events
