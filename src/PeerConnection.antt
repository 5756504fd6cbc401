-- ===== src/PeerConnection.antt =====
-- PeerConnection.cpp: the loops of send and recv. ::send and ::recv are a parameter, which gives none
-- where they return -1. The value that send is declared to return is left out.
pub mod Stream
use rcanopus_membership.Prelude.{
  ℕ, zero, suc, ◌-◌, List, [], ◌∷◌, ◌++◌, Option, none, some, length, drop,
}
use rcanopus_membership.Outcome.{Outcome, done, thrown, exception_send, exception_recv}

-- A `Connection` is what the kernel holds for a socket.
pub record Socket : Type 1 where
  pub Connection : Type 0
  pub send : Connection → List ℕ → Option ℕ × Connection
  pub recv : Connection → ℕ → Option (List ℕ) × Connection

module _ (s : Socket) where
  open s use {Connection, send, recv}

  -- PeerConnection::send with the bytes that are left; none if the loop needs more rounds.
  unfoldable pub send_bytes : ℕ → Connection → List ℕ → Option (Outcome Connection)
  send_bytes k c [] = some (done c)
  send_bytes zero c (b ∷ bs) = none
  send_bytes (suc k) c (b ∷ bs) =
      let (o, c') = send c (b ∷ bs) in
      elim o [
        | none ↦ some (thrown exception_send)
        | some ret ↦ send_bytes k c' (drop ret (b ∷ bs))
      ]

  -- PeerConnection::recv with the number of bytes that are missing and what was received.
  unfoldable pub recv_bytes : ℕ → Connection → ℕ → List ℕ → Option (Outcome (List ℕ × Connection))
  recv_bytes k c zero dest = some (done (dest, c))
  recv_bytes zero c (suc n) dest = none
  recv_bytes (suc k) c (suc n) dest =
      let (o, c') = recv c (suc n) in
      elim o [
        | none ↦ some (thrown exception_recv)
        | some bs ↦ recv_bytes k c' (suc n - length bs) (dest ++ bs)
      ]
