-- ===== src/Connections/Accept.antt =====
-- ConnManager.cpp: the loop of listenForIncomingConnections that accepts the connections.
pub mod Callers
use rcanopus_membership.Prelude.{
  ℕ, ltb, ◌==◌, Bool, true, false, if◌then◌else◌, List, [], ◌∷◌, Option, none, some, length,
  get_elem?, set,
}
use rcanopus_membership.Outcome.{
  Outcome, done, thrown, fail_fast, undefined, ◌>>=◌, Exception, invalid_type, invalid_version,
  exception_socket_opt,
}
use rcanopus_membership.Message.{Message, MessageHello, hello, message_header, message_hello}

-- fdSocket of rgrgConnection; none before it is set.
abbrev pub Sockets : Type 0
Sockets = List (List (Option ℕ))

-- A call of accept: -1, or a socket, with whether setsockopt succeeds on it and what
-- recvMessage_caller_free_mem gives on it, one call after the other.
pub data Accepted : Type 0 where
  refused : Accepted
  accepted : ℕ → Bool → List (Outcome Message) → Accepted

-- The cast to MessageHello.
unfoldable pub as_hello : Message → Outcome MessageHello
as_hello m = elim m [ hello p ↦ done p | _ ↦ undefined ]

-- Whether the loop goes on after an exception; otherwise it reads the buffer, which is nullptr.
unfoldable pub is_skipped : Exception → Bool
is_skipped e = elim e [ invalid_type ↦ true | invalid_version ↦ true | _ ↦ false ]

-- Loop 1; none while it waits for another message.
unfoldable pub read_hello : List (Outcome Message) → Option (Outcome MessageHello)
unfolding as_hello is_skipped message_header
read_hello [] = none
read_hello (done m ∷ rest) =
    let later = read_hello rest in
    if (message_header m).msg_type == message_hello then some (as_hello m) else later
read_hello (thrown e ∷ rest) =
    let later = read_hello rest in if is_skipped e then later else some undefined
read_hello (fail_fast ∷ rest) = some fail_fast
read_hello (undefined ∷ rest) = some undefined

-- rgrgConnection[bg][sl].fdSocket = fd.
unfoldable pub set_socket : Sockets → ℕ → ℕ → ℕ → Outcome Sockets
set_socket t bg sl fd = elim (get_elem? t bg) [
  | none ↦ undefined
  | some row ↦ if ltb sl (length row) then done (set t bg (set row sl (some fd))) else undefined
]

-- A round of Loop 0.
unfoldable pub accept_one : Sockets → Accepted → Option (Outcome Sockets)
unfolding read_hello set_socket
accept_one t refused = some (done t)
accept_one t (accepted fd no_delay messages) =
    if no_delay
    then elim (read_hello messages) [
      | none ↦ none
      | some greeting ↦ some (greeting >>= λ p. set_socket t p.bg_id p.sl_id fd)
    ]
    else some (thrown exception_socket_opt)

-- Loop 0, with a call of accept for every connection that is expected.
unfoldable pub accept_all : Sockets → List Accepted → Option (Outcome Sockets)
unfolding accept_one
accept_all t [] = some (done t)
accept_all t (a ∷ rest) = elim (accept_one t a) [
  | none ↦ none
  | some o ↦ elim o [
    | done t' ↦ accept_all t' rest
    | thrown e ↦ some (thrown e)
    | fail_fast ↦ some fail_fast
    | undefined ↦ some undefined
  ]
]
