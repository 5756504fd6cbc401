-- ===== src/Scenarios/Connections.antt =====
-- ConnManager.cpp, PeerConnection.cpp: connections at a concrete configuration and a concrete socket.
use rcanopus_membership.Prelude.{
  ℕ, suc, ◌<◌, ◌≤◌, ◌≡◌, refl, List, [], ◌∷◌, ◌++◌, none, some, arith, length, map, inl, take, drop,
}
use rcanopus_membership.Outcome.{done}
use rcanopus_membership.Config.{Config, num_bg, num_sl}
use rcanopus_membership.Connections.{all_leaves, expected_connections}
use rcanopus_membership.Connections.Callers.{callers_among, expected_connections-callers}
use rcanopus_membership.Message.{MessageHello}
use rcanopus_membership.Scenarios.{two_groups, header}
use rcanopus_membership.Connections.Accept.{Sockets, accept_all}
use rcanopus_membership.Connections.Accept.Callers.{
  Caller, greeting, socket_at, IsApart, AreConnected, accept_all-AreConnected,
}
use rcanopus_membership.PeerConnection.{Socket, send_bytes, recv_bytes}
use rcanopus_membership.PeerConnection.Stream.{ByteStream, recv_bytes_closed, recv-send}

-- The second super leaf of the first group.
abbrev second : Config
second = record two_groups { sl_id = 1 }

-- The third and the fourth of the group and all of the other one call.
five_expected : expected_connections second ≡ 5
unfolding expected_connections
five_expected = refl

expected_connections-callers_example :
    expected_connections second ≡ length (callers_among second (all_leaves second))
unfolding num_bg num_sl
expected_connections-callers_example =
    expected_connections-callers second (omega arith) (omega arith)

-- A socket that moves one byte at a time.
abbrev byte_by_byte : Socket
byte_by_byte = record {
  Connection = List ℕ;
  send = λ c bs. (some 1, c ++ take 1 bs);
  recv = λ c n. (some (take 1 c), drop 1 c);
}

first_byte :
    (c : List ℕ) (n : ℕ)
    → 0 < length c
    → (bs : List ℕ) × (c' : List ℕ) × (byte_by_byte.recv c (suc n) ≡ (some bs, c'))
      × (0 < length bs)
      × (length bs ≤ suc n)
      × (c ≡ bs ++ c')
first_byte [] n h = absurd (omega arith)
first_byte (b ∷ c) n h = (b ∷ [], c, refl, omega arith, omega arith, refl)

abbrev bytes_in_order : ByteStream byte_by_byte
bytes_in_order = record {
  under_way = λ c. c;
  send-takes = λ c b bs. (1, c ++ b ∷ [], refl, omega arith, refl);
  recv-gives = first_byte;
}

recv-send_example :
    (c' : List ℕ) × (c2 : List ℕ) × (send_bytes byte_by_byte 3 [] (7 ∷ 8 ∷ 9 ∷ []) ≡ some (done c'))
    × (recv_bytes byte_by_byte 3 c' 3 [] ≡ some (done (7 ∷ 8 ∷ 9 ∷ [], c2)))
    × (c2 ≡ [])
recv-send_example = recv-send byte_by_byte bytes_in_order 3 [] (7 ∷ 8 ∷ 9 ∷ []) refl (omega arith)

-- Its connection is closed when no byte is left.
recv_bytes_closed_example : recv_bytes byte_by_byte 5 [] 2 [] ≡ none
recv_bytes_closed_example = recv_bytes_closed byte_by_byte [] (λ n. refl) 5 1 []

-- A node of groups of two and one, called by the other group's super leaf first.
abbrev says_hello : ℕ → ℕ → MessageHello
says_hello bg sl = record { header = header 1 4; bg_id = bg; sl_id = sl }

abbrev two_callers : List Caller
two_callers =
    record { hello_message = says_hello 1 0; fd = 9 }
    ∷ record { hello_message = says_hello 0 1; fd = 8 }
    ∷ []

abbrev no_sockets : Sockets
no_sockets = (none ∷ none ∷ []) ∷ (none ∷ []) ∷ []

accept_all-AreConnected_example :
    (t' : Sockets) × (accept_all no_sockets (map greeting two_callers) ≡ some (done t'))
    × AreConnected t' two_callers
    × ((bg sl : ℕ) → IsApart bg sl two_callers → socket_at t' bg sl ≡ socket_at no_sockets bg sl)
accept_all-AreConnected_example =
    accept_all-AreConnected no_sockets two_callers
      (refl, (none ∷ [], refl, omega arith), (refl, (none ∷ none ∷ [], refl, omega arith), tt))
      ((inl (omega arith), tt), (tt, tt))
