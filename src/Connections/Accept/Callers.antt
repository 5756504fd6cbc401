-- ===== src/Connections/Accept/Callers.antt =====
-- ConnManager.cpp: the sockets that listenForIncomingConnections keeps.
use rcanopus_membership.Prelude.{
  ℕ, zero, suc, ◌<◌, ◌==◌, Bool-cases, ==_iff, ◌≡◌, ◌≢◌, ◌⊎◌, inl, inr, refl, sym, ap, ◌∙◌, true,
  List, [], ◌∷◌, Option, none, some, map, arith, length, get_elem?, set, length-set,
  get_elem?-set_self, get_elem?-set_ne, lt→ltb,
}
use rcanopus_membership.Outcome.{done}
use rcanopus_membership.Message.{MessageHello, hello, message_header, message_hello}
use rcanopus_membership.Connections.Accept.{
  Sockets, Accepted, accepted, as_hello, read_hello, set_socket, accept_one, accept_all,
}

-- A super leaf that connects and says hello, and the socket that accept gives.
pub record Caller : Type 0 where
  pub hello_message : MessageHello
  pub fd : ℕ

abbrev pub greeting : Caller → Accepted
greeting c = accepted c.fd true (done (hello c.hello_message) ∷ [])

abbrev in_slot : Option (Option ℕ) → Option ℕ
in_slot none = none
in_slot (some fd) = fd

abbrev in_row : Option (List (Option ℕ)) → ℕ → Option ℕ
in_row none sl = none
in_row (some row) sl = in_slot (get_elem? row sl)

abbrev pub socket_at : Sockets → ℕ → ℕ → Option ℕ
socket_at t bg sl = in_row (get_elem? t bg) sl

-- The table has a place for a super leaf.
abbrev pub HasRoom : Sockets → ℕ → ℕ → Type 0
HasRoom t bg sl = (row : List (Option ℕ)) × (get_elem? t bg ≡ some row) × (sl < length row)

abbrev pub AreGreeted : Sockets → List Caller → Type 0
AreGreeted t [] = Unit
AreGreeted t (c ∷ cs) =
    (c.hello_message.header.msg_type ≡ message_hello)
    × HasRoom t c.hello_message.bg_id c.hello_message.sl_id
    × AreGreeted t cs

-- None of the callers is this super leaf.
abbrev pub IsApart : ℕ → ℕ → List Caller → Type 0
IsApart bg sl [] = Unit
IsApart bg sl (c ∷ cs) =
    ((bg ≢ c.hello_message.bg_id) ⊎ (sl ≢ c.hello_message.sl_id)) × IsApart bg sl cs

abbrev pub AreApart : List Caller → Type 0
AreApart [] = Unit
AreApart (c ∷ cs) = IsApart c.hello_message.bg_id c.hello_message.sl_id cs × AreApart cs

abbrev pub AreConnected : Sockets → List Caller → Type 0
AreConnected t [] = Unit
AreConnected t (c ∷ cs) =
    (socket_at t c.hello_message.bg_id c.hello_message.sl_id ≡ some c.fd) × AreConnected t cs

get_elem?-set_known {ℓ} :
    {A : Type ℓ} (xs : List A) (i : ℕ) (a v : A)
    → get_elem? xs i ≡ some a
    → get_elem? (set xs i v) i ≡ some v
get_elem?-set_known [] i a v e = cc
get_elem?-set_known (x ∷ xs) zero a v e = refl
get_elem?-set_known (x ∷ xs) (suc i) a v e = get_elem?-set_known xs i a v e

abbrev with_row : Sockets → List (Option ℕ) → ℕ → ℕ → ℕ → Sockets
with_row t row bg sl fd = set t bg (set row sl (some fd))

module _ (t : Sockets) (row : List (Option ℕ)) (bg sl fd : ℕ)
    (there : get_elem? t bg ≡ some row) where
  row_set :
      (bg' : ℕ) → bg ≡ bg' → get_elem? (with_row t row bg sl fd) bg' ≡ some (set row sl (some fd))
  row_set bg' q =
      ap (get_elem? (with_row t row bg sl fd)) (sym q)
      ∙ get_elem?-set_known t bg row (set row sl (some fd)) there

  socket_at_self : sl < length row → socket_at (with_row t row bg sl fd) bg sl ≡ some fd
  socket_at_self h =
      ap (λ o. in_row o sl) (row_set bg refl) ∙ ap in_slot (get_elem?-set_self row sl (some fd) h)

  socket_at_other :
      (bg' sl' : ℕ)
      → (bg' ≢ bg) ⊎ (sl' ≢ sl)
      → socket_at (with_row t row bg sl fd) bg' sl' ≡ socket_at t bg' sl'
  socket_at_other bg' sl' (inl d) =
      ap (λ o. in_row o sl') (get_elem?-set_ne t (set row sl (some fd)) (λ q. d (sym q)))
  socket_at_other bg' sl' (inr d) = elim (Bool-cases (bg == bg')) [
    | inl q ↦
        ap (λ o. in_row o sl') (row_set bg' ((==_iff bg bg').0 q))
        ∙ ap in_slot (get_elem?-set_ne row (some fd) (λ r. d (sym r)))
        ∙ ap (λ o. in_row o sl') (sym there ∙ ap (get_elem? t) ((==_iff bg bg').0 q))
    | inr q ↦
        ap (λ o. in_row o sl')
          (get_elem?-set_ne t (set row sl (some fd)) (λ r. cc (q, (==_iff bg bg').1 r)))
  ]

  HasRoom-set : (bg' sl' : ℕ) → HasRoom t bg' sl' → HasRoom (with_row t row bg sl fd) bg' sl'
  HasRoom-set bg' sl' (row', there', h) = elim (Bool-cases (bg == bg')) [
    | inl q ↦
        let same : get_elem? t bg ≡ get_elem? t bg' = ap (get_elem? t) ((==_iff bg bg').0 q) in
        let r : row' ≡ row = cc in
        (
          set row sl (some fd),
          row_set bg' ((==_iff bg bg').0 q),
          omega (arith, ap length r, length-set row sl (some fd)),
        )
    | inr q ↦ (
      row',
      get_elem?-set_ne t (set row sl (some fd)) (λ r. cc (q, (==_iff bg bg').1 r)) ∙ there',
      h,
    )
  ]

  AreGreeted-set : (cs : List Caller) → AreGreeted t cs → AreGreeted (with_row t row bg sl fd) cs
  AreGreeted-set [] g = tt
  AreGreeted-set (c ∷ cs) (kind, room, g) =
      (kind, HasRoom-set c.hello_message.bg_id c.hello_message.sl_id room, AreGreeted-set cs g)

set_socket_known :
    (t : Sockets) (row : List (Option ℕ)) (bg sl fd : ℕ)
    → get_elem? t bg ≡ some row
    → sl < length row
    → set_socket t bg sl fd ≡ done (with_row t row bg sl fd)
unfolding set_socket
set_socket_known t row bg sl fd there h = rw (set_socket, there, lt→ltb sl (length row) h) refl

accept_one-greeting :
    (t : Sockets) (c : Caller) (row : List (Option ℕ))
    → c.hello_message.header.msg_type ≡ message_hello
    → get_elem? t c.hello_message.bg_id ≡ some row
    → c.hello_message.sl_id < length row
    → accept_one t (greeting c)
      ≡ some (done (with_row t row c.hello_message.bg_id c.hello_message.sl_id c.fd))
unfolding accept_one read_hello as_hello message_header
accept_one-greeting t c row kind there h =
    rw ((==_iff c.hello_message.header.msg_type message_hello).1 kind)
      (ap some (set_socket_known t row c.hello_message.bg_id c.hello_message.sl_id c.fd there h))

-- If the calls of accept give super leaves of the table, no two of them the same, that say hello, then
-- listenForIncomingConnections returns from its loop with the socket of each in the super leaf's place,
-- whatever their order, and all other places as they were.
pub accept_all-AreConnected :
    (t : Sockets) (cs : List Caller)
    → AreGreeted t cs
    → AreApart cs
    → (t' : Sockets) × (accept_all t (map greeting cs) ≡ some (done t'))
      × AreConnected t' cs
      × ((bg sl : ℕ) → IsApart bg sl cs → socket_at t' bg sl ≡ socket_at t bg sl)
unfolding accept_all
accept_all-AreConnected t [] g d = (t, refl, tt, λ bg sl h. refl)
accept_all-AreConnected t (c ∷ cs) (kind, (row, there, h), g) (d, ds) =
    let bg : ℕ = c.hello_message.bg_id in
    let sl : ℕ = c.hello_message.sl_id in
    let t1 = with_row t row bg sl c.fd in
    let (t', e, connected, others) =
      accept_all-AreConnected t1 cs (AreGreeted-set t row bg sl c.fd there cs g) ds in
    (
      t',
      rw (accept_all, accept_one-greeting t c row kind there h) e,
      (others bg sl d ∙ socket_at_self t row bg sl c.fd there h, connected),
      λ bg' sl' (a, apart). others bg' sl' apart ∙ socket_at_other t row bg sl c.fd there bg' sl' a,
    )
