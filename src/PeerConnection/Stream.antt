-- ===== src/PeerConnection/Stream.antt =====
-- PeerConnection.cpp: send and recv over a stream of bytes.
use rcanopus_membership.Prelude.{
  ℕ, zero, suc, ◌-◌, ◌≤◌, ◌<◌, ◌≡◌, refl, sym, ap, ◌∙◌, List, [], ◌∷◌, ◌++◌, append_assoc,
  append-nil, Option, none, some, arith, length, length-append, take, take_all, drop,
}
use rcanopus_membership.Outcome.{done}
use rcanopus_membership.PeerConnection.{Socket, send_bytes, recv_bytes}

take-drop {ℓ} : {A : Type ℓ} (n : ℕ) (xs : List A) → take n xs ++ drop n xs ≡ xs
take-drop zero xs = refl
take-drop (suc n) [] = refl
take-drop (suc n) (x ∷ xs) = ap (λ ys. x ∷ ys) (take-drop n xs)

drop_le {ℓ} : {A : Type ℓ} (n : ℕ) (xs : List A) → length (drop n xs) ≤ length xs
drop_le zero xs = omega arith
drop_le (suc n) [] = omega arith
drop_le (suc n) (x ∷ xs) = omega (arith, drop_le n xs)

length-drop_lt {ℓ} :
    {A : Type ℓ} (n k : ℕ) (x : A) (xs : List A)
    → 0 < n
    → length (x ∷ xs) ≤ suc k
    → length (drop n (x ∷ xs)) ≤ k
length-drop_lt zero k x xs h l = omega arith
length-drop_lt (suc n) k x xs h l = omega (arith, drop_le n xs)

drop_all {ℓ} : {A : Type ℓ} (xs : List A) → drop (length xs) xs ≡ []
drop_all [] = refl
drop_all (x ∷ xs) = drop_all xs

left_over :
    (n : ℕ) (bs xs ys : List ℕ) → suc n ≤ length xs → xs ≡ bs ++ ys → suc n - length bs ≤ length ys
left_over n bs xs ys h e = omega (arith, ap length e, length-append bs ys)

take-past {ℓ} :
    {A : Type ℓ} (n : ℕ) (xs ys : List A)
    → length xs ≤ n
    → take n (xs ++ ys) ≡ xs ++ take (n - length xs) ys
take-past n [] ys h = ap (λ (m : ℕ). take m ys) (omega arith)
take-past zero (x ∷ xs) ys h = absurd (omega arith)
take-past (suc n) (x ∷ xs) ys h =
    ap (λ zs. x ∷ zs) (take-past n xs ys (omega arith))
    ∙ ap (λ (m : ℕ). x ∷ (xs ++ take m ys)) (omega arith)

drop-past {ℓ} :
    {A : Type ℓ} (n : ℕ) (xs ys : List A)
    → length xs ≤ n
    → drop n (xs ++ ys) ≡ drop (n - length xs) ys
drop-past n [] ys h = ap (λ (m : ℕ). drop m ys) (omega arith)
drop-past zero (x ∷ xs) ys h = absurd (omega arith)
drop-past (suc n) (x ∷ xs) ys h =
    drop-past n xs ys (omega arith) ∙ ap (λ (m : ℕ). drop m ys) (omega arith)

module _ (s : Socket) where
  open s use {Connection, send, recv}

  -- What a connected stream socket promises: send takes some of the bytes, in order, and recv, which
  -- waits for a byte, gives some of those under way.
  pub record ByteStream : Type 0 where
    pub under_way : Connection → List ℕ
    pub send-takes :
        (c : Connection) (b : ℕ) (bs : List ℕ)
        → (ret : ℕ) × (c' : Connection) × (send c (b ∷ bs) ≡ (some ret, c'))
          × (0 < ret)
          × (under_way c' ≡ under_way c ++ take ret (b ∷ bs))
    pub recv-gives :
        (c : Connection) (n : ℕ)
        → 0 < length (under_way c)
        → (bs : List ℕ) × (c' : Connection) × (recv c (suc n) ≡ (some bs, c'))
          × (0 < length bs)
          × (length bs ≤ suc n)
          × (under_way c ≡ bs ++ under_way c')

  send_step :
      (k b ret : ℕ) (bs : List ℕ) (c c' : Connection)
      → send c (b ∷ bs) ≡ (some ret, c')
      → send_bytes s (suc k) c (b ∷ bs) ≡ send_bytes s k c' (drop ret (b ∷ bs))
  unfolding send_bytes
  send_step k b ret bs c c' e =
      rw (e, send_bytes)
        (ap (λ (r : Option ℕ × Connection). send_bytes s k r.1 (drop ret (b ∷ bs))) e)

  recv_step :
      (k n : ℕ) (bs dest : List ℕ) (c c' : Connection)
      → recv c (suc n) ≡ (some bs, c')
      → recv_bytes s (suc k) c (suc n) dest ≡ recv_bytes s k c' (suc n - length bs) (dest ++ bs)
  unfolding recv_bytes
  recv_step k n bs dest c c' e =
      rw (e, recv_bytes)
        (ap
          (λ (r : Option (List ℕ) × Connection).
            recv_bytes s k r.1 (suc n - length bs) (dest ++ bs))
          e)

  -- A call of recv that still misses bytes when the peer has closed the connection, where ::recv gives no
  -- bytes and no error, never returns: it is not done after any number of rounds.
  pub recv_bytes_closed :
      (c : Connection)
      → ((n : ℕ) → recv c (suc n) ≡ (some [], c))
      → (k n : ℕ) (dest : List ℕ) → recv_bytes s k c (suc n) dest ≡ none
  unfolding recv_bytes
  recv_bytes_closed c closed zero n dest = refl
  recv_bytes_closed c closed (suc k) n dest =
      recv_step k n [] dest c c (closed n)
      ∙ ap (λ (m : ℕ). recv_bytes s k c m (dest ++ [])) {y = suc n} (omega arith)
      ∙ recv_bytes_closed c closed k n (dest ++ [])

  -- What a fuel of one round for each byte is enough for: ::send and ::recv move at least one.
  module _ (stream : ByteStream) where
    open stream use {under_way, send-takes, recv-gives}

    send_all :
        (k : ℕ) (c : Connection) (bs : List ℕ)
        → length bs ≤ k
        → (c' : Connection) × (send_bytes s k c bs ≡ some (done c'))
          × (under_way c' ≡ under_way c ++ bs)
    unfolding send_bytes
    send_all k c [] h = (c, refl, sym (append-nil (under_way c)))
    send_all zero c (b ∷ bs) h = absurd (omega arith)
    send_all (suc k) c (b ∷ bs) h =
        let (ret, c', e, some_sent, here) = send-takes c b bs in
        let (c2, e2, there) =
          send_all k c' (drop ret (b ∷ bs)) (length-drop_lt ret k b bs some_sent h) in
        (
          c2,
          send_step k b ret bs c c' e ∙ e2,
          there
              ∙ (ap (λ xs. xs ++ drop ret (b ∷ bs)) here)
              ∙ (append_assoc (under_way c) (take ret (b ∷ bs)) (drop ret (b ∷ bs))
                  ∙ ap (λ xs. under_way c ++ xs) (take-drop ret (b ∷ bs))),
        )

    -- If the bytes that are asked for are under way, recv returns with them, in order, and leaves the
    -- rest, in as many rounds as there are bytes or more, however ::recv cuts them.
    pub recv_all :
        (k n : ℕ) (c : Connection) (dest : List ℕ)
        → n ≤ k
        → n ≤ length (under_way c)
        → (c' : Connection) × (recv_bytes s k c n dest
            ≡ some (done (dest ++ take n (under_way c), c')))
          × (under_way c' ≡ drop n (under_way c))
    unfolding recv_bytes
    recv_all k zero c dest h l = (c, ap (λ xs. some (done (xs, c))) (sym (append-nil dest)), refl)
    recv_all zero (suc n) c dest h l = absurd (omega arith)
    recv_all (suc k) (suc n) c dest h l =
        let (bs, c', e, some_there, few, here) = recv-gives c n (omega arith) in
        let (c2, e2, there) =
          recv_all k (suc n - length bs) c' (dest ++ bs) (omega arith)
            (left_over n bs (under_way c) (under_way c') l here) in
        (
          c2,
          recv_step k n bs dest c c' e
              ∙ e2
              ∙ ap (λ xs. some (done (xs, c2)))
                  (append_assoc dest bs (take (suc n - length bs) (under_way c'))
                    ∙ ap (λ xs. dest ++ xs)
                        (sym (take-past (suc n) bs (under_way c') few)
                          ∙ ap (take (suc n)) (sym here))),
          there ∙ sym (drop-past (suc n) bs (under_way c') few) ∙ ap (drop (suc n)) (sym here),
        )

    -- What send puts on an idle connection recv gives back, whole and in order, and leaves it idle, in as
    -- many rounds as there are bytes or more, if ::send takes a first part that is not empty and ::recv
    -- gives one.
    pub recv-send :
        (k : ℕ) (c : Connection) (message : List ℕ)
        → under_way c ≡ []
        → length message ≤ k
        → (c' : Connection) × (c2 : Connection) × (send_bytes s k c message ≡ some (done c'))
          × (recv_bytes s k c' (length message) [] ≡ some (done (message, c2)))
          × (under_way c2 ≡ [])
    recv-send k c message idle h =
        let (c', e, here) = send_all k c message h in
        let here' : under_way c' ≡ message = here ∙ ap (λ xs. xs ++ message) idle in
        let (c2, e2, rest) = recv_all k (length message) c' [] h (omega (arith, ap length here')) in
        (
          c',
          c2,
          e,
          e2
              ∙ ap (λ xs. some (done (xs, c2)))
                  (ap (take (length message)) here'
                    ∙ take_all (length message) message (omega arith)),
          rest ∙ ap (drop (length message)) here' ∙ drop_all message,
        )
