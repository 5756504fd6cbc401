-- ===== src/Invariant/Rounds.antt =====
-- The loop of start, whatever dispatches a message: what the three variants of the program have in
-- common (ConnManager.cpp, ConnManager_Baseline.cpp, ConnManager_Hybrid.cpp).
use rcanopus_membership.Prelude.{
  ℕ, zero, suc, slnil, cons, cons-cons, append-nil, append_assoc, Sublistᴰ, sym, ap, ◌<◌, ◌≡◌, refl,
  ◌∙◌, inl, inr, List, [], ◌∷◌, ◌++◌, length,
}
use rcanopus_membership.Outcome.{
  Outcome, done, undefined, ◌>>=◌, Ensures, Ensures->>=, Ensures-mono,
}
use rcanopus_membership.Config.{num_sl}
use rcanopus_membership.Message.{Message}
use rcanopus_membership.Message.Wire.{ByteOrder}
use rcanopus_membership.Manager.{ConnManager, Host, QueueElement}
use rcanopus_membership.Invariant.{setup, set_config, Round2Ok}
use rcanopus_membership.Invariant.Round2.{Handles}

-- A variant of the program: its dispatch of a message, which handles it on a well-formed node, the
-- switches of its sender and of its recvMessage_caller_free_mem, and its inner loop.
pub record Variant : Type 0 where
  pub dispatch : Host → ConnManager → QueueElement → Outcome ConnManager
  pub serialize : ByteOrder → Message → Outcome Message
  pub recv : ByteOrder → Message → Outcome Message
  pub juggled : Host → ConnManager → ℕ → Outcome ConnManager
  pub dispatch-Handles :
      (h : Host) (s : ConnManager) (e : QueueElement)
      → 0 < num_sl s.config s.config.bg_id
      → Round2Ok s
      → Ensures (Handles e s) (dispatch h s e)
  pub juggled-zero : (h : Host) (s : ConnManager) → juggled h s zero ≡ done s
  pub juggled-suc :
      (h : Host) (s : ConnManager) (n : ℕ)
      → juggled h s (suc n)
        ≡ (elim s.juggle_queue [
          | [] ↦ undefined
          | e ∷ rest ↦ dispatch h (record s { juggle_queue = rest }) e
        ])
          >>= λ s'. juggled h s' n

-- What the inner loop does with the messages `front` of the juggle queue, `back` behind them.
abbrev pub Juggled : ConnManager → List QueueElement → List QueueElement → ConnManager → Type 0
Juggled s front back t =
    (setup t ≡ setup s)
    × Round2Ok t
    × ((kept : List QueueElement) × Sublistᴰ kept front × (t.juggle_queue ≡ back ++ kept))

-- What a round does to the setup, the node and the juggle queue.
abbrev pub KeepsOrder : QueueElement → ConnManager → ConnManager → Type 0
KeepsOrder e s t =
    (setup t ≡ setup s) × Round2Ok t × Sublistᴰ t.juggle_queue (s.juggle_queue ++ e ∷ [])

Sublist-nil : (zs : List QueueElement) → Sublistᴰ [] zs
Sublist-nil [] = slnil
Sublist-nil (z ∷ zs) = cons (Sublist-nil zs)

Sublist-append : (xs ys zs : List QueueElement) → Sublistᴰ xs ys → Sublistᴰ xs (ys ++ zs)
Sublist-append xs ys zs slnil = Sublist-nil zs
Sublist-append xs ys zs (cons s) = cons (Sublist-append xs _ zs s)
Sublist-append xs ys zs (cons-cons p s) = cons-cons p (Sublist-append _ _ zs s)

module _ (v : Variant) where
  open v use {dispatch, juggled, dispatch-Handles, juggled-zero, juggled-suc}

  juggled-Juggled :
      (h : Host) (s : ConnManager) (front back : List QueueElement)
      → s.juggle_queue ≡ front ++ back
      → 0 < num_sl s.config s.config.bg_id
      → Round2Ok s
      → Ensures (Juggled s front back) (juggled h s (length front))
  juggled-Juggled h s [] back queue pos ok =
      rw (juggled-zero h s) (refl, ok, ([], slnil, queue ∙ sym (append-nil back)))
  juggled-Juggled h s (e ∷ front) back queue pos ok =
      let s' = record s { juggle_queue = front ++ back } in
      rw (juggled-suc h s (length front), queue)
        (Ensures->>= (Handles e s') (Juggled s (e ∷ front) back) (dispatch h s' e)
          (λ t. juggled h t (length front)) (dispatch-Handles h s' e pos ok)
          λ t handled. elim (handled.1) [
            | inl used ↦
                Ensures-mono (Juggled t front back) (Juggled s (e ∷ front) back)
                  (juggled h t (length front))
                  (juggled-Juggled h t front back used (rw (ap set_config handled.0) pos) handled.2)
                  λ u j. (j.0 ∙ handled.0, j.1, (j.2.0, cons j.2.1, j.2.2))
            | inr again ↦
                Ensures-mono (Juggled t front (back ++ e ∷ [])) (Juggled s (e ∷ front) back)
                  (juggled h t (length front))
                  (juggled-Juggled h t front (back ++ e ∷ [])
                    (again ∙ append_assoc front back (e ∷ [])) (rw (ap set_config handled.0) pos)
                    handled.2)
                  λ u j. (
                    j.0 ∙ handled.0,
                    j.1,
                    (e ∷ j.2.0, cons-cons refl j.2.1, j.2.2 ∙ append_assoc back (e ∷ []) j.2.0),
                  )
          ])

  -- A round of the loop of start with a message from the queue.
  abbrev pub round : Host → ConnManager → QueueElement → Outcome ConnManager
  round h s e = dispatch h s e >>= λ t. juggled h t (length t.juggle_queue)

  pub round-KeepsOrder :
      (h : Host) (s : ConnManager) (e : QueueElement)
      → 0 < num_sl s.config s.config.bg_id
      → Round2Ok s
      → Ensures (KeepsOrder e s) (round h s e)
  round-KeepsOrder h s e pos ok =
      Ensures->>= (Handles e s) (KeepsOrder e s) (dispatch h s e)
        (λ t. juggled h t (length t.juggle_queue)) (dispatch-Handles h s e pos ok)
        λ t handled.
          Ensures-mono (Juggled t t.juggle_queue []) (KeepsOrder e s)
            (juggled h t (length t.juggle_queue))
            (juggled-Juggled h t t.juggle_queue [] (sym (append-nil t.juggle_queue))
              (rw (ap set_config handled.0) pos) handled.2)
            λ u j. (
              j.0 ∙ handled.0,
              j.1,
              rw j.2.2 (elim (handled.1) [
                | inl used ↦ Sublist-append j.2.0 s.juggle_queue (e ∷ []) (rw used at j.2.1)
                | inr again ↦ rw again at j.2.1
              ]),
            )
