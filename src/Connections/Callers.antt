-- ===== src/Connections/Callers.antt =====
-- ConnManager.cpp: the connections that a node waits for, and those that the others open to it.
use rcanopus_membership.Prelude.{
  ℕ, zero, suc, ◌+◌, ◌≤◌, ◌<◌, ◌≡◌, refl, ap, ◌∙◌, Bool, true, false, not, ◌&&◌, ◌||◌, ◌==◌,
  if◌then◌else◌, Bool-cases, ==_iff, List, [], ◌∷◌, ◌++◌, arith, length, inl, inr,
}
use rcanopus_membership.Config.{Config, num_bg, num_sl}
use rcanopus_membership.Connections.{
  is_passive_connection, is_active_connection, is_own_place, leaves_of, leaves_from, all_leaves,
  count_passive, expected_connections, connect_among, active_connections,
}

-- Another super leaf's configuration is made of the same file.
abbrev pub placed_at : Config → ℕ → ℕ → Config
placed_at c bg sl = record c { bg_id = bg; sl_id = sl }

abbrev pub names_leaf : List (ℕ × ℕ) → ℕ → ℕ → Bool
names_leaf [] bg sl = false
names_leaf ((bg', sl') ∷ rest) bg sl = ((bg == bg') && (sl == sl')) || names_leaf rest bg sl

-- Those of the super leaves whose constructor connects to the node.
abbrev pub callers_among : Config → List (ℕ × ℕ) → List (ℕ × ℕ)
unfolding active_connections
callers_among c [] = []
callers_among c ((bg, sl) ∷ rest) =
    let others = callers_among c rest in
    if names_leaf (active_connections (placed_at c bg sl)) c.bg_id c.sl_id
    then (bg, sl) ∷ others
    else others

names_leaf-append :
    (xs ys : List (ℕ × ℕ)) (bg sl : ℕ)
    → names_leaf (xs ++ ys) bg sl ≡ names_leaf xs bg sl || names_leaf ys bg sl
names_leaf-append [] ys bg sl = refl
names_leaf-append ((bg', sl') ∷ xs) ys bg sl = ground (arith, names_leaf-append xs ys bg sl)

names_leaf-leaves_of :
    (bg s k sl : ℕ) → s ≤ sl → sl < s + k → names_leaf (leaves_of bg s k) bg sl ≡ true
unfolding leaves_of
names_leaf-leaves_of bg s zero sl h l = absurd (omega arith)
names_leaf-leaves_of bg s (suc k) sl h l = ground (arith, names_leaf-leaves_of bg (suc s) k sl)

names_leaf-leaves_from :
    (c : Config) (g k bg sl : ℕ)
    → g ≤ bg
    → bg < g + k
    → sl < num_sl c bg
    → names_leaf (leaves_from c g k) bg sl ≡ true
unfolding leaves_from
names_leaf-leaves_from c g zero bg sl h l m = absurd (omega arith)
names_leaf-leaves_from c g (suc k) bg sl h l m =
    names_leaf-append (leaves_of g 0 (num_sl c g)) (leaves_from c (suc g) k) bg sl
    ∙ elim (Bool-cases (g == bg)) [
      | inl e ↦
          ap (λ b. b || names_leaf (leaves_from c (suc g) k) bg sl) {y = true}
            (rw ((==_iff g bg).0 e)
              (names_leaf-leaves_of bg 0 (num_sl c bg) sl (omega arith) (omega arith)))
      | inr e ↦ ground (arith, names_leaf-leaves_from c (suc g) k bg sl)
    ]

-- A node connects to the super leaves that are not itself and with which its side is the active one.
names_leaf-connect_among :
    (c : Config) (xs : List (ℕ × ℕ)) (bg sl : ℕ)
    → names_leaf (connect_among c xs) bg sl
      ≡ (names_leaf xs bg sl && not (is_own_place c bg sl)) && is_active_connection c bg sl
unfolding connect_among is_own_place is_active_connection is_passive_connection
names_leaf-connect_among c [] bg sl = refl
names_leaf-connect_among c ((bg', sl') ∷ xs) bg sl =
    ground (arith, names_leaf-connect_among c xs bg sl)

-- Of two different super leaves exactly one opens the connection between them, and the other waits for it.
pub one_side_connects :
    (c : Config) (bg sl : ℕ)
    → is_own_place c bg sl ≡ false
    → is_active_connection (placed_at c bg sl) c.bg_id c.sl_id ≡ is_passive_connection c bg sl
unfolding is_own_place is_active_connection is_passive_connection
one_side_connects c bg sl h = ground arith

module _ (c : Config) where
  -- The node has a place in the configuration.
  module _ (own_bg : c.bg_id < num_bg c) (own_sl : c.sl_id < num_sl c c.bg_id) where
    names_leaf-active_connections :
        (bg sl : ℕ)
        → names_leaf (active_connections (placed_at c bg sl)) c.bg_id c.sl_id
          ≡ not (is_own_place c bg sl) && is_passive_connection c bg sl
    unfolding active_connections all_leaves num_bg num_sl is_own_place is_active_connection
        is_passive_connection
    names_leaf-active_connections bg sl =
        names_leaf-connect_among (placed_at c bg sl) (all_leaves (placed_at c bg sl)) c.bg_id
          c.sl_id
        ∙ rw
            (names_leaf-leaves_from (placed_at c bg sl) 0 (num_bg c) c.bg_id c.sl_id (omega arith)
              (omega arith) own_sl)
            (ground arith)

    count_passive-callers : (xs : List (ℕ × ℕ)) → count_passive c xs ≡ length (callers_among c xs)
    unfolding count_passive callers_among
    count_passive-callers [] = refl
    count_passive-callers ((bg, sl) ∷ xs) =
        rw (names_leaf-active_connections bg sl) (ground (arith, count_passive-callers xs))

    -- A node that has a place in the configuration waits for exactly as many connections as there are super
    -- leaves, started from the same configuration, whose constructor connects to it.
    pub expected_connections-callers :
        expected_connections c ≡ length (callers_among c (all_leaves c))
    unfolding expected_connections
    expected_connections-callers = count_passive-callers (all_leaves c)
