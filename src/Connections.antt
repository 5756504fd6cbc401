-- ===== src/Connections.antt =====
-- ConnManager.h and ConnManager.cpp: which super leaf opens the connection between two of them, how many
-- a node waits for, and to whom it connects.
pub mod Accept
pub mod Callers
use rcanopus_membership.Prelude.{
  ℕ, zero, suc, Bool, true, false, not, ◌&&◌, ltb, ◌==◌, if◌then◌else◌, List, [], ◌∷◌, ◌++◌,
}
use rcanopus_membership.Config.{Config, num_bg, num_sl}

-- isPassiveConnection and isActiveConnection.
unfoldable pub is_passive_connection : Config → ℕ → ℕ → Bool
is_passive_connection c bg sl =
    if ltb c.bg_id bg then true else if bg == c.bg_id then ltb c.sl_id sl else false

unfoldable pub is_active_connection : Config → ℕ → ℕ → Bool
unfolding is_passive_connection
is_active_connection c bg sl = not (is_passive_connection c bg sl)

-- The test of every loop for the node itself.
unfoldable pub is_own_place : Config → ℕ → ℕ → Bool
is_own_place c bg sl = (bg == c.bg_id) && (sl == c.sl_id)

-- The order of the nested loops.
unfoldable pub leaves_of : ℕ → ℕ → ℕ → List (ℕ × ℕ)
leaves_of bg sl zero = []
leaves_of bg sl (suc k) = (bg, sl) ∷ leaves_of bg (suc sl) k

unfoldable pub leaves_from : Config → ℕ → ℕ → List (ℕ × ℕ)
unfolding num_sl leaves_of
leaves_from c bg zero = []
leaves_from c bg (suc k) = leaves_of bg 0 (num_sl c bg) ++ leaves_from c (suc bg) k

unfoldable pub all_leaves : Config → List (ℕ × ℕ)
unfolding num_bg leaves_from
all_leaves c = leaves_from c 0 (num_bg c)

-- listenForIncomingConnections: expectedConnections.
unfoldable pub count_passive : Config → List (ℕ × ℕ) → ℕ
unfolding is_own_place is_passive_connection
count_passive c [] = 0
count_passive c ((bg, sl) ∷ rest) =
    let n = count_passive c rest in
    if is_own_place c bg sl then n else if is_passive_connection c bg sl then suc n else n

unfoldable pub expected_connections : Config → ℕ
unfolding all_leaves count_passive
expected_connections c = count_passive c (all_leaves c)

-- The constructor: the super leaves that the node connects to and sends a hello.
unfoldable pub connect_among : Config → List (ℕ × ℕ) → List (ℕ × ℕ)
unfolding is_own_place is_active_connection
connect_among c [] = []
connect_among c ((bg, sl) ∷ rest) =
    let others = connect_among c rest in
    if is_own_place c bg sl
    then others
    else if is_active_connection c bg sl
    then (bg, sl) ∷ others
    else others

unfoldable pub active_connections : Config → List (ℕ × ℕ)
unfolding all_leaves connect_among
active_connections c = connect_among c (all_leaves c)
