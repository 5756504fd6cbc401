-- ===== src/Round3/Membership/Votes/Tally.antt =====
-- What the votes of a membership response come to.
use rcanopus_membership.Prelude.{
  get_elem?-lt, none, ℕ, zero, suc, ◌+◌, ◌<◌, ◌≡◌, refl, ap, sym, ◌∙◌, false, ◌==◌, if◌then◌else◌,
  List, [], ◌∷◌, ◌++◌, some, get_elem?, set, length, arith, append_assoc, length-append,
}
use rcanopus_membership.Outcome.{done}
use rcanopus_membership.Round3.Membership.Votes.{tally_entry, tally_row, tally_rows}

-- A row of a matrix added to the votes: one for every group that it reaches.
unfoldable pub add_row : List ℕ → List ℕ → List ℕ
add_row [] votes = votes
add_row (e ∷ row) [] = []
add_row (e ∷ row) (v ∷ votes) = (if e == 0 then v else v + 1) ∷ add_row row votes

unfoldable pub add_rows : List (List ℕ) → List ℕ → List ℕ
unfolding add_row
add_rows [] votes = votes
add_rows (row ∷ rows) votes = add_rows rows (add_row row votes)

-- The matrix as it lies in the message.
unfoldable pub flatten : List (List ℕ) → List ℕ
flatten [] = []
flatten (row ∷ rows) = row ++ flatten rows

abbrev pub AllLong : ℕ → List (List ℕ) → Type 0
AllLong n [] = Unit
AllLong n (row ∷ rows) = (length row ≡ n) × AllLong n rows

get_elem?_middle : (pre post : List ℕ) (v : ℕ) → get_elem? (pre ++ v ∷ post) (length pre) ≡ some v
get_elem?_middle [] post v = refl
get_elem?_middle (x ∷ pre) post v = get_elem?_middle pre post v

set_middle : (pre post : List ℕ) (v w : ℕ) → set (pre ++ v ∷ post) (length pre) w ≡ pre ++ w ∷ post
set_middle [] post v w = refl
set_middle (x ∷ pre) post v w = ap (◌∷◌ x) (set_middle pre post v w)

-- One entry, without DEBUG_FAILFAST.
tally_entry_lem :
    (entry : ℕ) (pre post : List ℕ) (v : ℕ)
    → tally_entry false entry (length pre) (pre ++ v ∷ post)
      ≡ done (pre ++ (if entry == 0 then v else v + 1) ∷ post)
unfolding tally_entry
tally_entry_lem entry pre post v =
    ground (arith, get_elem?_middle pre post v, set_middle pre post v (v + 1))

tally_row_lem :
    (row pre votes rest : List ℕ)
    → length row ≡ length votes
    → tally_row false (length row) (length pre) (row ++ rest) (pre ++ votes)
      ≡ done (rest, pre ++ add_row row votes)
unfolding tally_row add_row
tally_row_lem [] pre votes rest same = refl
tally_row_lem (e ∷ row) pre [] rest same = absurd (omega arith)
tally_row_lem (e ∷ row) pre (v ∷ votes) rest same =
    let w : ℕ = if e == 0 then v else v + 1 in
    let next = tally_row_lem row (pre ++ w ∷ []) votes rest (omega arith) in
    rw (tally_entry_lem e pre votes v) (
      rw
        (
          length-append pre (w ∷ []),
          append_assoc pre (w ∷ []) votes,
          append_assoc pre (w ∷ []) (add_row row votes),
        )
        at next)

length-add_row : (row votes : List ℕ) → length (add_row row votes) ≡ length votes
unfolding add_row
length-add_row [] votes = refl
length-add_row (e ∷ row) [] = refl
length-add_row (e ∷ row) (v ∷ votes) = ap suc (length-add_row row votes)

-- How many rows reach group j.
unfoldable pub reached_by : ℕ → List (List ℕ) → ℕ
reached_by j [] = 0
reached_by j (row ∷ rows) =
    let others = reached_by j rows in
    elim (get_elem? row j) [ none ↦ others | some e ↦ if e == 0 then others else others + 1 ]

get_elem?-add_row :
    (row votes : List ℕ) (j v e : ℕ)
    → get_elem? votes j ≡ some v
    → get_elem? row j ≡ some e
    → get_elem? (add_row row votes) j ≡ some (if e == 0 then v else v + 1)
unfolding add_row
get_elem?-add_row [] votes j v e h k = ground arith
get_elem?-add_row (x ∷ row) [] j v e h k = ground arith
get_elem?-add_row (x ∷ row) (w ∷ votes) zero v e h k = ground arith
get_elem?-add_row (x ∷ row) (w ∷ votes) (suc j) v e h k = get_elem?-add_row row votes j v e h k

get_elem?-add_rows :
    (n : ℕ) (rows : List (List ℕ)) (votes : List ℕ) (j v : ℕ)
    → AllLong n rows
    → j < n
    → get_elem? votes j ≡ some v
    → get_elem? (add_rows rows votes) j ≡ some (v + reached_by j rows)
unfolding add_rows reached_by
get_elem?-add_rows n [] votes j v long lt h = h ∙ ap some (omega arith)
get_elem?-add_rows n (row ∷ rows) votes j v long lt h =
    let (e, there) = get_elem?-lt row j (omega (arith, long.0)) in
    let first = get_elem?-add_row row votes j v e h there in
    let next =
      get_elem?-add_rows n rows (add_row row votes) j (if e == 0 then v else v + 1) long.1 lt
        first in
    ground (arith, there, next)

pub tally_rows_lem :
    (n : ℕ) (rows : List (List ℕ)) (votes : List ℕ)
    → AllLong n rows
    → length votes ≡ n
    → tally_rows false n (length rows) (flatten rows) votes ≡ done (add_rows rows votes)
unfolding tally_rows flatten add_rows
tally_rows_lem n [] votes long size = refl
tally_rows_lem n (row ∷ rows) votes long size =
    let at_start = tally_row_lem row [] votes (flatten rows) (long.0 ∙ sym size) in
    let first : tally_row false n 0 (row ++ flatten rows) votes
        ≡ done (flatten rows, add_row row votes) =
      rw long.0 at at_start in
    rw first (tally_rows_lem n rows (add_row row votes) long.1 (length-add_row row votes ∙ size))

-- Without DEBUG_FAILFAST the rows of a response, each with one entry for every group, add to the votes
-- of each group the number of the rows that have another entry than 0 in the group's place: a group
-- gets one vote from each group that says that it reaches it.
pub tally_rows-counts :
    (n : ℕ) (rows : List (List ℕ)) (votes : List ℕ)
    → AllLong n rows
    → length votes ≡ n
    → (result : List ℕ) × (tally_rows false n (length rows) (flatten rows) votes ≡ done result)
      × ((j v : ℕ)
          → j < n
          → get_elem? votes j ≡ some v
          → get_elem? result j ≡ some (v + reached_by j rows))
tally_rows-counts n rows votes long size = (
  add_rows rows votes,
  tally_rows_lem n rows votes long size,
  (λ j v lt h. get_elem?-add_rows n rows votes j v long lt h),
)
