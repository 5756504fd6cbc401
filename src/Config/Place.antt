-- ===== src/Config/Place.antt =====
-- config.cpp, the tests at the end of parseFromFile: the node's own place in the configuration.
use rcanopus_membership.Prelude.{
  ℕ, zero, suc, ◌<◌, ◌≡◌, ◌↔◌, refl, ap, true, List, [], ◌∷◌, none, some, inl, inr, arith, length,
  get_elem?, if◌then◌else◌, Option-cases, Bool-cases,
}
use rcanopus_membership.Prelude.Int.{ℤ, pos, negsuc, pos_part}
use rcanopus_membership.Outcome.{done, thrown, fail_fast, undefined, Ensures, Ensures-all}
use rcanopus_membership.Config.Parse.{
  Scanner, ParsedBgInfo, ParsedConfig, has_own_place, Parser, scan, known, ◌>>=◌, parse_bg_info,
  parse_bg_infos, parse_fields, parse_from_file,
}

-- The node is a super leaf of one of the groups.
abbrev pub HasOwnPlace : ParsedConfig → Type 0
HasOwnPlace c =
    (bg sl : ℕ) × (info : ParsedBgInfo) × (c.bg_id ≡ pos bg)
    × (c.sl_id ≡ pos sl)
    × (get_elem? c.rg_bg_info bg ≡ some info)
    × (sl < length info.addr)

get_elem?-lt {ℓ} :
    {A : Type ℓ} (xs : List A) (i : ℕ) (a : A) → get_elem? xs i ≡ some a → i < length xs
get_elem?-lt [] i a e = cc
get_elem?-lt (x ∷ xs) zero a e = omega arith
get_elem?-lt (x ∷ xs) (suc i) a e = omega (arith, get_elem?-lt xs i a e)

has_own_place-sound :
    (n bg sl : ℤ) (c : ParsedConfig)
    → c.bg_id ≡ bg
    → c.sl_id ≡ sl
    → has_own_place n c ≡ true
    → HasOwnPlace c
unfolding has_own_place
has_own_place-sound n (negsuc bg) sl c eb es h = ground arith
has_own_place-sound n (pos bg) (negsuc sl) c eb es h = ground arith
has_own_place-sound n (pos bg) (pos sl) c eb es h =
    elim (Option-cases (get_elem? c.rg_bg_info bg)) [
      | inl e ↦ ground arith
      | inr (info, e) ↦ (bg, sl, info, eb, es, e, ground arith)
    ]

pub has_own_place_iff :
    (n : ℤ) (c : ParsedConfig)
    → length c.rg_bg_info ≡ pos_part n
    → (has_own_place n c ≡ true) ↔ HasOwnPlace c
unfolding has_own_place
has_own_place_iff n c e = (
  has_own_place-sound n c.bg_id c.sl_id c refl refl,
  λ (bg, sl, info, eb, es, there, inside). ground (arith, get_elem?-lt c.rg_bg_info bg info there),
)

module _ (s : Scanner) where
  open s use {Input, scan_int}

  -- A postcondition of a parser, whatever the file.
  record Yields {A : Type 0} (P : A → Type 0) (p : Parser s A) : Type 0 where
    pub results : (f : Input) → Ensures (λ r. P r.0) (p f)

  bind_results :
      {A B : Type 0} (P : A → Type 0) (Q : B → Type 0) (k : A → Parser s B)
      → ((a : A) → P a → Yields Q (k a))
      → (p : Parser s A) (f : Input) → Ensures (λ r. P r.0) (p f)
      → Ensures (λ r. Q r.0) (◌>>=◌ s p k f)
  bind_results P Q k l p f =
      elim (p f)
        as (λ m.
          Ensures (λ r. P r.0) m
          → Ensures (λ r. Q r.0)
              (elim m [
                | done (a, f') ↦ k a f'
                | thrown e ↦ thrown e
                | fail_fast ↦ fail_fast
                | undefined ↦ undefined
              ])) [
                | done (a, f') ↦ λ h. (l a h).results f'
                | thrown e ↦ λ h. tt
                | fail_fast ↦ λ h. tt
                | undefined ↦ λ h. tt
              ]

  Yields->>= :
      {A B : Type 0} (P : A → Type 0) (Q : B → Type 0) (p : Parser s A) (k : A → Parser s B)
      → Yields P p
      → ((a : A) → P a → Yields Q (k a))
      → Yields Q (◌>>=◌ s p k)
  Yields->>= P Q p k h l = record { results = λ f. bind_results P Q k l p f (h.results f) }

  Yields-any : {A : Type 0} (p : Parser s A) → Yields (λ _. Unit {0}) p
  Yields-any p = record { results = λ f. Ensures-all _ (p f) (λ _. tt) }

  -- The rest of a parser whose result does not matter.
  Yields-next :
      {A B : Type 0} (Q : B → Type 0) (p : Parser s A) (k : A → Parser s B)
      → ((a : A) → Yields Q (k a))
      → Yields Q (◌>>=◌ s p k)
  Yields-next Q p k l = Yields->>= (λ _. Unit {0}) Q p k (Yields-any p) (λ a _. l a)

  length-bg_infos : (n : ℕ) → Yields (λ infos. length infos ≡ n) (parse_bg_infos s n)
  unfolding parse_bg_infos
  length-bg_infos zero = record { results = λ f. refl }
  length-bg_infos (suc n) = Yields-next _ (parse_bg_info s) _ λ info.
      Yields->>= (λ infos. length infos ≡ n) _ (parse_bg_infos s n) _ (length-bg_infos n)
        (λ infos e. record { results = λ f. ap suc e })

  abbrev AreNumbered : ℤ × ParsedConfig → Type 0
  AreNumbered (n, c) = length c.rg_bg_info ≡ pos_part n

  fields_numbered : Yields AreNumbered (parse_fields s)
  unfolding parse_fields
  fields_numbered = Yields-next _ (scan s scan_int) _ λ rate. Yields-next _ (scan s scan_int) _ λ n.
      Yields-next _ (scan s scan_int) _ λ failures.
        Yields->>= (λ infos. length infos ≡ pos_part n) _ (parse_bg_infos s (pos_part n)) _
          (length-bg_infos (pos_part n))
          (λ infos e.
            Yields-next _ (scan s scan_int) _
              λ bg. Yields-next _ (scan s scan_int) _ λ sl. record { results = λ f. e })

  placed :
      (n : ℤ) (c : ParsedConfig)
      → length c.rg_bg_info ≡ pos_part n
      → Yields HasOwnPlace (known s (if has_own_place n c then some c else none))
  placed n c e = record {
    results = λ f. elim (Bool-cases (has_own_place n c)) [
      | inl inside ↦ rw inside ((has_own_place_iff n c e).0 inside)
      | inr other ↦ rw other tt
    ];
  }

  -- Whatever the file and the conversions, what parseFromFile returns has the node's own place.
  pub parse_from_file-HasOwnPlace :
      (f : Input) → Ensures (λ r. HasOwnPlace r.0) (parse_from_file s f)
  unfolding parse_from_file
  parse_from_file-HasOwnPlace f =
      let all : Yields HasOwnPlace (parse_from_file s) =
        Yields->>= AreNumbered HasOwnPlace (parse_fields s) _ fields_numbered
          (λ (n, c) e. placed n c e) in
      all.results f
