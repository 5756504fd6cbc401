-- ===== src/Config/Parse.antt =====
-- config.cpp: parseFromFile. The conversions of fscanf, inet_aton and htons are not code of the
-- repository: they are a parameter. An int keeps its sign, as the file may hold a negative number.
use rcanopus_membership.Prelude.{
  ℕ, zero, suc, Bool, false, not, ◌||◌, ◌≡◌, List, [], ◌∷◌, Option, none, some, length, get_elem?,
  if◌then◌else◌,
}
use rcanopus_membership.Prelude.Int.{ℤ, pos, pos_part, ltb_ℤ, IsInt}
use rcanopus_membership.Outcome.{Outcome, done, thrown, fail_fast, undefined, input_format}
use rcanopus_membership.Config.{SockaddrIn}

-- An `Input` is what is left of the file. The conversion %d stores an int, of 32 bits. The short is given
-- by its 16 bits.
pub record Scanner : Type 1 where
  pub Input : Type 0
  pub Word : Type 0
  pub scan_int : Input → Option (ℤ × Input)
  pub scan_int-IsInt : (f f' : Input) (n : ℤ) → scan_int f ≡ some (n, f') → IsInt n
  pub scan_short : Input → Option (ℕ × Input)
  pub scan_word : Input → Option (Word × Input)
  pub inet_aton : Word → Option ℕ
  pub htons : ℕ → ℕ

-- A Config with the ints of the file.
pub record ParsedBgInfo : Type 0 where
  pub failure : ℤ
  pub addr : List SockaddrIn

pub record ParsedConfig : Type 0 where
  pub rg_bg_info : List ParsedBgInfo
  pub bg_id : ℤ
  pub sl_id : ℤ
  pub global_failures : ℤ
  pub request_per_sl_per_second : ℤ

-- numSL of a group that is there.
unfoldable pub parsed_num_sl : ParsedConfig → ℤ → ℕ
parsed_num_sl c bg = elim (get_elem? c.rg_bg_info (pos_part bg)) [
  | none ↦ 0
  | some info ↦ length info.addr
]

-- The tests after the last fscanf.
unfoldable pub has_own_place : ℤ → ParsedConfig → Bool
unfolding parsed_num_sl
has_own_place bg_num c =
    if ltb_ℤ c.bg_id (pos 0) || ltb_ℤ c.sl_id (pos 0)
    then false
    else if not (ltb_ℤ c.bg_id bg_num)
    then false
    else ltb_ℤ c.sl_id (pos (parsed_num_sl c c.bg_id))

module _ (s : Scanner) where
  open s use {Input, Word, scan_int, scan_short, scan_word, inet_aton, htons}

  abbrev pub Parser : Type 0 → Type 0
  Parser A = Input → Outcome (A × Input)

  module _ {A : Type 0} where
    abbrev pub pure : A → Parser A
    pure a f = done (a, f)

    -- A call of fscanf that must convert, and of inet_aton that must know the word.
    abbrev pub scan : (Input → Option (A × Input)) → Parser A
    scan conversion f = elim (conversion f) [
      | none ↦ thrown input_format
      | some (a, f') ↦ done (a, f')
    ]

    abbrev pub known : Option A → Parser A
    known none f = thrown input_format
    known (some a) f = done (a, f)

  infixl 5 ◌>>=◌
  abbrev pub ◌>>=◌ : {A B : Type 0} → Parser A → (A → Parser B) → Parser B
  ◌>>=◌ p k f = elim (p f) [
    | done (a, f') ↦ k a f'
    | thrown e ↦ thrown e
    | fail_fast ↦ fail_fast
    | undefined ↦ undefined
  ]

  unfoldable pub parse_addr : Parser SockaddrIn
  parse_addr = do
    word ← scan scan_word
    ip ← known (inet_aton word)
    port ← scan scan_short
    pure (record { sin_port = htons port; sin_addr = ip })

  unfoldable pub parse_addrs : ℕ → Parser (List SockaddrIn)
  parse_addrs zero = pure []
  parse_addrs (suc n) = do addr ← parse_addr; addrs ← parse_addrs n; pure (addr ∷ addrs)

  unfoldable pub parse_bg_info : Parser ParsedBgInfo
  parse_bg_info = do
    sl_num ← scan scan_int
    failure ← scan scan_int
    addrs ← parse_addrs (pos_part sl_num)
    pure (record { failure = failure; addr = addrs })

  unfoldable pub parse_bg_infos : ℕ → Parser (List ParsedBgInfo)
  parse_bg_infos zero = pure []
  parse_bg_infos (suc n) = do info ← parse_bg_info; infos ← parse_bg_infos n; pure (info ∷ infos)

  -- The number of groups that the file gives, and what it says of the node.
  unfoldable pub parse_fields : Parser (ℤ × ParsedConfig)
  parse_fields = do
    request_rate ← scan scan_int
    bg_num ← scan scan_int
    failures ← scan scan_int
    infos ← parse_bg_infos (pos_part bg_num)
    bg ← scan scan_int
    sl ← scan scan_int
    pure (
      bg_num,
      record {
        rg_bg_info = infos;
        bg_id = bg;
        sl_id = sl;
        global_failures = failures;
        request_per_sl_per_second = request_rate;
      },
    )

  unfoldable pub parse_from_file : Parser ParsedConfig
  parse_from_file = do
    (bg_num, config) ← parse_fields
    known (if has_own_place bg_num config then some config else none)
