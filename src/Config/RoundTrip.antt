-- ===== src/Config/RoundTrip.antt =====
-- config.cpp, parseFromFile: what it reads of a file that was written from a configuration, whole or
-- cut short.
use mathlib.Core.Path.{subst}
use rcanopus_membership.Prelude.{
  ℕ, zero, suc, ◌<◌, ◌≡◌, refl, ◌∙◌, ap, ◌⊎◌, inl, inr, List, [], ◌∷◌, ◌++◌, Option, none, some,
  arith, length, take, Bool-cases, append-nil,
}
use rcanopus_membership.Prelude.Int.{IsInt, ℤ, pos}
use rcanopus_membership.Outcome.{done, thrown, input_format}
use rcanopus_membership.Config.{SockaddrIn}
use rcanopus_membership.Config.Place.{HasOwnPlace, has_own_place_iff}
use rcanopus_membership.Config.Parse.{
  Scanner, ParsedBgInfo, ParsedConfig, Parser, pure, scan, known, ◌>>=◌, parse_addr, parse_addrs,
  parse_bg_info, parse_bg_infos, parse_fields, parse_from_file, has_own_place,
}

-- What a file says, field by field: a word is an address in dotted form.
pub data Token : Type 0 where
  number : ℤ → Token
  port : ℕ → Token
  address : ℕ → Token

-- How a file is written: a field stands in front of what follows it, which is empty or starts with
-- white space, and fscanf and inet_aton read it back. At the end of the file fscanf converts nothing.
pub record Writer (s : Scanner) : Type 1 where
  pub end_of_file : s.Input
  pub IsSeparated : s.Input → Type 0
  pub write : Token → s.Input → s.Input
  pub inet_ntoa : ℕ → s.Word
  pub IsAddress : SockaddrIn → Type 0
  pub net_port : ℕ → ℕ
  pub end-IsSeparated : IsSeparated end_of_file
  pub write-IsSeparated : (t : Token) (f : s.Input) → IsSeparated f → IsSeparated (write t f)
  pub scan_int-write :
      (n : ℤ) (f : s.Input)
      → IsInt n
      → IsSeparated f
      → s.scan_int (write (number n) f) ≡ some (n, f)
  pub scan_short-write :
      (a : SockaddrIn) (f : s.Input)
      → IsAddress a
      → IsSeparated f
      → s.scan_short (write (port (net_port a.sin_port)) f) ≡ some (net_port a.sin_port, f)
  pub scan_word-write :
      (a : SockaddrIn) (f : s.Input)
      → IsAddress a
      → IsSeparated f
      → s.scan_word (write (address a.sin_addr) f) ≡ some (inet_ntoa a.sin_addr, f)
  pub inet_aton-inet_ntoa :
      (a : SockaddrIn) → IsAddress a → s.inet_aton (inet_ntoa a.sin_addr) ≡ some a.sin_addr
  pub htons-net_port : (a : SockaddrIn) → IsAddress a → s.htons (net_port a.sin_port) ≡ a.sin_port
  pub scan_int-end : s.scan_int end_of_file ≡ none
  pub scan_short-end : s.scan_short end_of_file ≡ none
  pub scan_word-end : s.scan_word end_of_file ≡ none

-- A prefix of two lists is a prefix of the first, or the first and a prefix of the second.
take-append_cases {ℓ} :
    {A : Type ℓ} (n : ℕ) (xs ys : List A)
    → n < length (xs ++ ys)
    → ((n < length xs) × (take n (xs ++ ys) ≡ take n xs))
      ⊎ ((m : ℕ) × (m < length ys) × (take n (xs ++ ys) ≡ xs ++ take m ys))
take-append_cases n [] ys h = inr (n, h, refl)
take-append_cases zero (x ∷ xs) ys h = inl (omega arith, refl)
take-append_cases (suc n) (x ∷ xs) ys h = elim (take-append_cases n xs ys (omega arith)) [
  | inl (k, e) ↦ inl (omega arith, ap (◌∷◌ x) e)
  | inr (m, k, e) ↦ inr (m, k, ap (◌∷◌ x) e)
]

module _ (s : Scanner) (w : Writer s) where
  open s use {Input, scan_int}
  open w use {IsSeparated, IsAddress, end_of_file, write}

  unfoldable pub write_all : List Token → Input → Input
  write_all [] f = f
  write_all (t ∷ ts) f = write t (write_all ts f)

  write_all-append :
      (ts us : List Token) (f : Input) → write_all (ts ++ us) f ≡ write_all ts (write_all us f)
  unfolding write_all
  write_all-append [] us f = refl
  write_all-append (t ∷ ts) us f = ap (write t) (write_all-append ts us f)

  write_all-IsSeparated :
      (ts : List Token) (f : Input) → IsSeparated f → IsSeparated (write_all ts f)
  unfolding write_all
  write_all-IsSeparated [] f h = h
  write_all-IsSeparated (t ∷ ts) f h = w.write-IsSeparated t _ (write_all-IsSeparated ts f h)

  -- The parser reads exactly these fields as this value, and no file that ends before the last one.
  record Reads {A : Type 0} (p : Parser s A) (ts : List Token) (a : A) : Type 0 where
    pub whole : (f : Input) → IsSeparated f → p (write_all ts f) ≡ done (a, f)
    pub cut : (n : ℕ) → n < length ts → p (write_all (take n ts) end_of_file) ≡ thrown input_format

  Reads-pure : {A : Type 0} (a : A) → Reads (pure s a) [] a
  unfolding write_all
  Reads-pure a = record { whole = λ f h. refl; cut = λ n h. absurd (omega arith) }

  bind_done :
      {A B : Type 0} (p : Parser s A) (k : A → Parser s B) (f f' : Input) (a : A)
      → p f ≡ done (a, f')
      → ◌>>=◌ s p k f ≡ k a f'
  bind_done p k f f' a e = rw (e, ◌>>=◌)

  bind_thrown :
      {A B : Type 0} (p : Parser s A) (k : A → Parser s B) (f : Input)
      → p f ≡ thrown input_format
      → ◌>>=◌ s p k f ≡ thrown input_format
  bind_thrown p k f e = rw (e, ◌>>=◌)

  Reads->>= :
      {A B : Type 0} (p : Parser s A) (k : A → Parser s B) (ts us : List Token) (a : A) (b : B)
      → Reads p ts a
      → Reads (k a) us b
      → Reads (◌>>=◌ s p k) (ts ++ us) b
  Reads->>= p k ts us a b r q = record {
    whole = λ f h.
        rw (write_all-append ts us f)
          (bind_done p k _ _ a (r.whole _ (write_all-IsSeparated us f h)) ∙ q.whole f h);
    cut = λ n h. elim (take-append_cases n ts us h) [
      | inl (l, e) ↦ rw e (bind_thrown p k _ (r.cut n l))
      | inr (m, l, e) ↦
          rw (e, write_all-append ts (take m us) end_of_file)
            (bind_done p k _ _ a (r.whole _ (write_all-IsSeparated _ _ w.end-IsSeparated))
              ∙ q.cut m l)
    ];
  }

  -- The last part that reads anything.
  Reads-last :
      {A B : Type 0} (p : Parser s A) (k : A → Parser s B) {ts : List Token} {a : A} {b : B}
      → Reads p ts a
      → Reads (k a) [] b
      → Reads (◌>>=◌ s p k) ts b
  Reads-last p k {ts} {a} {b} r q =
      subst (λ us. Reads (◌>>=◌ s p k) us b) (append-nil ts) (Reads->>= p k ts [] a b r q)

  Reads-scan :
      {A : Type 0} (conversion : Input → Option (A × Input)) (t : Token) (a : A)
      → ((f : Input) → IsSeparated f → conversion (write t f) ≡ some (a, f))
      → conversion end_of_file ≡ none
      → Reads (scan s conversion) (t ∷ []) a
  unfolding write_all
  Reads-scan conversion t a h e = record {
    whole = λ f sep. rw (h f sep, scan);
    cut = λ n l. let z : n ≡ 0 = omega arith in rw (z, e, scan);
  }

  Reads-int : (n : ℤ) → IsInt n → Reads (scan s scan_int) (number n ∷ []) n
  Reads-int n h = Reads-scan scan_int (number n) n (λ f. w.scan_int-write n f h) w.scan_int-end

  Reads-known : {A : Type 0} (o : Option A) (a : A) → o ≡ some a → Reads (known s o) [] a
  unfolding write_all
  Reads-known o a e = record { whole = λ f sep. rw e; cut = λ n l. absurd (omega arith) }

  addr_tokens : SockaddrIn → List Token
  addr_tokens a = address a.sin_addr ∷ port (w.net_port a.sin_port) ∷ []

  Reads-addr : (a : SockaddrIn) → IsAddress a → Reads (parse_addr s) (addr_tokens a) a
  unfolding parse_addr addr_tokens
  Reads-addr a v =
      Reads->>= _ _ (address a.sin_addr ∷ []) _ (w.inet_ntoa a.sin_addr) a
        (Reads-scan s.scan_word _ _ (λ f. w.scan_word-write a f v) w.scan_word-end)
        (Reads->>= _ _ [] _ a.sin_addr a (Reads-known _ _ (w.inet_aton-inet_ntoa a v)) (
          Reads->>= _ _ (port (w.net_port a.sin_port) ∷ []) [] (w.net_port a.sin_port) a
            (Reads-scan s.scan_short _ _ (λ f. w.scan_short-write a f v) w.scan_short-end)
            (rw (w.htons-net_port a v) (Reads-pure a))))

  addrs_tokens : List SockaddrIn → List Token
  addrs_tokens [] = []
  addrs_tokens (a ∷ rest) = addr_tokens a ++ addrs_tokens rest

  abbrev AreAddresses : List SockaddrIn → Type 0
  AreAddresses [] = Unit
  AreAddresses (a ∷ rest) = IsAddress a × AreAddresses rest

  Reads-addrs :
      (rest : List SockaddrIn)
      → AreAddresses rest
      → Reads (parse_addrs s (length rest)) (addrs_tokens rest) rest
  unfolding parse_addrs addrs_tokens
  Reads-addrs [] v = Reads-pure []
  Reads-addrs (a ∷ rest) v =
      Reads->>= _ _ (addr_tokens a) (addrs_tokens rest) a (a ∷ rest) (Reads-addr a v.0)
        (Reads-last _ _ (Reads-addrs rest v.1) (Reads-pure _))

  bg_tokens : ParsedBgInfo → List Token
  bg_tokens info = number (pos (length info.addr)) ∷ number info.failure ∷ addrs_tokens info.addr

  -- The number of super leaves and of failures are ints, and the super leaves have addresses.
  abbrev IsWritableGroup : ParsedBgInfo → Type 0
  IsWritableGroup info =
      IsInt (pos (length info.addr)) × IsInt info.failure × AreAddresses info.addr

  Reads-bg_info :
      (info : ParsedBgInfo) → IsWritableGroup info → Reads (parse_bg_info s) (bg_tokens info) info
  unfolding parse_bg_info bg_tokens
  Reads-bg_info info v = Reads->>= _ _ (_ ∷ []) _ _ _ (Reads-int (pos (length info.addr)) v.0) (
      Reads->>= _ _ (_ ∷ []) _ _ _ (Reads-int info.failure v.1)
        (Reads-last _ _ (Reads-addrs info.addr v.2) (Reads-pure _)))

  bgs_tokens : List ParsedBgInfo → List Token
  bgs_tokens [] = []
  bgs_tokens (info ∷ infos) = bg_tokens info ++ bgs_tokens infos

  abbrev AreWritableGroups : List ParsedBgInfo → Type 0
  AreWritableGroups [] = Unit
  AreWritableGroups (info ∷ infos) = IsWritableGroup info × AreWritableGroups infos

  Reads-bg_infos :
      (infos : List ParsedBgInfo)
      → AreWritableGroups infos
      → Reads (parse_bg_infos s (length infos)) (bgs_tokens infos) infos
  unfolding parse_bg_infos bgs_tokens
  Reads-bg_infos [] v = Reads-pure []
  Reads-bg_infos (info ∷ infos) v =
      Reads->>= _ _ (bg_tokens info) (bgs_tokens infos) info (info ∷ infos) (Reads-bg_info info v.0)
        (Reads-last _ _ (Reads-bg_infos infos v.1) (Reads-pure _))

  -- What a file says of a configuration, in the order of the format.
  unfoldable pub config_tokens : ParsedConfig → List Token
  unfolding bgs_tokens bg_tokens addrs_tokens addr_tokens
  config_tokens c =
      number c.request_per_sl_per_second
        ∷ number (pos (length c.rg_bg_info))
        ∷ number c.global_failures
        ∷ bgs_tokens c.rg_bg_info
      ++ number c.bg_id ∷ number c.sl_id ∷ []

  -- The numbers of a configuration are ints of 32 bits, and its super leaves have addresses.
  abbrev pub IsWritable : ParsedConfig → Type 0
  IsWritable c =
      (IsInt c.request_per_sl_per_second × IsInt (pos (length c.rg_bg_info)))
      × (IsInt c.global_failures × IsInt c.bg_id × IsInt c.sl_id)
      × AreWritableGroups c.rg_bg_info

  Reads-fields :
      (c : ParsedConfig)
      → IsWritable c
      → Reads (parse_fields s) (config_tokens c) (pos (length c.rg_bg_info), c)
  unfolding parse_fields config_tokens
  Reads-fields c v = Reads->>= _ _ (_ ∷ []) _ _ _ (Reads-int c.request_per_sl_per_second v.0.0) (
      Reads->>= _ _ (_ ∷ []) _ _ _ (Reads-int (pos (length c.rg_bg_info)) v.0.1) (
        Reads->>= _ _ (_ ∷ []) _ _ _ (Reads-int c.global_failures v.1.0) (
          Reads->>= _ _ (bgs_tokens c.rg_bg_info) _ _ _ (Reads-bg_infos c.rg_bg_info v.2) (
            Reads->>= _ _ (_ ∷ []) _ _ _ (Reads-int c.bg_id v.1.1)
              (Reads-last _ _ (Reads-int c.sl_id v.1.2) (Reads-pure _))))))

  -- What parseFromFile makes of a file that is written from a configuration whose numbers are ints
  -- of 32 bits and whose super leaves have addresses: if the configuration has the node's own place, the
  -- same configuration.
  pub parse_from_file-config_tokens :
      (c : ParsedConfig)
      → IsWritable c
      → HasOwnPlace c
      → parse_from_file s (write_all (config_tokens c) end_of_file) ≡ done (c, end_of_file)
  unfolding parse_from_file
  parse_from_file-config_tokens c v h =
      bind_done (parse_fields s) _ _ _ _ ((Reads-fields c v).whole _ w.end-IsSeparated)
      ∙ rw ((has_own_place_iff _ c refl).1 h)

  -- If a file that is written from a configuration whose numbers are ints of 32 bits and whose super
  -- leaves have addresses ends before the last field, parseFromFile throws EXCEPTION_INPUT_FORMAT.
  pub parse_from_file_cut :
      (c : ParsedConfig) (n : ℕ)
      → IsWritable c
      → n < length (config_tokens c)
      → parse_from_file s (write_all (take n (config_tokens c)) end_of_file) ≡ thrown input_format
  unfolding parse_from_file
  parse_from_file_cut c n v h = bind_thrown (parse_fields s) _ _ ((Reads-fields c v).cut n h)

  -- If a configuration whose numbers are ints of 32 bits and whose super leaves have addresses does not have the node's own place, parseFromFile throws
  -- EXCEPTION_INPUT_FORMAT for the file that is written from it.
  pub parse_from_file_misplaced :
      (c : ParsedConfig)
      → IsWritable c
      → ¬ (HasOwnPlace c)
      → parse_from_file s (write_all (config_tokens c) end_of_file) ≡ thrown input_format
  unfolding parse_from_file
  parse_from_file_misplaced c v none_there =
      bind_done (parse_fields s) _ _ _ _ ((Reads-fields c v).whole _ w.end-IsSeparated)
      ∙ elim (Bool-cases (has_own_place (pos (length c.rg_bg_info)) c)) [
        | inl e ↦ absurd (none_there ((has_own_place_iff _ c refl).0 e))
        | inr e ↦ rw e
      ]
