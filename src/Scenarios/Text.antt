-- ===== src/Scenarios/Text.antt =====
-- fscanf and inet_aton on the bytes of a text, for the theorems on parseFromFile, and a writer of
-- such texts.
pub mod Numbers
pub mod Addresses
use rcanopus_membership.Prelude.{
  ℕ, ◌+◌, ◌*◌, ◌/◌, ◌%◌, ◌<◌, ◌≡◌, refl, List, [], ◌∷◌, ◌++◌, none, arith,
}
use rcanopus_membership.Config.{SockaddrIn}
use rcanopus_membership.Config.Parse.{Scanner}
use rcanopus_membership.Config.RoundTrip.{Token, number, port, address, Writer}
use rcanopus_membership.Scenarios.Text.Numbers.{
  IsSeparated, scan_int, scan_short, show_int, of_bits, scan_int-IsInt, scan_int-show,
  scan_short-show,
}
use rcanopus_membership.Scenarios.Text.Addresses.{
  dotted, scan_word, inet_aton, inet_aton-dotted, scan_word-dotted,
}

-- The bytes of a short in the other order, as on a host with the low byte first.
abbrev pub swap_bytes : ℕ → ℕ
swap_bytes x = x % 256 * 256 + x / 256

abbrev pub text_scanner : Scanner
text_scanner = record {
  Input = List ℕ;
  Word = List ℕ;
  scan_int = scan_int;
  scan_int-IsInt = scan_int-IsInt;
  scan_short = scan_short;
  scan_word = scan_word;
  inet_aton = inet_aton;
  htons = swap_bytes;
}

abbrev pub write : Token → List ℕ → List ℕ
write (number z) f = 32 ∷ show_int z f
write (port n) f = 32 ∷ show_int (of_bits n) f
write (address a) f = 32 ∷ dotted a ++ f

abbrev pub IsAddress : SockaddrIn → Type 0
IsAddress a = (a.sin_port < 65536) × (a.sin_addr < 4294967296)

pub write-IsSeparated : (t : Token) (f : List ℕ) → IsSeparated f → IsSeparated (write t f)
write-IsSeparated (number z) f h = refl
write-IsSeparated (port n) f h = refl
write-IsSeparated (address a) f h = refl

pub swap_bytes_back :
    (a : SockaddrIn) → IsAddress a → swap_bytes (swap_bytes a.sin_port) ≡ a.sin_port
swap_bytes_back a h = omega arith

pub nothing_left : (scan_int [] ≡ none) × (scan_short [] ≡ none) × (scan_word [] ≡ none)
unfolding scan_int scan_short scan_word
nothing_left = (refl, refl, refl)

abbrev pub text_writer : Writer text_scanner
text_writer = record {
  end_of_file = [];
  IsSeparated = IsSeparated;
  write = write;
  inet_ntoa = dotted;
  IsAddress = IsAddress;
  net_port = swap_bytes;
  end-IsSeparated = tt;
  write-IsSeparated = write-IsSeparated;
  scan_int-write = scan_int-show;
  scan_short-write = λ a f v h. scan_short-show (swap_bytes a.sin_port) f (omega (arith, v)) h;
  scan_word-write = λ a f v h. scan_word-dotted a.sin_addr f h;
  inet_aton-inet_ntoa = λ a v. inet_aton-dotted a.sin_addr v.1;
  htons-net_port = swap_bytes_back;
  scan_int-end = nothing_left.0;
  scan_short-end = nothing_left.1;
  scan_word-end = nothing_left.2;
}
