-- ===== src/Scenarios/Files.antt =====
-- The theorems on parseFromFile at a file of two groups, given as text.
use rcanopus_membership.Prelude.{◌≡◌, refl, [], ◌∷◌, arith, take}
use rcanopus_membership.Prelude.Int.{pos, negsuc}
use rcanopus_membership.Outcome.{done, thrown, input_format, Ensures}
use rcanopus_membership.Config.Parse.{ParsedConfig, parse_from_file}
use rcanopus_membership.Config.Place.{HasOwnPlace, parse_from_file-HasOwnPlace}
use rcanopus_membership.Config.RoundTrip.{
  write_all, config_tokens, parse_from_file-config_tokens, parse_from_file_cut,
}
use rcanopus_membership.Scenarios.{localhost}
use rcanopus_membership.Scenarios.Text.{text_scanner, text_writer}
use rcanopus_membership.Scenarios.Text.Numbers.{show_nat}
use rcanopus_membership.Scenarios.Text.Addresses.{dotted}

abbrev parsed_groups : ParsedConfig
parsed_groups = record {
  rg_bg_info =
      record { failure = pos 0; addr = localhost ∷ localhost ∷ [] }
      ∷ record { failure = negsuc 0; addr = localhost ∷ [] }
      ∷ [];
  bg_id = pos 0;
  sl_id = pos 1;
  global_failures = pos 0;
  request_per_sl_per_second = pos 100;
}

parse_from_file-config_tokens_example :
    parse_from_file text_scanner
      (write_all text_scanner text_writer (config_tokens text_scanner text_writer parsed_groups) [])
    ≡ done (parsed_groups, [])
parse_from_file-config_tokens_example =
    parse_from_file-config_tokens text_scanner text_writer parsed_groups (omega arith)
      (0, 1, _, refl, refl, refl, omega arith)

parse_from_file_cut_example :
    parse_from_file text_scanner (
      write_all text_scanner text_writer
        (take 6 (config_tokens text_scanner text_writer parsed_groups))
        [])
    ≡ thrown input_format
unfolding config_tokens
parse_from_file_cut_example =
    parse_from_file_cut text_scanner text_writer parsed_groups 6 (omega arith) (omega arith)

parse_from_file-HasOwnPlace_example :
    Ensures (λ r. HasOwnPlace r.0) (parse_from_file text_scanner (51 ∷ []))
parse_from_file-HasOwnPlace_example = parse_from_file-HasOwnPlace text_scanner (51 ∷ [])

-- "127.0.0.1".
dotted_localhost : dotted localhost.sin_addr ≡ 49 ∷ 50 ∷ 55 ∷ 46 ∷ 48 ∷ 46 ∷ 48 ∷ 46 ∷ 49 ∷ []
unfolding show_nat
dotted_localhost = refl
