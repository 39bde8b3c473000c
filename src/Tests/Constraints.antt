-- ===== src/Tests/Constraints.antt =====
-- Version ranges as advisories write them, and the theorems on their check.
use otscout.Normalize.Vers.Printed.{sign_text, print_constraint, print_parts, print_vers}
use otscout.Normalize.Version.{
  trim_left, trim_right, trim_space, drop_v, prepare, run_of, value_onto, atoi, scan,
  tokenize_version, text_compare, compare_at, compare_loop, compare_tokens, compare_present,
  generic_compare,
}
use otscout.Normalize.Vers.Printed.Roundtrip.{parse_vers-print}
use otscout.Protocol.Reader.{split_words, fields, join}
use otscout.Normalize.Search.{
  greater_equal, cut, strip_suffix, has_digit, token_here, tokens_behind, version_tokens,
  first_token, last_token, operator_here, value_here, pair_here, pairs_behind, operator_pairs, less,
}
use otscout.Normalize.Evaluate.Verdict.Convex.{evaluate-convex}
use otscout.Normalize.Constraint.{
  up_to, eq, all, between, lte, unknown, lt, no_bounds, with_raw, of_prefix, exactly, from,
  interval, set_bound, set_bounds, kind_of, constraint_from_operators,
}
use otscout.Normalize.Parse.Fitting.{parse_constraint-WellFormed}
use otscout.Normalize.Schemes.{generic, compare_versions}
use otscout.Normalize.Parse.{
  parse_constraint, version_after_phrase, version_before_phrase, version_by, trim_dot, release_line,
  prefix_by, wildcard_prefix, range_of, range_by, constraint_from_range_phrase, bare_version,
  parse_phrases, parse_without_version, parse_tokens, parse_words, parse_operators, squeeze,
  parse_text,
}
use otscout.Prelude.{
  true, to_lower, lower, codes, space_width, drop_blank, ◌≡◌, some, has_prefix, false, text_eq,
  arith, contains, is_blank, ◌∷◌, has_byte, [], refl,
}
use otscout.Normalize.Evaluate.{
  evaluate, affected, not_affected, indeterminate, tokens_agree, is_line, version_has_prefix,
  answer, check_lower, check_upper, check_prefix, check_bounds, evaluate_reported,
}
use otscout.Normalize.Vers.{
  parse_vers, vers_of, vers_value, try_operators, parse_vers_constraint, vers_single, join_bounds,
  vers_pair, split_on, parse_parts, vers_body,
}
use otscout.Normalize.Constraint.Kinds.{WellFormed}

-- Opens all that parsing and checking compute with.
unfoldable evaluation : Unit {0}
unfolding to_lower lower space_width drop_blank has_prefix text_eq contains is_blank has_byte
    split_words fields join trim_left trim_right trim_space drop_v prepare run_of value_onto atoi
    scan tokenize_version text_compare compare_at compare_loop compare_tokens compare_present
    generic_compare cut strip_suffix has_digit token_here tokens_behind version_tokens first_token
    last_token operator_here value_here pair_here pairs_behind operator_pairs no_bounds with_raw
    of_prefix exactly up_to from interval set_bound set_bounds kind_of constraint_from_operators
    vers_value try_operators parse_vers_constraint vers_single join_bounds vers_pair split_on
    parse_parts vers_of vers_body parse_vers version_after_phrase version_before_phrase version_by
    trim_dot release_line prefix_by wildcard_prefix range_of range_by constraint_from_range_phrase
    bare_version parse_phrases parse_without_version parse_tokens parse_words parse_operators
    squeeze parse_text parse_constraint tokens_agree is_line version_has_prefix answer check_lower
    check_upper check_prefix check_bounds evaluate_reported evaluate compare_versions sign_text
    print_constraint print_parts print_vers
evaluation = tt

phrase_runs :
    (parse_constraint (codes "All versions prior to V4.5")
      ≡ record (up_to (codes "v4.5") false) { raw = codes "All versions prior to V4.5" })
    × ((parse_constraint (codes "4.5 and prior")).kind ≡ lte)
    × ((parse_constraint (codes "V1.0 to V2.0")).kind ≡ between)
    × ((parse_constraint (codes "2.1.x")).prefix_line ≡ codes "2.1")
    × ((parse_constraint (codes "<R15A")).upper ≡ codes "r15a")
    × ((parse_constraint (codes "up to but not including 3")).kind ≡ lt)
    × ((parse_constraint (codes "see the notes")).kind ≡ unknown)
unfolding evaluation
phrase_runs = (refl, refl, refl, refl, refl, refl, refl)

vers_runs :
    ((parse_constraint (codes "vers:all/*")).kind ≡ all)
    × ((parse_constraint (codes "vers:intdot/<20.019|>=20.011")).kind ≡ between)
    × ((parse_constraint (codes "vers:intdot/!=20.011")).kind ≡ unknown)
    × ((parse_constraint (codes "vers:intdot/1|2|3")).kind ≡ unknown)
unfolding evaluation
vers_runs = (refl, refl, refl, refl)

-- Outside the specifier the exclusion of a version is read as that version alone: the operator is
-- looked for without its first sign.
excluded_run :
    ((parse_constraint (codes "!=1.0")).kind ≡ eq)
    × ((evaluate (parse_constraint (codes "!=1.0")) (codes "1.0") generic).result ≡ affected)
    × ((evaluate (parse_constraint (codes "!=1.0")) (codes "2.0") generic).result ≡ not_affected)
unfolding evaluation
excluded_run = (refl, refl, refl)

evaluate_runs :
    ((evaluate (parse_constraint (codes "< 4.5")) (codes "V4.4 SP1") generic).result ≡ affected)
    × ((evaluate (parse_constraint (codes "< 4.5")) (codes "4.5.1") generic).result ≡ not_affected)
    × ((evaluate (parse_constraint (codes "< 4.5")) (codes " ") generic).result ≡ indeterminate)
    × ((evaluate (parse_constraint (codes "2.1.x")) (codes "2.10.0") generic).result ≡ not_affected)
unfolding evaluation
evaluate_runs = (refl, refl, refl, refl)

parse_constraint-WellFormed_example : WellFormed (parse_constraint (codes ">= 2.0, < 3.1"))
parse_constraint-WellFormed_example = parse_constraint-WellFormed (codes ">= 2.0, < 3.1")

evaluate-convex_example :
    (evaluate (parse_constraint (codes ">= 2.0, < 3.1")) (codes "2.5") generic).result ≡ affected
unfolding evaluation
evaluate-convex_example =
    evaluate-convex (codes ">= 2.0, < 3.1") (codes "2.0") (codes "2.5") (codes "3.0.9")
      (ground arith) refl refl refl refl refl

parse_vers-print_example :
    parse_vers (codes "vers:intdot/>=20.011|<20.019")
    ≡ some (
        vers_of (
          some (
            (record { op = greater_equal; version = codes "20.011" })
            ∷ (record { op = less; version = codes "20.019" })
            ∷ [])))
unfolding evaluation
parse_vers-print_example =
    parse_vers-print (codes "intdot") (record { op = greater_equal; version = codes "20.011" })
      ((record { op = less; version = codes "20.019" }) ∷ [])
      (refl, (refl, (refl, (refl, (refl, (refl, tt))))))
      (
        (refl, (refl, (refl, (refl, (refl, (refl, (refl, tt))))))),
        ((refl, (refl, (refl, (refl, (refl, (refl, (refl, tt))))))), tt),
      )

-- The white space of Unicode.
trim_space_runs :
    (trim_space (0xC2 ∷ 0xA0 ∷ b'4' ∷ b' ' ∷ b'5' ∷ 0xE3 ∷ 0x80 ∷ 0x80 ∷ b'\t' ∷ []) ≡ codes "4 5")
    × (is_blank (0xE2 ∷ 0x80 ∷ 0xA8 ∷ 0xC2 ∷ 0x85 ∷ []) ≡ true)
    × (is_blank (0xE2 ∷ 0x80 ∷ 0x8B ∷ []) ≡ false)
    × (fields (b'a' ∷ 0xE1 ∷ 0x9A ∷ 0x80 ∷ b'b' ∷ []) ≡ codes "a" ∷ codes "b" ∷ [])
unfolding evaluation
trim_space_runs = (refl, refl, refl, refl)
