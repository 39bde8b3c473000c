-- ===== src/Tests/Matches.antt =====
-- Devices and advisories, a run of the matcher, and the theorems on it.
use otscout.Match.Finding.Counted.{Counts, finalize-Counts}
use otscout.Match.Run.Justified.{IsJustified, run-AllJustified}
use otscout.Match.Attach.Distinct.{Ascending, dedupe-Ascending}
use otscout.Match.Compare.Grounds.{Grounded, compare_identity-Grounded}
use otscout.Tests.Floats.{thousandths}
use otscout.Match.Candidate.Best.{sum_of, Unbeaten, stable_sort-Unbeaten}
use otscout.Match.Attach.Touching.{touching, named_cves}
use otscout.Match.Index.Complete.{scan_products, scan_from, refs_of-index_corpus}
use otscout.Asset.Identity.{empty, Identity, no_identity}
use otscout.Asset.Addresses.{primary, identity_label, Asset}
use otscout.Match.Run.{
  add_candidate, settle, weigh, weigh_refs, new_id, labels, matched_ids, complete, build_from,
  build_finding, build_all, match_asset, run_one, run_all, run, Options, Normalizer, new_set,
}
use otscout.Match.Index.{
  add_ref, refs_of, index_products, is_before, nth, index_from, index_corpus, product_at,
}
use otscout.Match.Finding.{
  constraint_text, score_of, priority, goes_before, add_names, count_one, count_all, finalize,
  FloatArith, Set, Finding, described,
}
use otscout.Match.Attach.{
  any_matched, distinct, dedupe, advice_eq, has_advice, distinct_advice, keep_advice,
  attach_remediations, attach_references, attach_one, touches, attach_all,
}
use otscout.Advisory.{
  first_non_empty, has_prefix_fold, has_suffix_fold, product_label, cvss_rank, better_than,
  best_onto, best_score, affected_products, severity, worst_onto, advisory_severity, any_kev,
  Product, Advisory, Vulnerability, severity_critical, known_affected,
}
use otscout.Match.Candidate.{
  beats, insert_before, sort_onto, stable_sort, tier_for, version_kind, version_reason,
  vendor_reason, tier_confirmed, Tier, Candidate,
}
use otscout.Match.Compare.{
  passed_reason, failed_reason, match_of, cpe_matches_catalog, exact_kind, exact_match,
  contained_match, containment_match, pair_match, consider, over_advisory, over_fields, conclude,
  compare_names, compare_codes, compare_identity,
}
use otscout.Match.Fields.{
  new_field, has_key, collect_from, collect_fields, asset_fields, advisory_fields, is_family_name,
  demote_family_names, any_telling, informative, finer_designation, advisory_outranks_match,
  phrase_here, phrase_from, contains_whole_phrase, replace_first, adds_only_filler,
  strength_product, strength_none, strength_family,
}
use otscout.Normalize.Lookup.{
  first_of_vendor, pick_family, resolve_in, resolve, resolve_longest, lookup_product, match_exact,
  FamilyMatch, match_token_subset, MatchMethod,
}
use otscout.Normalize.Product.{
  key_byte, product_key, compact_key, catalog_key, words_start, words_within, contains_words,
  append_unique, add_family, families_of, key_before, add_key, add_alias, add_model, add_all,
  has_id, add_record, add_records, parse_product_table, FamilyRecord, ProductTable, no_table,
}
use otscout.Normalize.Schemes.{
  compare_versions, comparator_for, take_numbers, read_counters, siemens_of, parse_siemens_version,
  order_parts, order_siemens, siemens_compare, siemens,
}
use otscout.Normalize.Evaluate.{
  tokens_agree, is_line, version_has_prefix, answer, check_lower, check_upper, check_prefix,
  check_bounds, evaluate_reported, evaluate, affected, inside,
}
use otscout.Normalize.Vers.{split_on}
use otscout.Normalize.Constraint.{no_bounds, with_raw, up_to, Constraint}
use otscout.Normalize.Search.{cut}
use otscout.Normalize.Version.{
  trim_left, trim_right, trim_space, drop_v, prepare, run_of, value_onto, atoi, scan,
  tokenize_version, text_compare, compare_at, compare_loop, compare_tokens, compare_present,
  generic_compare,
}
use otscout.Protocol.Reader.{split_words, fields, join}
use otscout.Prelude.{
  drop_blank, not, ◌&&◌, to_lower, lower, space_width, has_prefix, text_eq, contains, is_blank,
  has_byte, equal_fold, none, Text, ◌≡◌, codes, [], ◌∷◌, false, refl, List, true, Option, Bool,
  some, ℕ, ◌+◌, ◌-◌, ◌*◌, ◌/◌, All, inl, is_empty, inr, ◌++◌,
}

-- Opens all that a comparison of names computes with.
unfoldable evaluation : Unit {0}
unfolding drop_blank to_lower lower space_width has_prefix text_eq contains is_blank has_byte
    split_words fields join trim_left trim_right trim_space drop_v prepare run_of value_onto atoi
    scan tokenize_version text_compare compare_at compare_loop compare_tokens compare_present
    generic_compare cut equal_fold take_numbers read_counters siemens_of parse_siemens_version
    order_parts order_siemens siemens_compare no_bounds with_raw up_to split_on tokens_agree is_line
    version_has_prefix answer check_lower check_upper check_prefix check_bounds evaluate_reported
    evaluate compare_versions comparator_for key_byte product_key compact_key catalog_key
    words_start words_within contains_words append_unique add_family families_of key_before add_key
    add_alias add_model add_all has_id add_record add_records parse_product_table first_of_vendor
    pick_family resolve_in resolve resolve_longest lookup_product new_field has_key collect_from
    collect_fields asset_fields advisory_fields is_family_name demote_family_names any_telling
    informative finer_designation advisory_outranks_match phrase_here phrase_from
    contains_whole_phrase replace_first adds_only_filler passed_reason failed_reason match_of
    cpe_matches_catalog exact_kind exact_match contained_match containment_match pair_match consider
    over_advisory over_fields conclude compare_names compare_codes compare_identity beats
    insert_before sort_onto stable_sort tier_for version_kind version_reason vendor_reason
    first_non_empty has_prefix_fold has_suffix_fold product_label cvss_rank better_than best_onto
    best_score affected_products severity worst_onto advisory_severity any_matched distinct dedupe
    advice_eq has_advice distinct_advice keep_advice attach_remediations attach_references
    attach_one touches attach_all constraint_text score_of priority goes_before add_names count_one
    count_all finalize add_ref refs_of index_products is_before nth index_from index_corpus
    product_at add_candidate settle weigh weigh_refs new_id labels matched_ids complete build_from
    build_finding build_all match_asset run_one run_all run primary identity_label empty
    scan_products scan_from touching named_cves any_kev sum_of
evaluation = tt

abbrev s7_1200 : FamilyRecord
s7_1200 = record {
  id = codes "s7-1200";
  vendor = codes "siemens";
  display = codes "SIMATIC S7-1200";
  aliases = codes "S7-1200" ∷ [];
  models = codes "CPU 1214C" ∷ [];
}

-- A controller that knows its model and its firmware.
abbrev controller : Identity
controller = record no_identity {
  vendor = codes "siemens";
  product = codes "SIMATIC S7-1200";
  model = codes "CPU 1214C";
  firmware = codes "4.4";
}

abbrev product_of : Text → Text → Constraint → Product
product_of id' name' range = record {
  id = id';
  name = [];
  vendor_raw = codes "Siemens";
  vendor = codes "siemens";
  family_raw = [];
  family = codes "SIMATIC S7-1200";
  product_raw = [];
  product_name = [];
  model = name';
  catalog_number = [];
  version_raw = [];
  version = range;
  cpe = [];
}

abbrev same_model : Product
same_model = product_of (codes "P1") (codes "CPU 1214C") (up_to (codes "4.5") false)

abbrev other_model : Product
other_model = product_of (codes "P2") (codes "CPU 1215C") (up_to (codes "4.5") false)

abbrev fixed_family : Product
fixed_family = product_of (codes "P3") [] (up_to (codes "4.0") false)

-- A model that the device did not report is matched by the family alone, and the advisory is the more
-- specific of the two.
compare_identity_runs :
    ((compare_identity none controller same_model).strength ≡ strength_product)
    × ((compare_identity none controller other_model).strength ≡ strength_family)
    × ((compare_identity none controller other_model).advisory_more_specific ≡ true)
    × ((compare_identity none controller (record other_model { family = [] })).strength
        ≡ strength_none)
unfolding evaluation
compare_identity_runs = (refl, refl, refl, refl)

abbrev sums : FloatArith thousandths
sums = record {
  plus = λ x y. elim x [ none ↦ none | some a ↦ elim y [ none ↦ none | some b ↦ some (a + b) ] ];
  minus = λ x y. elim x [ none ↦ none | some a ↦ elim y [ none ↦ none | some b ↦ some (a - b) ] ];
  times = λ x y. elim x [
    | none ↦ none
    | some a ↦ elim y [ none ↦ none | some b ↦ some (a * b / 1000) ]
  ];
  hundredths = λ n. some (n * 10);
}

abbrev flaw : Text → List Text → Bool → Vulnerability (Option ℕ)
flaw cve' ids listed = record {
  cve = cve';
  scores =
      record {
        version = codes "3.1";
        vector = [];
        base_score = some 9800;
        severity = severity_critical;
      }
      ∷ [];
  status = λ s. elim s [ known_affected ↦ ids | _ ↦ [] ];
  remediations = [];
  references = [];
  kev = listed;
  epss = none;
}

abbrev bulletin : Advisory (Option ℕ)
bulletin = record {
  id = codes "SSA-1";
  source = codes "csaf";
  title = codes "S7-1200";
  url = [];
  published = some 100;
  products = other_model ∷ same_model ∷ fixed_family ∷ [];
  vulnerabilities =
      flaw (codes "CVE-2") (codes "P1" ∷ []) false
      ∷ flaw (codes "CVE-1") (codes "P1" ∷ codes "P2" ∷ []) true
      ∷ flaw (codes "CVE-3") (codes "P9" ∷ []) true
      ∷ [];
}

abbrev device : Asset
device = record {
  id = codes "A1";
  addresses = record { ipv4 = codes "10.0.0.5"; ipv6 = []; mac = []; hostname = [] };
  identity = controller;
  purdue = [];
  role = [];
  services = [];
  evidence = [];
  tags = [];
  first_seen = 0;
  last_seen = 0;
  sources = [];
}

abbrev plain : Normalizer
plain = record { products = none; identity = λ i. i; version_scheme = λ v. v }

abbrev everything : Options
everything = record { min_tier = none; since = none }

abbrev result : Set thousandths
result = run thousandths sums plain everything (bulletin ∷ []) (device ∷ [])

abbrev tiers : List (Finding thousandths) → List (Tier × List Text)
tiers [] = []
tiers (f ∷ fs) = (f.tier, f.cves) ∷ tiers fs

-- One finding for three products: the one with the model decides, the family that its version rules out
-- is counted, and the CVE of another product is left out.
run_result :
    (tiers result.findings ≡ (tier_confirmed, codes "CVE-1" ∷ codes "CVE-2" ∷ []) ∷ [])
    × (result.summary.ruled_out_by_version ≡ 1)
    × (result.summary.total ≡ 1)
unfolding evaluation
run_result = (refl, refl, refl)

abbrev table : ProductTable
table = elim (parse_product_table (s7_1200 ∷ [])) [ inl _ ↦ no_table | inr t ↦ t ]

abbrev outcome : Option FamilyMatch → Option (MatchMethod × Bool)
outcome none = none
outcome (some m) = some (m.method, m.via_model)

-- With the table, the name of the family is one wherever it stands.
lookup_product_runs :
    (outcome (lookup_product table (codes "siemens") (codes "SIMATIC S7_1200"))
      ≡ some (match_exact, false))
    × (outcome (lookup_product table (codes "siemens") (codes "CPU1214C"))
        ≡ some (match_exact, true))
    × (outcome (lookup_product table (codes "siemens") (codes "the CPU 1214C DC/DC/DC"))
        ≡ some (match_token_subset, true))
    × (outcome (lookup_product table (codes "abb") (codes "CPU 1214C")) ≡ none)
unfolding evaluation
lookup_product_runs = (refl, refl, refl, refl)

compare_identity-Grounded_example :
    Grounded
      (some table)
      controller
      same_model
      (compare_identity (some table) controller same_model)
compare_identity-Grounded_example = compare_identity-Grounded (some table) controller same_model

refs_of-index_corpus_example :
    refs_of (codes "siemens") (index_corpus (some 50) (bulletin ∷ []))
    ≡ scan_from (some 50) 0 (codes "siemens") (bulletin ∷ [])
refs_of-index_corpus_example = refs_of-index_corpus (some 50) (codes "siemens") (bulletin ∷ []) refl

abbrev candidate_of : ℕ → Product → Candidate
candidate_of i p = record {
  ref = record { advisory = 0; product = i };
  product = p;
  identity = compare_identity none controller p;
  eval = evaluate p.version controller.firmware siemens;
}

abbrev candidates : List Candidate
candidates = candidate_of 0 other_model ∷ candidate_of 1 same_model ∷ []

stable_sort-Unbeaten_example :
    Unbeaten (stable_sort beats candidates)
    × ((f : Candidate → ℕ) → sum_of f (stable_sort beats candidates) ≡ sum_of f candidates)
stable_sort-Unbeaten_example = stable_sort-Unbeaten candidates

run-AllJustified_example : All (IsJustified thousandths sums) result.findings
run-AllJustified_example =
    run-AllJustified thousandths sums plain everything (bulletin ∷ []) (device ∷ [])

dedupe-Ascending_example :
    Ascending (dedupe (codes "b" ∷ codes "" ∷ codes "a" ∷ codes "b" ∷ []))
    × ((v : Text)
        → has_key v (dedupe (codes "b" ∷ codes "" ∷ codes "a" ∷ codes "b" ∷ []))
          ≡ (not (is_empty v) && has_key v (codes "b" ∷ codes "" ∷ codes "a" ∷ codes "b" ∷ [])))
dedupe-Ascending_example = dedupe-Ascending (codes "b" ∷ codes "" ∷ codes "a" ∷ codes "b" ∷ [])

abbrev found_finding : Finding thousandths
found_finding = record {
  id = codes "A1:SSA-1:P1";
  asset_id = codes "A1";
  asset_address = codes "10.0.0.5";
  asset_label = codes "siemens SIMATIC S7-1200 4.4";
  asset_purdue = [];
  asset_role = [];
  advisory_id = codes "SSA-1";
  advisory_source = codes "csaf";
  title = codes "S7-1200";
  published = some 100;
  cves = codes "CVE-1" ∷ codes "CVE-2" ∷ [];
  tier = tier_confirmed;
  score = some 900;
  cvss = some 9800;
  cvss_vector = [];
  severity = severity_critical;
  kev = true;
  epss = some 0;
  matched_vendor = codes "Siemens";
  matched_product = codes "Siemens";
  matched_version = [];
  matched_product_id = codes "P1";
  also_matched = [];
  asset_identity = controller;
  evidence_ids = [];
  version_check = record {
    asset_version = codes "4.4";
    constraint = described (up_to (codes "4.5") false);
    comparator = siemens;
    result = affected;
    explanation = inside (codes "4.4") (up_to (codes "4.5") false);
  };
  reasons =
      vendor_reason controller same_model ∷ (compare_identity none controller same_model).reasons
      ++ version_reason (candidate_of 1 same_model) ∷ [];
  fix_available = false;
  remediations = [];
  references = [];
}

abbrev one_finding : Set thousandths
one_finding = record (new_set thousandths sums (device ∷ [])) { findings = found_finding ∷ [] }

finalize-Counts_example : Counts thousandths one_finding (finalize thousandths sums one_finding)
finalize-Counts_example = finalize-Counts thousandths sums one_finding

-- A device that names its family alone, and an advisory that does the same.
abbrev family_device : Identity
family_device = record no_identity { vendor = codes "siemens"; family = codes "SIMATIC S7-1200" }

family_confirmed :
    ((compare_identity none family_device fixed_family).strength ≡ strength_family)
    × (tier_for (compare_identity none family_device fixed_family) affected ≡ some tier_confirmed)
unfolding evaluation
family_confirmed = (refl, refl)
