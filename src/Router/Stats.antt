-- ===== src/Router/Stats.antt =====
-- PredicateStats of crates/pavis/src/router/matcher.rs: what was tried and missed for a request.
use pavis.Prelude.{ℕ, ◌+◌, ◌%◌, ◌^◌}

-- Counters are `u64`; an addition wraps in a release build.
abbrev pub add_u64 : ℕ → ℕ → ℕ
add_u64 a b = (a + b) % 2 ^ 64

pub record PredicateStats : Type 0 where
  pub path_misses : ℕ
  pub method_misses : ℕ
  pub header_misses : ℕ
  pub exact_evals : ℕ
  pub prefix_evals : ℕ
  pub regex_evals : ℕ
  pub present_evals : ℕ
  pub absent_evals : ℕ
  pub regex_input_too_large : ℕ

abbrev pub no_stats : PredicateStats
no_stats = record {
  path_misses = 0;
  method_misses = 0;
  header_misses = 0;
  exact_evals = 0;
  prefix_evals = 0;
  regex_evals = 0;
  present_evals = 0;
  absent_evals = 0;
  regex_input_too_large = 0;
}

unfoldable pub record_path_miss : PredicateStats → PredicateStats
record_path_miss s = record s { path_misses = add_u64 s.path_misses 1 }

unfoldable pub record_method_miss : PredicateStats → PredicateStats
record_method_miss s = record s { method_misses = add_u64 s.method_misses 1 }

unfoldable pub record_header_miss : PredicateStats → PredicateStats
record_header_miss s = record s { header_misses = add_u64 s.header_misses 1 }

unfoldable pub record_eval_exact : PredicateStats → PredicateStats
record_eval_exact s = record s { exact_evals = add_u64 s.exact_evals 1 }

unfoldable pub record_eval_prefix : PredicateStats → PredicateStats
record_eval_prefix s = record s { prefix_evals = add_u64 s.prefix_evals 1 }

unfoldable pub record_eval_regex : PredicateStats → PredicateStats
record_eval_regex s = record s { regex_evals = add_u64 s.regex_evals 1 }

unfoldable pub record_eval_present : PredicateStats → PredicateStats
record_eval_present s = record s { present_evals = add_u64 s.present_evals 1 }

unfoldable pub record_eval_absent : PredicateStats → PredicateStats
record_eval_absent s = record s { absent_evals = add_u64 s.absent_evals 1 }

unfoldable pub record_regex_input_too_large : PredicateStats → PredicateStats
record_regex_input_too_large s = record s {
  regex_input_too_large = add_u64 s.regex_input_too_large 1;
}

-- `AddAssign`.
unfoldable pub add_stats : PredicateStats → PredicateStats → PredicateStats
add_stats s t = record {
  path_misses = add_u64 s.path_misses t.path_misses;
  method_misses = add_u64 s.method_misses t.method_misses;
  header_misses = add_u64 s.header_misses t.header_misses;
  exact_evals = add_u64 s.exact_evals t.exact_evals;
  prefix_evals = add_u64 s.prefix_evals t.prefix_evals;
  regex_evals = add_u64 s.regex_evals t.regex_evals;
  present_evals = add_u64 s.present_evals t.present_evals;
  absent_evals = add_u64 s.absent_evals t.absent_evals;
  regex_input_too_large = add_u64 s.regex_input_too_large t.regex_input_too_large;
}
