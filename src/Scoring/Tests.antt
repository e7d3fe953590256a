-- ===== src/Scoring/Tests.antt =====
-- Scores of concrete evidence, and the theorems at an input that meets their hypotheses.
use sigvara.Prelude.{◌≤◌, ◌≡◌, refl, some, arith}
use sigvara.Scoring.{
  Evidence, nan, ratio, success_score, age_curve, age_score, floor_log2, day_ms, compute_score,
  fee_factor, community_score, clamp_trunc,
}
use sigvara.Scoring.Age.{age_curve_mono}
use sigvara.Scoring.Success.{success_score_add_failure}
use sigvara.Scoring.Bounds.{IsProposable, compute_score-IsProposable}

-- Nine of ten payments succeeded, over two years of activity, with one fresh flag.
abbrev busy : Evidence
busy = record {
  registered_at = 1_700_000_000;
  successful = 9_000;
  total = 10_000;
  flags = some 1_000_000;
  external = ratio 37 2;
  measured_fee = some 44;
  prior = 5;
  activity = some (record {
    first_activity_sec = 1_700_000_000;
    last_activity_sec = 1_763_072_000;
    recency = some 500_000;
  });
  propagation = nan;
  now_ms = 1_770_000_000_000;
}

compute_score-busy : compute_score busy ≡ record {
  fee = 20;
  success = 9;
  age = 14;
  external = 18;
  community = 3;
  propagation = 0;
  total = 64;
}
unfolding compute_score fee_factor success_score age_score floor_log2 clamp_trunc community_score
compute_score-busy = refl

compute_score-IsProposable_example : IsProposable (compute_score busy)
compute_score-IsProposable_example = compute_score-IsProposable busy (omega arith)

age_curve_mono_example : age_curve 5 ≤ age_curve day_ms
age_curve_mono_example = age_curve_mono 5 day_ms (omega arith)

success_score_add_failure_example : success_score 2_000 4_000 5 ≤ success_score 2_000 3_000 5
success_score_add_failure_example = success_score_add_failure 2_000 3_000 5 1_000 (omega arith)
