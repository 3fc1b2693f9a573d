-- ===== src/Profiles/Report.antt =====
-- `build_diagnostic_report` of crates/core-profiles/src/scanner.rs, and the check on its counts.
use win_profile.Base.{
  ℕ, ◌+◌, ◌≡◌, ◌≤◌, refl, Bool, true, false, List, [], ◌∷◌, any, length, count_if, ◌==◌,
  count_if-le_length, arith,
}
use win_profile.Profiles.Models.{
  ProfileAnomaly, temp_session, UserProfile, healthy, warning, corrupted, health_eq,
  DiagnosticReport,
}

is_temp_session : ProfileAnomaly → Bool
is_temp_session temp_session = true
is_temp_session _ = false

-- `now` is the instant that `chrono::Utc::now()` gives.
unfoldable pub build_diagnostic_report : ℕ → List UserProfile → DiagnosticReport
unfolding is_temp_session
build_diagnostic_report now profiles = record {
  timestamp = now;
  total_count = length profiles;
  healthy_count = count_if (λ p. health_eq p.health healthy) profiles;
  warning_count = count_if (λ p. health_eq p.health warning) profiles;
  corrupted_count = count_if (λ p. health_eq p.health corrupted) profiles;
  temporary_count = count_if (λ p. any is_temp_session p.anomalies) profiles;
  profiles = profiles;
}

unfoldable pub has_consistent_health_counts : DiagnosticReport → Bool
has_consistent_health_counts r =
    r.total_count == r.healthy_count + r.warning_count + r.corrupted_count

counts_partition :
    (ps : List UserProfile)
    → length ps
      ≡ count_if (λ p. health_eq p.health healthy) ps
        + count_if (λ p. health_eq p.health warning) ps
        + count_if (λ p. health_eq p.health corrupted) ps
counts_partition [] = omega arith
counts_partition (p ∷ ps) = ground (arith, counts_partition ps)

-- The report built from any profiles passes its own consistency check, holds exactly these
-- profiles, and counts no more temporary profiles than profiles.
pub build_diagnostic_report-consistent :
    (now : ℕ) (ps : List UserProfile)
    → (has_consistent_health_counts (build_diagnostic_report now ps) ≡ true)
      × ((build_diagnostic_report now ps).profiles ≡ ps)
      × ((build_diagnostic_report now ps).temporary_count
          ≤ (build_diagnostic_report now ps).total_count)
unfolding build_diagnostic_report has_consistent_health_counts
build_diagnostic_report-consistent now ps =
    (ground (arith, counts_partition ps), refl, count_if-le_length _ ps)
