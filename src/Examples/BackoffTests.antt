-- ===== src/Examples/BackoffTests.antt =====
-- Tests and instances for backoff.rs.
use prosthetic_conscience.Prelude.{◌≡◌}
use prosthetic_conscience.Backoff.{BackoffPolicy, advance, advanced, reset, advance-advanced}

abbrev late : BackoffPolicy
late = record { next = 30 }

advance-advanced_example : (advance (advanced 4 (reset late))).0 ≡ 16
advance-advanced_example = advance-advanced late 4
