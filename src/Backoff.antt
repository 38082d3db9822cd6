-- ===== src/Backoff.antt =====
-- crates/consensus/src/backoff.rs: the delays between reconnections, in seconds.
use prosthetic_conscience.Prelude.{ℕ, zero, suc, ◌*◌, ◌^◌, ◌≡◌, refl, min, arith}

abbrev pub backoff_initial : ℕ
backoff_initial = 1

abbrev pub backoff_max : ℕ
backoff_max = 30

pub record BackoffPolicy : Type 0 where
  pub next : ℕ

abbrev pub new : BackoffPolicy
new = record { next = backoff_initial }

-- The delay, and the policy after it.
unfoldable pub advance : BackoffPolicy → ℕ × BackoffPolicy
advance policy = (policy.next, record { next = min (policy.next * 2) backoff_max })

unfoldable pub reset : BackoffPolicy → BackoffPolicy
reset policy = record { next = backoff_initial }

-- The policy after `n` advances.
abbrev pub advanced : ℕ → BackoffPolicy → BackoffPolicy
advanced zero policy = policy
advanced (suc n) policy = (advance (advanced n policy)).1

next-advanced : (policy : BackoffPolicy) (n : ℕ) → (advanced n (reset policy)).next ≡ min (2 ^ n) 30
unfolding advance reset
next-advanced policy zero = refl
next-advanced policy (suc n) =
    let doubled : 2 ^ suc n ≡ 2 ^ n * 2 = omega arith in
    rw (next-advanced policy n, doubled) (omega arith)

-- After a reset and n advances, the next delay is the smaller of 2 ^ n and 30 seconds.
pub advance-advanced :
    (policy : BackoffPolicy) (n : ℕ) → (advance (advanced n (reset policy))).0 ≡ min (2 ^ n) 30
unfolding advance
advance-advanced policy n = next-advanced policy n
