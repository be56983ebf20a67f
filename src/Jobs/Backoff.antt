-- ===== src/Jobs/Backoff.antt =====
-- src/sync/JobQueue.js, `backoffMs`: how long a failed job waits.
use native.Mathlib.Nat.{pow-suc, pow-le-pow_right}
use canvas_stored.Prelude.{ℕ, suc, ◌+◌, ◌-◌, ◌*◌, ◌^◌, ◌≤◌, ◌≡◌, refl, ap, min, arith}
use canvas_stored.Jobs.Rows.{backoff_ms, backoff_base_ms, backoff_max_ms}

backoff_ms-suc : (n k : ℕ) → n ≡ suc k → backoff_ms n ≡ min (backoff_base_ms * 2 ^ k) backoff_max_ms
unfolding backoff_ms
backoff_ms-suc n k e =
    let p : n - 1 ≡ k = omega arith in ap (λ i. min (backoff_base_ms * 2 ^ i) backoff_max_ms) p

pow_pos : (n : ℕ) → 1 ≤ 2 ^ n
pow_pos n = pow-le-pow_right (omega arith) {i = 0} {j = n} (omega arith)

backoff_bounds : (a : ℕ) → (backoff_base_ms ≤ backoff_ms a) × (backoff_ms a ≤ backoff_max_ms)
unfolding backoff_ms
backoff_bounds a = (omega (arith, pow_pos (a - 1)), omega arith)

-- The first wait is a minute, and so is the one of no attempt; from the first attempt on each wait
-- is twice the one before it, up to an hour; no wait is shorter than a minute or longer than an hour,
-- and it is an hour from the seventh attempt on.
pub backoff_ms_lem :
    (a : ℕ)
    → (backoff_ms 0 ≡ 60000)
      × (backoff_ms 1 ≡ 60000)
      × (backoff_ms (a + 2) ≡ min (2 * backoff_ms (a + 1)) 3600000)
      × (60000 ≤ backoff_ms a)
      × (backoff_ms a ≤ 3600000)
      × (backoff_ms (a + 7) ≡ 3600000)
unfolding backoff_ms
backoff_ms_lem a = (
  refl,
  refl,
  omega (
    arith,
    backoff_ms-suc (a + 1) a (omega arith),
    backoff_ms-suc (a + 2) (suc a) (omega arith),
    pow-suc 2 a,
  ),
  (backoff_bounds a).0,
  (backoff_bounds a).1,
  omega (
    arith,
    backoff_ms-suc (a + 7) (a + 6) (omega arith),
    pow-le-pow_right {n = 2} (omega arith) {i = 6} {j = a + 6} (omega arith),
  ),
)
