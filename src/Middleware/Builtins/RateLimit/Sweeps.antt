-- ===== src/Middleware/Builtins/RateLimit/Sweeps.antt =====
-- src/middleware/builtins/rate_limit.rs: how often idle addresses are evicted.
use shenron.Common.{
  ℕ, suc, Option, none, some, refl, subst, ◌+◌, ◌*◌, ◌/◌, ◌%◌, ◌^◌, ◌≤◌, ◌≡◌, List, [], ◌∷◌,
  nat_beq, nat_beq_iff, ◌≢◌, length, arith, Bool-cases, inl, inr,
}
use shenron.Session.{IpAddr}
use shenron.Middleware.Builtins.RateLimit.{
  KeyedLimiter, RateLimiter, check, from_quota, sweep_interval, with_count, non_zero, per_second,
  per_minute, per_hour, burst,
}

-- A limiter, with a count of its evictions.
abbrev pub counting : {Q G : Type 0} → KeyedLimiter Q G → KeyedLimiter Q (G × ℕ)
counting governor = record {
  per_second = governor.per_second;
  per_minute = governor.per_minute;
  per_hour = governor.per_hour;
  allow_burst = governor.allow_burst;
  dashmap = λ quota. (governor.dashmap quota, 0);
  retain_recent = λ s. (governor.retain_recent s.0, suc s.1);
  check_key = λ ip s. let (g, allowed) = governor.check_key ip s.0 in ((g, s.1), allowed);
}

-- The calls that make a limiter.
pub data Made : Type 0 where
  by_second by_minute by_hour : ℕ → Made
  by_burst : ℕ → Made → Made

module _ {Q G : Type 0} (governor : KeyedLimiter Q G) where
  pub check_all : List IpAddr → RateLimiter Q (G × ℕ) → RateLimiter Q (G × ℕ)
  check_all [] r = r
  check_all (ip ∷ ips) r = check_all ips (check (counting governor) ip r).0

  -- The evictions so far, by the number of checks.
  check-count :
      (ip : IpAddr) (r : RateLimiter Q (G × ℕ)) (n : ℕ)
      → r.checks ≡ n % 2 ^ 64
      → r.limiter.1 * 256 ≤ n + 255
      → n ≤ r.limiter.1 * 256
      → ((check (counting governor) ip r).0.checks ≡ (n + 1) % 2 ^ 64)
        × ((check (counting governor) ip r).0.limiter.1 * 256 ≤ n + 1 + 255)
        × (n + 1 ≤ (check (counting governor) ip r).0.limiter.1 * 256)
  unfolding check
  check-count ip r n c lo hi = elim (Bool-cases (nat_beq (r.checks % 256) 0)) [
    | inl due ↦
        let z = (nat_beq_iff (r.checks % 256) 0).0 due in
        (
          omega (arith, c),
          rw due (omega (arith, c, z, lo, hi)),
          rw due (omega (arith, c, z, lo, hi)),
        )
    | inr early ↦
        let z : r.checks % 256 ≢ 0 =
          λ e. ground (arith, (nat_beq_iff (r.checks % 256) 0).1 e, early) in
        (
          omega (arith, c),
          rw early (omega (arith, c, z, lo, hi)),
          rw early (omega (arith, c, z, lo, hi)),
        )
  ]

  check_all-count :
      (ips : List IpAddr) (r : RateLimiter Q (G × ℕ)) (n : ℕ)
      → r.checks ≡ n % 2 ^ 64
      → r.limiter.1 * 256 ≤ n + 255
      → n ≤ r.limiter.1 * 256
      → ((check_all ips r).limiter.1 * 256 ≤ n + length ips + 255)
        × (n + length ips ≤ (check_all ips r).limiter.1 * 256)
  unfolding check_all
  check_all-count [] r n c lo hi = (omega (arith, lo), omega (arith, hi))
  check_all-count (ip ∷ ips) r n c lo hi =
      let (c', lo', hi') = check-count ip r n c lo hi in
      let (a, b) = check_all-count ips (check (counting governor) ip r).0 (n + 1) c' lo' hi' in
      (omega (arith, a), omega (arith, b))

  -- The limiter that the calls make; none where one of them panics.
  unfoldable pub made : Made → Option (RateLimiter Q (G × ℕ))
  made (by_second count) = per_second (counting governor) count
  made (by_minute count) = per_minute (counting governor) count
  made (by_hour count) = per_hour (counting governor) count
  made (by_burst count m) = elim (made m) [
    | none ↦ none
    | some r ↦ burst (counting governor) count r
  ]

  abbrev IsFresh : Option (RateLimiter Q (G × ℕ)) → Type 0
  IsFresh none = Unit
  IsFresh (some r) = (r.checks ≡ 0) × (r.limiter.1 ≡ 0)

  with_count-IsFresh :
      (quota : ℕ → Q) (count : Option ℕ) → IsFresh (with_count (counting governor) quota count)
  unfolding from_quota
  with_count-IsFresh quota none = tt
  with_count-IsFresh quota (some n) = (refl, refl)

  burst-IsFresh :
      (count : ℕ) (o : Option (RateLimiter Q (G × ℕ)))
      → IsFresh (elim o as (λ x. Option (RateLimiter Q (G × ℕ))) [
        | none ↦ none
        | some r ↦ burst (counting governor) count r
      ])
  unfolding burst
  burst-IsFresh count none = tt
  burst-IsFresh count (some r) =
      with_count-IsFresh (λ n. governor.allow_burst n r.quota) (non_zero count)

  made-IsFresh : (m : Made) → IsFresh (made m)
  unfolding made per_second per_minute per_hour
  made-IsFresh (by_second count) = with_count-IsFresh governor.per_second (non_zero count)
  made-IsFresh (by_minute count) = with_count-IsFresh governor.per_minute (non_zero count)
  made-IsFresh (by_hour count) = with_count-IsFresh governor.per_hour (non_zero count)
  made-IsFresh (by_burst count m) = burst-IsFresh count (made m)

  -- A limiter that any calls made evicts idle addresses before its first check and then once every
  -- `sweep_interval` checks, however many there are, also when the counter wraps: after `n` checks,
  -- `n / 256` times, rounded up.
  pub check_all-sweeps :
      (ips : List IpAddr) (m : Made) (r : RateLimiter Q (G × ℕ))
      → made m ≡ some r
      → (check_all ips r).limiter.1 ≡ (length ips + 255) / sweep_interval
  check_all-sweeps ips m r e =
      let (c, z) = subst IsFresh e (made-IsFresh m) in
      omega (
        arith,
        z,
        c,
        check_all-count ips r 0 (omega (arith, c)) (omega (arith, z)) (omega (arith, z)),
      )
