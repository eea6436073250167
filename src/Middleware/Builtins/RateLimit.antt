-- ===== src/Middleware/Builtins/RateLimit.antt =====
-- src/middleware/builtins/rate_limit.rs. The keyed limiter of governor is a parameter: its quotas
-- `Q`, its state `G`, the eviction of idle addresses, and the check of one.
pub mod Sweeps
use shenron.Common.{
  ℕ, zero, suc, ◌+◌, ◌%◌, ◌^◌, Bool, true, false, Option, none, some, List, [], ◌∷◌, if◌then◌else◌,
  Text, text, nat_beq,
}
use shenron.Error.{Error, Result, ok}
use shenron.Exit.{Exit, code, result_exit, exit_exit}
use shenron.Session.{Session, IpAddr, write_stderr_str}
use shenron.Task.{Task, Handler, Frame, pure, ◌>>=◌, ◌>>◌, on_session, run_ok, erase}
use shenron.Middleware.{Middleware}

abbrev pub sweep_interval : ℕ
sweep_interval = 256

-- `Quota` and the keyed limiter, from governor; `dashmap` starts a limiter for a quota.
pub record KeyedLimiter (Q G : Type 0) : Type 0 where
  pub per_second : ℕ → Q
  pub per_minute : ℕ → Q
  pub per_hour : ℕ → Q
  pub allow_burst : ℕ → Q → Q
  pub dashmap : Q → G
  pub retain_recent : G → G
  pub check_key : IpAddr → G → G × Bool

pub record RateLimiter (Q G : Type 0) : Type 0 where
  pub quota : Q
  pub limiter : G
  pub checks : ℕ

-- `NonZeroU32::new(count).expect(…)`, which panics for zero.
unfoldable pub non_zero : ℕ → Option ℕ
non_zero zero = none
non_zero (suc n) = some (suc n)

unfoldable pub too_fast : Text
too_fast = text "Rate limit exceeded, try again later\n"

module _ {Q G : Type 0} (governor : KeyedLimiter Q G) where
  unfoldable pub from_quota : Q → RateLimiter Q G
  from_quota quota = record { quota = quota; limiter = governor.dashmap quota; checks = 0 }

  abbrev pub with_count : (ℕ → Q) → Option ℕ → Option (RateLimiter Q G)
  with_count quota none = none
  with_count quota (some count) = some (from_quota (quota count))

  -- The constructors; none where they panic.
  unfoldable pub per_second : ℕ → Option (RateLimiter Q G)
  per_second count = with_count governor.per_second (non_zero count)

  unfoldable pub per_minute : ℕ → Option (RateLimiter Q G)
  per_minute count = with_count governor.per_minute (non_zero count)

  unfoldable pub per_hour : ℕ → Option (RateLimiter Q G)
  per_hour count = with_count governor.per_hour (non_zero count)

  unfoldable pub burst : ℕ → RateLimiter Q G → Option (RateLimiter Q G)
  burst count r = with_count (λ n. governor.allow_burst n r.quota) (non_zero count)

  -- `fetch_add` on an `AtomicU64`, the sweep that is due before some checks, and the check.
  unfoldable pub check : IpAddr → RateLimiter Q G → RateLimiter Q G × Bool
  check ip r =
      let due = nat_beq (r.checks % sweep_interval) 0 in
      let swept = if due then governor.retain_recent r.limiter else r.limiter in
      let (limiter', allowed) = governor.check_key ip swept in
      (record r { limiter = limiter'; checks = (r.checks + 1) % 2 ^ 64 }, allowed)

  module _ {P V : Type 0} where
    unfoldable pub refuse_fast : Task P V (Result Error Exit)
    refuse_fast = do on_session (write_stderr_str too_fast); pure (ok (code 1))

    unfoldable pub limited : Bool → Handler P V → Task P V (Result Error Exit)
    limited true next = run_ok next
    limited false next = refuse_fast

    -- The middleware: the limiter after it, and what it does with the session.
    unfoldable pub rate_limit :
        RateLimiter Q G → Handler P V → Frame P V → RateLimiter Q G × Handler P V
    rate_limit r next f =
        let (r', allowed) = check f.session.remote_addr.ip r in (r', erase (limited allowed next))
