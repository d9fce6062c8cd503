-- ===== src/Scrobbler/Submit/Backoff.antt =====
-- How long a scrobbler waits after failures in a row.
use Prim.Native.Nat.{min, ◌^◌}
use native.Mathlib.Nat.{pow-suc}
use mpdcron.Prelude.{ℕ, zero, suc, ◌*◌, ◌≤◌, ◌<◌, ◌≡◌, arith}
use mpdcron.Scrobbler.Types.{Scrobbler}
use mpdcron.Scrobbler.Submit.{max_interval, scrobbler_increase_interval}

-- The interval after `n` failures in a row.
pub failed_times : ℕ → Scrobbler → Scrobbler
failed_times zero s = s
failed_times (suc n) s = scrobbler_increase_interval (failed_times n s)

increase-double :
    (s : Scrobbler)
    → 60 ≤ s.interval
    → s.interval ≤ max_interval
    → (scrobbler_increase_interval s).interval ≡ min max_interval (2 * s.interval)
unfolding scrobbler_increase_interval
increase-double s p q = ground arith

increase-first : (s : Scrobbler) → s.interval ≡ 1 → (scrobbler_increase_interval s).interval ≡ 60
unfolding scrobbler_increase_interval
increase-first s h = ground arith

pow_pos : (n : ℕ) → 0 < 2 ^ n
pow_pos zero = omega arith
pow_pos (suc n) = omega (arith, pow_pos n, pow-suc 2 n)

-- A scrobbler whose interval is one second has, after n + 1 failures in a row, an interval of 60 *
-- 2 ^ n seconds, at most two hours.
pub failed_times-interval :
    (n : ℕ) (s : Scrobbler)
    → s.interval ≡ 1
    → (failed_times (suc n) s).interval ≡ min max_interval (60 * 2 ^ n)
unfolding failed_times
failed_times-interval zero s h = omega (arith, increase-first s h)
failed_times-interval (suc n) s h =
    let ih = failed_times-interval n s h in
    let power = pow_pos n in
    omega (
      arith,
      ih,
      power,
      pow-suc 2 n,
      increase-double (failed_times (suc n) s) (omega (arith, ih, power)) (omega (arith, ih)),
    )
