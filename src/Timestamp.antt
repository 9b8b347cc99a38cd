-- ===== src/Timestamp.antt =====
-- internal/utils/timestamp.go: milliseconds since 2020-01-01 in a uint32. A time in milliseconds is
-- a natural number here; the conversion to a Timestamp keeps its low 32 bits.
use lepg.Base.{ℕ, ◌+◌, ◌-◌, ◌%◌, ◌^◌, ◌<◌, ◌≤◌, ◌≡◌, ◌↔◌, arith}

abbrev pub custom_epoch : ℕ
custom_epoch = 1577836800000

-- `Timestamp(t - CUSTOM_EPOCH)`, in `FromUnixMilli` and, at the present time, in `NewTimestamp`
unfoldable pub from_unix_milli : ℕ → ℕ
from_unix_milli t = (t + 2 ^ 64 - custom_epoch) % 2 ^ 32

unfoldable pub to_unix_milli : ℕ → ℕ
to_unix_milli t = t + custom_epoch

pub from_unix_milli-lt : (t : ℕ) → from_unix_milli t < 2 ^ 32
unfolding from_unix_milli
from_unix_milli-lt t = omega arith

-- Every timestamp survives the way to a time and back. A time (a non-negative int64) survives the
-- way to a timestamp and back exactly in the first 2 ^ 32 milliseconds, which are less than 50 days,
-- after 2020-01-01.
pub timestamp_round_trips :
    (ts t : ℕ)
    → ts < 2 ^ 32
    → t < 2 ^ 63
    → (from_unix_milli (to_unix_milli ts) ≡ ts)
      × ((to_unix_milli (from_unix_milli t) ≡ t)
          ↔ ((custom_epoch ≤ t) × (t < custom_epoch + 2 ^ 32)))
unfolding from_unix_milli to_unix_milli
timestamp_round_trips ts t h k = (omega arith, (λ e. omega arith, λ p. omega arith))
