-- ===== src/Client/Dial.antt =====
-- internal/client/client.go: `dialWithRetry`. A duration is an int64 of nanoseconds, here its bits.
use lepg.Base.{
  ℕ, zero, suc, ◌+◌, ◌*◌, ◌%◌, ◌^◌, ◌≤◌, ◌<◌, ◌≡◌, Bool, false, List, [], ◌∷◌, length, ltb, lt→ltb,
  le→not_ltb, All, ◌⊎◌, ◌&&◌, arith, refl, if◌then◌else◌, Bool-cases, inl, inr,
}

abbrev pub second : ℕ
second = 1000000000

abbrev pub word64 : ℕ
word64 = 18446744073709551616

-- `time.Duration(1<<uint(attempt))`: a shift by 64 or more leaves 0.
unfoldable pub shift_one : ℕ → ℕ
shift_one attempt = if ltb attempt 64 then 2 ^ attempt else 0

-- `a > b` on the bits of int64, for a constant b that is not negative
abbrev pub above : ℕ → ℕ → Bool
above a b = ltb b a && ltb a 9223372036854775808

-- `backoff`, from `baseInterval`
abbrev capped : ℕ → ℕ
capped b = if above b (60 * second) then 60 * second else b

unfoldable pub backoff : ℕ → ℕ → ℕ
unfolding shift_one
backoff base attempt = capped (base * shift_one attempt % word64)

-- What one attempt meets: the program's end before it, a connection, or a failure, and behind a failure
-- the end of the program instead of the timer.
pub data Attempt : Type 0 where
  canceled connected failed failed_canceled : Attempt

pub data Dialed : Type 0 where
  connection dial_canceled gave_up : Dialed

-- The loop, with the waits that it made; an attempt that the list does not name fails.
abbrev next_attempt : List Attempt → Attempt
next_attempt [] = failed
next_attempt (a ∷ attempts) = a

abbrev later : List Attempt → List Attempt
later [] = []
later (a ∷ attempts) = attempts

abbrev after_attempt : ℕ → Dialed × List ℕ → Attempt → Dialed × List ℕ
after_attempt wait rest canceled = (dial_canceled, [])
after_attempt wait rest connected = (connection, [])
after_attempt wait rest failed_canceled = (dial_canceled, wait ∷ [])
after_attempt wait (out, waits) failed = (out, wait ∷ waits)

unfoldable pub dial_from : ℕ → ℕ → ℕ → List Attempt → Dialed × List ℕ
dial_from base zero attempt attempts = (gave_up, [])
dial_from base (suc left) attempt attempts =
    after_attempt (backoff base attempt) (dial_from base left (attempt + 1) (later attempts))
      (next_attempt attempts)

-- `dialWithRetry`, from `RetryInterval` in nanoseconds and `MaxRetry`
unfoldable pub dial_with_retry : ℕ → ℕ → List Attempt → Dialed × List ℕ
unfolding dial_from
dial_with_retry base max_retry attempts = dial_from base max_retry 0 attempts

capped_small :
    (b : ℕ)
    → b < 9223372036854775808
    → (b ≤ 60 * second → capped (b % word64) ≡ b)
      × (60 * second < b → capped (b % word64) ≡ 60 * second)
capped_small b h = (λ below. ground arith, λ over. ground arith)

-- The wait behind an attempt is the base interval doubled for each attempt before it, and a minute at
-- most, as long as the doubled interval fits an int64.
pub backoff_doubles :
    (base attempt : ℕ)
    → attempt < 64
    → base * 2 ^ attempt < 9223372036854775808
    → (base * 2 ^ attempt ≤ 60 * second → backoff base attempt ≡ base * 2 ^ attempt)
      × (60 * second < base * 2 ^ attempt → backoff base attempt ≡ 60 * second)
unfolding backoff shift_one
backoff_doubles base attempt h fits =
    rw (lt→ltb attempt 64 h) (capped_small (base * 2 ^ attempt) fits)

-- Behind the sixty-fourth attempt no wait is made any more, whatever the base interval.
pub backoff_vanishes : (base attempt : ℕ) → 64 ≤ attempt → backoff base attempt ≡ 0
unfolding backoff shift_one
backoff_vanishes base attempt h =
    rw (le→not_ltb attempt 64 h) (let e : base * 0 ≡ 0 = omega arith in rw e refl)

-- A wait of a minute at most; a negative one is over at once.
abbrev pub IsShort : ℕ → Type 0
IsShort wait = (wait ≤ 60 * second) ⊎ (9223372036854775808 ≤ wait)

above-IsShort : (b : ℕ) → above b (60 * second) ≡ false → IsShort b
above-IsShort b h = elim (Bool-cases (ltb (60 * second) b)) [
  | inl long ↦ inr (ground arith)
  | inr short ↦ inl (ground arith)
]

capped-IsShort : (b : ℕ) → IsShort (capped b)
capped-IsShort b = elim (Bool-cases (above b (60 * second))) [
  | inl long ↦ rw long (inl (omega arith))
  | inr other ↦ rw other (above-IsShort b other)
]

backoff-IsShort : (base attempt : ℕ) → IsShort (backoff base attempt)
unfolding backoff
backoff-IsShort base attempt = capped-IsShort (base * shift_one attempt % word64)

attempt_bounded :
    (wait n : ℕ) (rest : Dialed × List ℕ) (a : Attempt)
    → IsShort wait
    → length rest.1 ≤ n
    → All IsShort rest.1
    → let out = after_attempt wait rest a in (length out.1 ≤ suc n) × All IsShort out.1
attempt_bounded wait n rest canceled short bound h = (omega arith, tt)
attempt_bounded wait n rest connected short bound h = (omega arith, tt)
attempt_bounded wait n rest failed_canceled short bound h = (omega arith, (short, tt))
attempt_bounded wait n (out, waits) failed short bound h = (omega arith, (short, h))

dial_from_bounded :
    (base left attempt : ℕ) (attempts : List Attempt)
    → let out = dial_from base left attempt attempts in (length out.1 ≤ left) × All IsShort out.1
unfolding dial_from
dial_from_bounded base zero attempt attempts = (omega arith, tt)
dial_from_bounded base (suc left) attempt attempts =
    let (bound, h) = dial_from_bounded base left (attempt + 1) (later attempts) in
    attempt_bounded (backoff base attempt) left (dial_from base left (attempt + 1) (later attempts))
      (next_attempt attempts) (backoff-IsShort base attempt) bound h

-- However the attempts end, dialing makes at most as many waits as the configuration allows attempts,
-- and each is a minute at most, or negative and over at once.
pub dial_with_retry_bounded :
    (base max_retry : ℕ) (attempts : List Attempt)
    → let out = dial_with_retry base max_retry attempts in
      (length out.1 ≤ max_retry) × All IsShort out.1
unfolding dial_with_retry
dial_with_retry_bounded base max_retry attempts = dial_from_bounded base max_retry 0 attempts
