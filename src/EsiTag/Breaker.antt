-- ===== src/EsiTag/Breaker.antt =====
-- esitag/resource.go, the circuit breaker of a resource. A uint64 or int64 is the number of its bit
-- pattern, below 2 ^ 64; an int64 whose pattern is 2 ^ 63 or more is negative. Times are in
-- nanoseconds since 1970. The atomic loads and stores are plain reads and writes of one request.
pub mod States
use caddy_esi.Prelude.{
  ℕ, ◌+◌, ◌*◌, ◌/◌, ◌%◌, ◌^◌, Bool, true, false, ◌&&◌, Option, none, some, ltb, leb, if◌then◌else◌,
}

abbrev pub word : ℕ
word = 2 ^ 64

abbrev pub second : ℕ
second = 1_000_000_000

pub record Breaker : Type 0 where
  pub cb_failures : ℕ
  pub cb_last_failure_time : ℕ

pub data CbState : Type 0 where
  cb_state_open cb_state_half_open cb_state_closed : CbState

abbrev pub cb_max_failures : ℕ
cb_max_failures = 12

-- `(1 << failures) * time.Second`, in int64: a shift by 64 or more gives 0.
unfoldable pub cb_threshold_calc : ℕ → ℕ
cb_threshold_calc failures = ((if ltb failures 64 then 2 ^ failures else 0) * second) % word

-- `lastFailed` with the threshold added.
unfoldable pub last_failed : Breaker → ℕ
last_failed b = (b.cb_last_failure_time + cb_threshold_calc b.cb_failures) % word

-- `secs`, for a `lastFailed` that is not negative.
abbrev pub secs : Breaker → ℕ
secs b = last_failed b / second

-- `time.Unix(secs, lastFailed % secs)`; `none` is the zero time, where `secs` is not positive.
unfoldable pub last_failure : Breaker → Option ℕ
last_failure b =
    if ltb (last_failed b) (2 ^ 63) && ltb 0 (secs b)
    then some (secs b * second + last_failed b % secs b)
    else none

-- `tn.After(lastFailure)`.
abbrev pub passed : Option ℕ → ℕ → Bool
passed none now = false
passed (some t) now = ltb t now

unfoldable pub threshold_passed : Breaker → ℕ → Bool
threshold_passed b now = passed (last_failure b) now

-- `CBState` at the time `now`: the state; the time that it also returns is `last_failure`.
unfoldable pub cb_state : Breaker → ℕ → CbState
cb_state b now =
    if leb cb_max_failures b.cb_failures && threshold_passed b now
    then cb_state_half_open
    else if leb cb_max_failures b.cb_failures
    then cb_state_open
    else cb_state_closed

-- `CBReset`.
unfoldable pub cb_reset : Breaker → Breaker
cb_reset b = record { cb_failures = 0; cb_last_failure_time = 0 }

-- `CBRecordFailure` at the time `now`, which it returns too.
unfoldable pub cb_record_failure : Breaker → ℕ → Breaker × ℕ
cb_record_failure b now =
    (record { cb_failures = (b.cb_failures + 1) % word; cb_last_failure_time = now % word }, now)
