-- ===== src/EsiTag/Breaker/States.antt =====
-- What the circuit breaker promises: it opens after `CBMaxFailures` failures in a row, stays open for
-- the exponential threshold, and then lets one more request try.
use native.Mathlib.Nat.{one-le-pow}
use caddy_esi.Prelude.{ℕ, ◌+◌, ◌*◌, ◌/◌, ◌%◌, ◌^◌, ◌≤◌, ◌<◌, ◌≡◌, arith, ltb, List, [], ◌∷◌, length}
use caddy_esi.EsiTag.Breaker.{
  Breaker, cb_state_open, cb_state_half_open, cb_state_closed, cb_max_failures, second, word,
  cb_threshold_calc, last_failed, last_failure, threshold_passed, cb_state, cb_reset,
  cb_record_failure,
}

-- When the threshold ends, with no overflow.
abbrev pub deadline : Breaker → ℕ
deadline b = b.cb_last_failure_time + 2 ^ b.cb_failures * second

-- The breaker is closed exactly below the maximum of failures, at any time.
pub cb_state_closed_iff :
    (b : Breaker) (now : ℕ)
    → ((b.cb_failures < cb_max_failures → cb_state b now ≡ cb_state_closed)
        × (cb_state b now ≡ cb_state_closed → b.cb_failures < cb_max_failures))
unfolding cb_state
cb_state_closed_iff b now = (λ h. ground arith, λ h. ground arith)

-- A run of failures, at the given times.
abbrev pub record_all : Breaker → List ℕ → Breaker
record_all b [] = b
record_all b (t ∷ ts) = record_all (cb_record_failure b t).0 ts

pub record_all-failures :
    (ts : List ℕ) (b : Breaker)
    → b.cb_failures + length ts < word
    → (record_all b ts).cb_failures ≡ b.cb_failures + length ts
unfolding cb_record_failure
record_all-failures [] b h = omega arith
record_all-failures (t ∷ ts) b h =
    let n : (b.cb_failures + 1) % word ≡ b.cb_failures + 1 = omega arith in
    omega (arith, record_all-failures ts (cb_record_failure b t).0 (omega arith))

last_failed_exact :
    (b : Breaker) → b.cb_failures < 64 → deadline b < 2 ^ 63 → last_failed b ≡ deadline b
unfolding last_failed cb_threshold_calc
last_failed_exact b h d = ground arith

-- The comparison that `CBState` makes, where nothing overflows.
threshold_passed_exact :
    (b : Breaker) (now : ℕ)
    → b.cb_failures < 64
    → deadline b < 2 ^ 63
    → second ≤ deadline b
    → threshold_passed b now
      ≡ ltb (deadline b / second * second + deadline b % (deadline b / second)) now
unfolding threshold_passed last_failure
threshold_passed_exact b now h d l = rw (last_failed_exact b h d) (ground arith)

second_le : (b : Breaker) → second ≤ deadline b
second_le b =
    let one : 1 ≤ 2 ^ b.cb_failures = one-le-pow b.cb_failures 2 (omega arith) in omega arith

-- The threshold ends 2 ^ failures seconds behind the last failure. With at least `CBMaxFailures` failures, fewer than
-- 64, and a threshold whose end fits into int64, the breaker is open up to
-- the last full second of the deadline, and it is half open at the latest when as many nanoseconds
-- have passed since the deadline as the deadline has seconds.
pub cb_state_waits :
    (b : Breaker) (now : ℕ)
    → cb_max_failures ≤ b.cb_failures
    → b.cb_failures < 64
    → deadline b < 2 ^ 63
    → (now ≤ deadline b / second * second → cb_state b now ≡ cb_state_open)
      × (deadline b + deadline b / second ≤ now → cb_state b now ≡ cb_state_half_open)
unfolding cb_state
cb_state_waits b now m h d =
    let l : second ≤ deadline b = second_le b in
    (
      λ early. rw (threshold_passed_exact b now h d l) (ground arith),
      λ late. rw (threshold_passed_exact b now h d l) (ground arith),
    )

-- After a reset, or from the start, the breaker is closed for as long as fewer than `CBMaxFailures`
-- failures were recorded, and no longer, whenever they happened and whenever it is asked.
pub cb_state-record_all :
    (b : Breaker) (ts : List ℕ) (now : ℕ)
    → length ts < word
    → (length ts < cb_max_failures → cb_state (record_all (cb_reset b) ts) now ≡ cb_state_closed)
      × (cb_state (record_all (cb_reset b) ts) now ≡ cb_state_closed → length ts < cb_max_failures)
unfolding cb_reset
cb_state-record_all b ts now h =
    let n = record_all-failures ts (cb_reset b) (omega arith) in
    let c = cb_state_closed_iff (record_all (cb_reset b) ts) now in
    (λ l. c.0 (omega arith), λ e. omega (arith, c.1 e))

-- With at least `CBMaxFailures` and fewer than 34 failures, and a threshold whose end fits into 64 bits but not into
-- int64, so that it is negative: the breaker is open at every time, as long as no other failure is recorded.
pub cb_state_stuck :
    (b : Breaker) (now : ℕ)
    → cb_max_failures ≤ b.cb_failures
    → b.cb_failures < 34
    → 2 ^ 63 ≤ deadline b
    → deadline b < word
    → cb_state b now ≡ cb_state_open
unfolding cb_state threshold_passed last_failure
cb_state_stuck b now m h l u =
    let e : last_failed b ≡ deadline b = unfold last_failed cb_threshold_calc in ground arith in
    rw e (ground arith)
