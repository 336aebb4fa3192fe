-- ===== src/Integrations/Backoff.antt =====
-- The schedule of the attempts of backend/app/integrations/service.py: `backoff_for` and what
-- `mark_failed` makes of a run of failures.
use native.Mathlib.Nat.{pow-le-pow_right}
use campo_sig.Common.{
  ℕ, zero, suc, ◌+◌, ◌*◌, ◌^◌, ◌≤◌, ◌<◌, min, ◌≡◌, sym, refl, ◌↔◌, arith, none, some, List, [], ◌∷◌,
  length, ◌⊎◌, true, false,
}
use campo_sig.Integrations.Ledger.{
  IntegrationEvent, pending, failed, DeliveryError, backoff_seconds, backoff_for, as_failed,
  max_attempts,
}

-- The waits, one after the other.
abbrev pub wait : ℕ → ℕ
wait zero = 30
wait (suc zero) = 60
wait (suc (suc zero)) = 120
wait (suc (suc (suc zero))) = 240
wait (suc (suc (suc (suc zero)))) = 480
wait (suc (suc (suc (suc (suc n))))) = 600

min_five : (n : ℕ) → 5 ≤ min (suc (suc (suc (suc (suc n))))) 10
min_five n = omega arith

capped : (x : ℕ) → 32 ≤ x → min (30 * x) 600 ≡ 600
capped x h = omega arith

pub backoff_seconds-wait : (n : ℕ) → backoff_seconds n ≡ wait n
unfolding backoff_seconds
backoff_seconds-wait zero = refl
backoff_seconds-wait (suc zero) = refl
backoff_seconds-wait (suc (suc zero)) = refl
backoff_seconds-wait (suc (suc (suc zero))) = refl
backoff_seconds-wait (suc (suc (suc (suc zero)))) = refl
backoff_seconds-wait (suc (suc (suc (suc (suc n))))) =
    let large : 2 ^ 5 ≤ 2 ^ min (suc (suc (suc (suc (suc n))))) 10 =
      pow-le-pow_right (omega arith) (min_five n) in
    capped (2 ^ min (suc (suc (suc (suc (suc n))))) 10) large

wait_bounds :
    (n m : ℕ)
    → (30 ≤ wait n)
      × (wait n ≤ 600)
      × (n ≤ m → wait n ≤ wait m)
      × (n < 4 → wait (suc n) ≡ 2 * wait n)
wait_bounds n m = ground arith

-- The waits behind the first `n` failures, added up.
abbrev pub waited : ℕ → ℕ
waited zero = 0
waited (suc n) = waited n + backoff_seconds (suc n)

waited_bound : (n : ℕ) → n < 5 → waited n ≤ 900
unfolding backoff_seconds
waited_bound zero h = omega arith
waited_bound (suc zero) h = omega arith
waited_bound (suc (suc zero)) h = omega arith
waited_bound (suc (suc (suc zero))) h = omega arith
waited_bound (suc (suc (suc (suc zero)))) h = omega arith
waited_bound (suc (suc (suc (suc (suc n))))) h = absurd (omega arith)

-- The wait behind any number of failures is at least half a minute and at most ten minutes. It
-- never gets shorter with more failures, and among the first five it doubles with each. The waits
-- behind fewer than five failures add up to fifteen minutes at most.
pub backoff_bounds :
    (n m : ℕ)
    → (30 ≤ backoff_seconds n)
      × (backoff_seconds n ≤ 600)
      × (n ≤ m → backoff_seconds n ≤ backoff_seconds m)
      × (n < 4 → backoff_seconds (suc n) ≡ 2 * backoff_seconds n)
      × (n < 5 → waited n ≤ 900)
backoff_bounds n m =
    let (low, high, grows, doubles) = wait_bounds n m in
    rw (backoff_seconds-wait n, backoff_seconds-wait m, backoff_seconds-wait (suc n))
      (low, high, grows, doubles, waited_bound n)

-- What a run of failed attempts makes of an event: each with its error and its time.
abbrev pub fail_run : List (DeliveryError × ℕ) → IntegrationEvent → IntegrationEvent
fail_run [] e = e
fail_run ((error, at) ∷ failures) e = fail_run failures (as_failed error at e)

fail_run_attempts :
    (failures : List (DeliveryError × ℕ)) (e : IntegrationEvent)
    → (fail_run failures e).attempts ≡ e.attempts + length failures
unfolding as_failed
fail_run_attempts [] e = omega arith
fail_run_attempts ((error, at) ∷ failures) e =
    omega (arith, fail_run_attempts failures (as_failed error at e))

failed_once :
    (error : DeliveryError) (now : ℕ) (e : IntegrationEvent)
    → let e' : IntegrationEvent = as_failed error now e in
      (e'.attempts ≡ e.attempts + 1)
      × ((e'.status ≡ failed) ↔ ((error.retryable ≡ false) ⊎ (max_attempts ≤ e.attempts + 1)))
      × ((error.retryable ≡ true)
          → e.attempts + 1 < max_attempts
          → (e'.status ≡ pending)
            × (e'.next_attempt_at ≡ some (now + backoff_for (e.attempts + 1))))
      × ((e'.status ≡ failed) → e'.next_attempt_at ≡ none)
unfolding as_failed
failed_once error now e = ground arith

-- One more failure behind a run of them: the event stops, with no attempt scheduled, exactly if
-- the error is not retryable or the attempts, those before the run included, are five by now.
-- Otherwise it waits for its next attempt, for as long as the schedule says.
pub retries_stop :
    (failures : List (DeliveryError × ℕ)) (error : DeliveryError) (now : ℕ) (e : IntegrationEvent)
    → let n : ℕ = e.attempts + length failures + 1 in
      let e' : IntegrationEvent = as_failed error now (fail_run failures e) in
      (e'.attempts ≡ n)
      × ((e'.status ≡ failed) ↔ ((error.retryable ≡ false) ⊎ (max_attempts ≤ n)))
      × ((error.retryable ≡ true)
          → n < max_attempts
          → (e'.status ≡ pending) × (e'.next_attempt_at ≡ some (now + backoff_for n)))
      × ((e'.status ≡ failed) → e'.next_attempt_at ≡ none)
retries_stop failures error now e =
    let attempts = fail_run_attempts failures e in
    rw (sym attempts) (failed_once error now (fail_run failures e))
