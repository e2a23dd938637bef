-- ===== src/Platform/Condition/Wait.antt =====
-- When a wait on a condition variable of include/corerat/platform/evl/threading_impl.hpp returns, and
-- with what.
use core_ra_t.Base.{◌≡◌, Bool, true, false, some, List, [], ◌∷◌, arith, Bool-cases, inl, inr}
use core_ra_t.Base.Int.{pos, ◌≤ℤ◌}
use core_ra_t.Platform.Duration.{
  Duration, Timespec, plus, is_negative, from_timespec, from_timespec-to_timespec, to_timespec_lem,
}
use core_ra_t.Platform.Condition.{
  Ending, signalled, timed_out, failed, deadline, wait_loop, wait_for,
}

-- The deadline is the moment that is the timeout after now, and a valid timespec unless it is before the
-- clock's epoch.
pub deadline_lem :
    (now_ts : Timespec) (timeout : Duration)
    → (from_timespec (deadline now_ts timeout) ≡ plus (from_timespec now_ts) timeout)
      × (is_negative (plus (from_timespec now_ts) timeout) ≡ false
          → (pos 0 ≤ℤ (deadline now_ts timeout).tv_nsec)
            × ((deadline now_ts timeout).tv_nsec ≤ℤ pos 999999999))
unfolding deadline
deadline_lem now_ts timeout =
    let moment = plus (from_timespec now_ts) timeout in
    (from_timespec-to_timespec moment, (to_timespec_lem moment).0)

-- One of the waits ends because the deadline has come.
abbrev pub TimesOut : {S : Type 0} → List (Ending × S) → Type 0
TimesOut [] = ⊥
TimesOut ((timed_out, s) ∷ later) = Unit {0}
TimesOut ((signalled, s) ∷ later) = TimesOut later
TimesOut ((failed, s) ∷ later) = TimesOut later

module _ {S : Type 0} (pred : S → Bool) where
  held :
      (s : S) (later : List (Ending × S))
      → pred s ≡ true
      → wait_loop pred s later ≡ some (pred s, s)
  unfolding wait_loop
  held s [] holds = ground (arith, holds)
  held s ((timed_out, s') ∷ later) holds = ground (arith, holds)
  held s ((signalled, s') ∷ later) holds = ground (arith, holds)
  held s ((failed, s') ∷ later) holds = ground (arith, holds)

  wait_loop-returns :
      (s : S) (later : List (Ending × S))
      → TimesOut later
      → (s' : S) × (wait_loop pred s later ≡ some (pred s', s'))
  unfolding wait_loop
  wait_loop-returns s [] h = absurd h
  wait_loop-returns s ((timed_out, s') ∷ later) h = elim (Bool-cases (pred s)) [
    | inl holds ↦ (s, held s ((timed_out, s') ∷ later) holds)
    | inr fails ↦ (s', ground (arith, fails))
  ]
  wait_loop-returns s ((signalled, s') ∷ later) h = elim (Bool-cases (pred s)) [
    | inl holds ↦ (s, held s ((signalled, s') ∷ later) holds)
    | inr fails ↦ let (last, e) = wait_loop-returns s' later h in (last, ground (arith, fails, e))
  ]
  wait_loop-returns s ((failed, s') ∷ later) h = elim (Bool-cases (pred s)) [
    | inl holds ↦ (s, held s ((failed, s') ∷ later) holds)
    | inr fails ↦ let (last, e) = wait_loop-returns s' later h in (last, ground (arith, fails, e))
  ]

  -- A wait with a timeout, once one of its waits ends because the deadline has come, has returned in
  -- some state, with what the predicate says of this state: a timeout does not hide that the predicate
  -- holds, and a return of true means that it does. Where it holds at once, the wait returns at once.
  pub wait_for-returns :
      (s : S) (later : List (Ending × S))
      → TimesOut later
      → ((s' : S) × (wait_for pred s later ≡ some (pred s', s')))
        × (pred s ≡ true → wait_for pred s later ≡ some (true, s))
  unfolding wait_for
  wait_for-returns s later h = (
    elim (Bool-cases (pred s)) [
      | inl holds ↦ (s, ground (arith, holds))
      | inr fails ↦ let (last, e) = wait_loop-returns s later h in (last, ground (arith, fails, e))
    ],
    λ holds. ground (arith, holds),
  )
