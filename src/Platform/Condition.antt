-- ===== src/Platform/Condition.antt =====
-- `ConditionVariable` of include/corerat/platform/evl/threading_impl.hpp. What happens while it waits is a
-- parameter: how each wait for the event ends, and the state of the program that the predicate reads then.
pub mod Wait
mod Tests
use core_ra_t.Base.{
  ℕ, Bool, true, false, Option, none, some, List, [], ◌∷◌, if◌then◌else◌, ◌≡◌, ◌⊎◌, inl, inr, refl,
  arith, Bool-cases,
}
use core_ra_t.Base.Int.{ℤ}
use core_ra_t.Platform.Duration.{Duration, Timespec, plus, from_timespec, to_timespec}

-- How evl_timedwait_event returns; a failure is any error but -ETIMEDOUT.
pub data Ending : Type 0 where
  signalled timed_out failed : Ending

pub data CvStatus : Type 0 where
  no_timeout timeout : CvStatus

-- The moment to wait until.
unfoldable pub deadline : Timespec → Duration → Timespec
deadline now_ts wait = to_timespec (plus (from_timespec now_ts) wait)

unfoldable pub wait_for_event : Ending → CvStatus
wait_for_event timed_out = timeout
wait_for_event _ = no_timeout

module _ {S : Type 0} (pred : S → Bool) where
  -- The loop of `wait`: the state that it returns in, or `none` while it still waits.
  unfoldable pub wait : S → List S → Option S
  wait s [] = if pred s then some s else none
  wait s (s' ∷ later) = let rest = wait s' later in if pred s then some s else rest

  -- The loop of `wait_for`, with the value that it returns.
  unfoldable pub wait_loop : S → List (Ending × S) → Option (Bool × S)
  wait_loop s [] = if pred s then some (true, s) else none
  wait_loop s ((timed_out, s') ∷ later) = if pred s then some (true, s) else some (pred s', s')
  wait_loop s ((signalled, s') ∷ later) =
      let rest = wait_loop s' later in if pred s then some (true, s) else rest
  wait_loop s ((failed, s') ∷ later) =
      let rest = wait_loop s' later in if pred s then some (true, s) else rest

  unfoldable pub wait_for : S → List (Ending × S) → Option (Bool × S)
  wait_for s later = if pred s then some (true, s) else wait_loop s later
