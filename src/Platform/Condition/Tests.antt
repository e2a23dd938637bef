-- ===== src/Platform/Condition/Tests.antt =====
-- A wait on a condition variable, on concrete events.
use core_ra_t.Base.{ℕ, ◌≡◌, refl, Bool, true, none, some, List, [], ◌∷◌, ltb}
use core_ra_t.Platform.Condition.{Ending, signalled, timed_out, failed, wait_loop, wait_for}
use core_ra_t.Platform.Condition.Wait.{wait_for-returns}

-- The predicate is that three jobs have come.
abbrev enough : ℕ → Bool
enough n = ltb 2 n

abbrev events : List (Ending × ℕ)
events = (signalled, 1) ∷ (failed, 2) ∷ (timed_out, 3) ∷ (signalled, 4) ∷ []

late_but_true : wait_for enough 0 events ≡ some (true, 3)
unfolding wait_for wait_loop
late_but_true = refl

still_waiting : wait_for enough 0 ((signalled, 1) ∷ []) ≡ none
unfolding wait_for wait_loop
still_waiting = refl

wait_for-returns_example :
    ((n : ℕ) × (wait_for enough 0 events ≡ some (enough n, n)))
    × (enough 0 ≡ true → wait_for enough 0 events ≡ some (true, 0))
wait_for-returns_example = wait_for-returns enough 0 events tt
