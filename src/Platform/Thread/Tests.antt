-- ===== src/Platform/Thread/Tests.antt =====
-- The threads of include/corerat/platform/ on concrete calls.
use core_ra_t.Base.{ℕ, suc, ◌+◌, ◌≤◌, ◌≡◌, refl, none, some, List, [], ◌∷◌, arith}
use core_ra_t.Platform.Owner.{count, release, all_owned, IsOwned}
use core_ra_t.Platform.Owner.Moves.{
  World, Op, apply, run, construct, acquire_at, dispose_at, move_construct, move_assign, destroy,
}
use core_ra_t.Platform.Thread.{StartCall, Create, IsFresh, Disposal, detach}
use core_ra_t.Platform.Thread.Evl as Evl
use core_ra_t.Platform.Thread.Evl.{evl_threads-IsOwned, thread_name}

-- A system that gives a new thread the first handle over all that are in use.
abbrev above : List ℕ → ℕ
above [] = 0
above (x ∷ xs) = suc (x + above xs)

count-above : (xs : List ℕ) (y : ℕ) → above xs ≤ y → count y xs ≡ 0
unfolding count
count-above [] y h = refl
count-above (x ∷ xs) y h = ground (arith, count-above xs y (omega (arith, h)))

abbrev counting : Create
counting c config t = some (above t)

counting-IsFresh : IsFresh counting
counting-IsFresh c config t handle e = count-above t handle (ground (arith, e))

abbrev a_start : StartCall
a_start = record { new_config = none; instant = 0 }

abbrev operations : List (Op StartCall Disposal)
operations =
    construct
    ∷ construct
    ∷ acquire_at a_start 0
    ∷ acquire_at a_start 1
    ∷ acquire_at a_start 1
    ∷ move_assign 0 1
    ∷ move_construct 0
    ∷ dispose_at detach 2
    ∷ destroy 0
    ∷ []

abbrev no_evl_threads : World Evl.Thread
no_evl_threads = record { table = []; objects = [] }

none_left : (run (Evl.thread_impl counting) no_evl_threads operations).table ≡ []
unfolding run apply Evl.start Evl.end_thread release
none_left = refl

evl_threads-IsOwned_example :
    IsOwned Evl.owned []
      (run (Evl.thread_impl counting) no_evl_threads operations).table
      (run (Evl.thread_impl counting) no_evl_threads operations).objects
unfolding count all_owned
evl_threads-IsOwned_example =
    evl_threads-IsOwned counting counting-IsFresh [] no_evl_threads operations
      (record { once = λ x. omega arith; shared_out = λ x. refl })
