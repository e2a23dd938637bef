-- ===== src/Platform/File/Tests.antt =====
-- The files of include/corerat/platform/ on concrete calls.
use core_ra_t.Base.{
  ℕ, suc, ◌+◌, ◌≤◌, ◌≡◌, refl, none, some, List, [], ◌∷◌, arith, ◌==◌, if◌then◌else◌,
}
use core_ra_t.Base.Text.{codes}
use core_ra_t.Platform.Owner.{count, release, all_owned, IsOwned}
use core_ra_t.Platform.Owner.Moves.{
  World, Op, apply, run, construct, acquire_at, dispose_at, move_construct, move_assign, destroy,
}
use core_ra_t.Platform.File.{OpenCall, System, IsFresh, Close, close}
use core_ra_t.Platform.File.Evl as Evl
use core_ra_t.Platform.File.Evl.{evl_files-IsOwned}

-- A system whose next descriptor is over all that are open, and which refuses a proxy at instant 1.
abbrev above : List ℕ → ℕ
above [] = 0
above (x ∷ xs) = suc (x + above xs)

count-above : (xs : List ℕ) (y : ℕ) → above xs ≤ y → count y xs ≡ 0
unfolding count
count-above [] y h = refl
count-above (x ∷ xs) y h = ground (arith, count-above xs y (omega (arith, h)))

abbrev counting : System
counting = record {
  sys_open = λ c t. some (above t);
  create_proxy = λ c file flags t. if c.instant == 1 then none else some (above t);
}

counting-IsFresh : IsFresh counting
counting-IsFresh = record {
  open_fresh = λ c t fd e. count-above t fd (ground (arith, e));
  proxy_fresh = λ c file flags t fd e. count-above t fd (ground (arith, e));
}

abbrev a_call : ℕ → OpenCall
a_call instant = record {
  path = codes "/tmp/log";
  flags = 2;
  mode = 420;
  proxy_buf_size = 4096;
  instant = instant;
}

abbrev operations : List (Op OpenCall Close)
operations =
    construct
    ∷ construct
    ∷ acquire_at (a_call 0) 0
    ∷ acquire_at (a_call 1) 1
    ∷ acquire_at (a_call 2) 1
    ∷ move_assign 0 1
    ∷ move_construct 0
    ∷ dispose_at close 2
    ∷ destroy 0
    ∷ []

-- Descriptor 0 was open before.
abbrev no_evl_files : World Evl.File
no_evl_files = record { table = 0 ∷ []; objects = [] }

one_left : (run (Evl.file_impl counting) no_evl_files operations).table ≡ 0 ∷ []
unfolding run apply Evl.open_file Evl.close_file release
one_left = refl

evl_files-IsOwned_example :
    IsOwned Evl.owned
      (0 ∷ [])
      (run (Evl.file_impl counting) no_evl_files operations).table
      (run (Evl.file_impl counting) no_evl_files operations).objects
unfolding count all_owned
evl_files-IsOwned_example =
    evl_files-IsOwned counting counting-IsFresh (0 ∷ []) no_evl_files operations
      (record { once = λ x. ground arith; shared_out = λ x. omega arith })
