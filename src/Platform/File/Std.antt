-- ===== src/Platform/File/Std.antt =====
-- include/corerat/platform/std/file_impl.hpp: `File` over a POSIX descriptor.
use core_ra_t.Base.{
  ℕ, refl, Bool, true, false, Option, none, some, List, ◌∷◌, arith, Option-cases, inl, inr,
}
use core_ra_t.Platform.Owner.{count, cons-once, count-cons, IsOwned}
use core_ra_t.Platform.Owner.Moves.{Within, Balances, Impl, Op, World, run, IsOwner, run-IsOwned}
use core_ra_t.Platform.File.{OpenCall, System, IsFresh, close_if_open, owned_by, close_lem, Close}

pub record File : Type 0 where
  pub file_fd : Option ℕ

abbrev pub closed : File
closed = record { file_fd = none }

abbrev pub moved_from : File → File
moved_from f = closed

-- `close`, a file and the table after it.
unfoldable pub close_file : File → List ℕ → File × List ℕ
close_file f t = (closed, close_if_open f.file_fd t)

module _ (sys : System) where
  -- `open`: the result, the file and the table.
  unfoldable pub open_file : OpenCall → File → List ℕ → Bool × File × List ℕ
  open_file c f t =
      let t0 = (close_file f t).1 in
      elim (sys.sys_open c t0) [
        | none ↦ (false, closed, t0)
        | some fd ↦ (true, record { file_fd = some fd }, fd ∷ t0)
      ]

  abbrev pub file_impl : Impl File OpenCall Close
  file_impl = record {
    empty = closed;
    moved_from = moved_from;
    acquire = λ c f t. ((open_file c f t).1, (open_file c f t).2);
    dispose = λ d f t. close_file f t;
    at_end = Close.close;
  }

abbrev pub owned : File → List ℕ
owned f = owned_by f.file_fd

module _ (sys : System) (fresh : IsFresh sys) where
  open_lem :
      (c : OpenCall) (f : File) (t : List ℕ)
      → Within owned f t
      → Balances owned f t ((file_impl sys).acquire c f t)
  unfolding open_file close_file count
  open_lem c f t (once, has) =
      let t0 = close_if_open f.file_fd t in
      let (once0, sum0) = close_lem f.file_fd t once has in
      elim (Option-cases (sys.sys_open c t0)) [
        | inl e ↦ (λ x. ground (arith, e, once0 x), λ x. ground (arith, e, sum0 x))
        | inr (fd, e) ↦
            let new = cons-once fd t0 once0 (fresh.open_fresh c t0 fd e) in
            (λ x. ground (arith, e, new x), λ x. ground (arith, e, sum0 x, count-cons x fd t0))
      ]

  file_impl-IsOwner : IsOwner (file_impl sys) owned
  unfolding close_file count
  file_impl-IsOwner = record {
    empty_lem = λ x. refl;
    moved_lem = λ f x. refl;
    acquire_lem = open_lem;
    dispose_lem = λ d f t w.
        let (once0, sum0) = close_lem f.file_fd t w.0 w.1 in
        ((once0, λ x. omega (arith, sum0 x)), λ x. refl);
  }

  -- Whatever files are constructed, opened, closed, moved and destroyed, in whatever order: each
  -- descriptor of the table is open once, and is one of those that were there before or is owned by
  -- exactly one file; a file owns no descriptor that is closed. The system returns descriptors that
  -- are not open.
  pub std_files-IsOwned :
      (others : List ℕ) (w : World File) (ops : List (Op OpenCall Close))
      → IsOwned owned others w.table w.objects
      → IsOwned owned others (run (file_impl sys) w ops).table (run (file_impl sys) w ops).objects
  std_files-IsOwned others w ops v =
      run-IsOwned (file_impl sys) owned file_impl-IsOwner others w ops v
