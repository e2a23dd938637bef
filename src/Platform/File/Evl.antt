-- ===== src/Platform/File/Evl.antt =====
-- include/corerat/platform/evl/file_impl.hpp: `File` over a descriptor and an EVL proxy for it.
use core_ra_t.Base.{
  ℕ, ◌+◌, ◌%◌, ◌≤◌, ◌≡◌, refl, Bool, true, false, Option, none, some, List, [], ◌∷◌, ◌++◌, arith,
  Option-cases, inl, inr, ◌==◌, if◌then◌else◌,
}
use core_ra_t.Platform.Owner.{count, release, count-append, cons-once, IsOwned}
use core_ra_t.Platform.Owner.Moves.{Within, Balances, Impl, Op, World, run, IsOwner, run-IsOwned}
use core_ra_t.Platform.File.{
  OpenCall, System, CloneFlag, clone_private, clone_input, clone_output, IsFresh, close_if_open,
  owned_by, close_lem, Close,
}

pub record File : Type 0 where
  pub file_fd : Option ℕ
  pub proxy_fd : Option ℕ

abbrev pub closed : File
closed = record { file_fd = none; proxy_fd = none }

abbrev pub moved_from : File → File
moved_from f = closed

-- The direction of the proxy, from the access mode: O_RDONLY is 0 and O_WRONLY is 1.
unfoldable pub proxy_flags : ℕ → List CloneFlag
proxy_flags flags =
    if flags % 4 == 0
    then clone_private ∷ clone_input ∷ []
    else if flags % 4 == 1
    then clone_private ∷ clone_output ∷ []
    else clone_private ∷ clone_input ∷ clone_output ∷ []

-- The proxy is closed first.
unfoldable pub close_file : File → List ℕ → File × List ℕ
close_file f t = (closed, close_if_open f.file_fd (close_if_open f.proxy_fd t))

-- Where a write or a read goes: the file, in-band, or the proxy, out-of-band.
pub data Call : Type 0 where
  sys_call : Option ℕ → Call
  oob_call : Option ℕ → Call

unfoldable pub write_call : Bool → File → Call
write_call is_inband f = if is_inband then sys_call f.file_fd else oob_call f.proxy_fd

unfoldable pub read_call : Bool → File → Call
read_call is_inband f = if is_inband then sys_call f.file_fd else oob_call f.proxy_fd

module _ (sys : System) where
  unfoldable pub open_file : OpenCall → File → List ℕ → Bool × File × List ℕ
  open_file c f t =
      let t0 = (close_file f t).1 in
      elim (sys.sys_open c t0) [
        | none ↦ (false, closed, t0)
        | some fd ↦ elim (sys.create_proxy c fd (proxy_flags c.flags) (fd ∷ t0)) [
          | none ↦ (false, closed, release fd (fd ∷ t0))
          | some proxy ↦
              (true, record { file_fd = some fd; proxy_fd = some proxy }, proxy ∷ fd ∷ t0)
        ]
      ]

  abbrev pub file_impl : Impl File OpenCall Close
  file_impl = record {
    empty = closed;
    moved_from = moved_from;
    acquire = λ c f t. ((open_file c f t).1, (open_file c f t).2);
    dispose = λ d f t. close_file f t;
    at_end = Close.close;
  }

abbrev pub owned : File → List ℕ
owned f = owned_by f.proxy_fd ++ owned_by f.file_fd

closed_both :
    (f : File) (t : List ℕ)
    → Within owned f t
    → ((x : ℕ) → count x (close_file f t).1 ≤ 1)
      × ((x : ℕ) → count x (close_file f t).1 + count x (owned f) ≡ count x t)
unfolding close_file
closed_both f t (once, has) =
    let split = λ (x : ℕ). count-append x (owned_by f.proxy_fd) (owned_by f.file_fd) in
    let (once1, sum1) = close_lem f.proxy_fd t once (λ x. omega (arith, has x, split x)) in
    let t1 = close_if_open f.proxy_fd t in
    let (once2, sum2) = close_lem f.file_fd t1 once1 (λ x. omega (arith, has x, split x, sum1 x)) in
    (once2, λ x. omega (arith, split x, sum1 x, sum2 x))

module _ (sys : System) (fresh : IsFresh sys) where
  open_lem :
      (c : OpenCall) (f : File) (t : List ℕ)
      → Within owned f t
      → Balances owned f t ((file_impl sys).acquire c f t)
  unfolding open_file count release
  open_lem c f t w =
      let t0 = (close_file f t).1 in
      let (once0, sum0) = closed_both f t w in
      elim (Option-cases (sys.sys_open c t0)) [
        | inl e ↦ (λ x. ground (arith, e, once0 x), λ x. ground (arith, e, sum0 x))
        | inr (fd, e) ↦
            let once1 = cons-once fd t0 once0 (fresh.open_fresh c t0 fd e) in
            elim (Option-cases (sys.create_proxy c fd (proxy_flags c.flags) (fd ∷ t0))) [
              | inl n ↦ (λ x. ground (arith, e, n, once0 x), λ x. ground (arith, e, n, sum0 x))
              | inr (proxy, n) ↦
                  let new =
                    cons-once proxy (fd ∷ t0) once1
                      (fresh.proxy_fresh c fd (proxy_flags c.flags) (fd ∷ t0) proxy n) in
                  (λ x. ground (arith, e, n, new x), λ x. ground (arith, e, n, sum0 x))
            ]
      ]

  file_impl-IsOwner : IsOwner (file_impl sys) owned
  unfolding close_file count
  file_impl-IsOwner = record {
    empty_lem = λ x. refl;
    moved_lem = λ f x. refl;
    acquire_lem = open_lem;
    dispose_lem = λ d f t w.
        let (once0, sum0) = closed_both f t w in ((once0, λ x. omega (arith, sum0 x)), λ x. refl);
  }

  -- Whatever files are constructed, opened, closed, moved and destroyed, in whatever order, also where
  -- the file opens and the proxy fails: each descriptor of the table is open once, and is one of those
  -- that were there before or is owned by exactly one file, as its file or its proxy; a file owns no
  -- descriptor that is closed. The system returns descriptors that are not open.
  pub evl_files-IsOwned :
      (others : List ℕ) (w : World File) (ops : List (Op OpenCall Close))
      → IsOwned owned others w.table w.objects
      → IsOwned owned others (run (file_impl sys) w ops).table (run (file_impl sys) w ops).objects
  evl_files-IsOwned others w ops v =
      run-IsOwned (file_impl sys) owned file_impl-IsOwner others w ops v
