-- ===== src/Platform/File.antt =====
-- include/corerat/platform/: files over descriptors. What the calls of the system return are parameters,
-- for a call at an instant on a table of the open descriptors; -1 is `none`.
pub mod Std
pub mod Evl
mod Tests
use core_ra_t.Base.{ℕ, ◌+◌, ◌≤◌, ◌≡◌, Option, none, some, List, [], ◌∷◌, arith}
use core_ra_t.Platform.Owner.{count, release, release_lem, release-once}

-- The arguments of `open`, and when it is called.
pub record OpenCall : Type 0 where
  pub path : List ℕ
  pub flags : ℕ
  pub mode : ℕ
  pub proxy_buf_size : ℕ
  pub instant : ℕ

pub data CloneFlag : Type 0 where
  clone_private clone_input clone_output : CloneFlag

-- open(2) and evl_create_proxy: a descriptor, or a failure.
pub record System : Type 0 where
  pub sys_open : OpenCall → List ℕ → Option ℕ
  pub create_proxy : OpenCall → ℕ → List CloneFlag → List ℕ → Option ℕ

-- A descriptor that the system returns was not open.
pub record IsFresh (sys : System) : Type 0 where
  pub open_fresh :
      (c : OpenCall) (t : List ℕ) (fd : ℕ) → sys.sys_open c t ≡ some fd → count fd t ≡ 0
  pub proxy_fresh :
      (c : OpenCall) (file : ℕ) (flags : List CloneFlag) (t : List ℕ) (fd : ℕ)
      → sys.create_proxy c file flags t ≡ some fd
      → count fd t ≡ 0

-- close(2), of a descriptor that is not -1.
abbrev pub close_if_open : Option ℕ → List ℕ → List ℕ
close_if_open none t = t
close_if_open (some fd) t = release fd t

abbrev pub owned_by : Option ℕ → List ℕ
owned_by none = []
owned_by (some fd) = fd ∷ []

-- What closing does to a table that has the descriptor.
pub close_lem :
    (o : Option ℕ) (t : List ℕ)
    → ((x : ℕ) → count x t ≤ 1)
    → ((x : ℕ) → count x (owned_by o) ≤ count x t)
    → ((x : ℕ) → count x (close_if_open o t) ≤ 1)
      × ((x : ℕ) → count x (close_if_open o t) + count x (owned_by o) ≡ count x t)
unfolding count
close_lem none t once has = (once, λ x. omega arith)
close_lem (some fd) t once has =
    (release-once fd t once, λ x. release_lem x fd t (ground (arith, has fd)))

-- How the only disposal, `close`, is called.
pub data Close : Type 0 where
  close : Close
