-- ===== src/Platform/Owner.antt =====
-- What include/corerat/platform/ relies on the system for: a table of the resources in use, and objects
-- that own some of them.
pub mod Moves
use core_ra_t.Base.{
  ℕ, zero, suc, ◌+◌, ◌-◌, ◌<◌, ◌≤◌, ◌≡◌, refl, Bool, List, [], ◌∷◌, ◌++◌, arith, ltb, ◌==◌,
  if◌then◌else◌, length, get_or, set,
}

unfoldable pub count : ℕ → List ℕ → ℕ
count x [] = 0
count x (y ∷ ys) = let rest = count x ys in if y == x then suc rest else rest

-- A resource that the table does not have is not released.
unfoldable pub release : ℕ → List ℕ → List ℕ
release x [] = []
release x (y ∷ ys) = let rest = release x ys in if y == x then ys else y ∷ rest

pub count-append : (x : ℕ) (xs ys : List ℕ) → count x (xs ++ ys) ≡ count x xs + count x ys
unfolding count
count-append x [] ys = omega arith
count-append x (z ∷ xs) ys = ground (arith, count-append x xs ys)

pub count-release :
    (x y : ℕ) (ys : List ℕ)
    → count x (release y ys) ≡ (if y == x then count x ys - 1 else count x ys)
unfolding count release
count-release x y [] = ground arith
count-release x y (z ∷ ys) = ground (arith, count-release x y ys)

-- A resource in the table is released, and a fresh one is taken into it.
pub release_lem :
    (x y : ℕ) (ys : List ℕ)
    → 1 ≤ count y ys
    → count x (release y ys) + count x (y ∷ []) ≡ count x ys
unfolding count
release_lem x y ys h = ground (arith, count-release x y ys, h)

pub release-once :
    (y : ℕ) (ys : List ℕ) → ((x : ℕ) → count x ys ≤ 1) → ((x : ℕ) → count x (release y ys) ≤ 1)
release-once y ys h x = ground (arith, count-release x y ys, h x)

pub cons-once :
    (y : ℕ) (ys : List ℕ)
    → ((x : ℕ) → count x ys ≤ 1)
    → count y ys ≡ 0
    → ((x : ℕ) → count x (y ∷ ys) ≤ 1)
unfolding count
cons-once y ys h new x = ground (arith, h x, new)

pub count-cons : (x y : ℕ) (ys : List ℕ) → count x (y ∷ ys) ≡ count x ys + count x (y ∷ [])
unfolding count
count-cons x y ys = ground arith

module _ {F : Type 0} (owned : F → List ℕ) where
  -- All that a list of objects owns.
  unfoldable pub all_owned : List F → List ℕ
  all_owned [] = []
  all_owned (f ∷ fs) = owned f ++ all_owned fs

  pub count-set :
      (x : ℕ) (fs : List F) (i : ℕ) (f d : F)
      → i < length fs
      → count x (all_owned (set fs i f)) + count x (owned (get_or fs i d))
        ≡ count x (all_owned fs) + count x (owned f)
  unfolding all_owned
  count-set x [] i f d h = absurd (omega (arith, h))
  count-set x (g ∷ fs) zero f d h =
      omega
        (arith, count-append x (owned f) (all_owned fs), count-append x (owned g) (all_owned fs))
  count-set x (g ∷ fs) (suc i) f d h = omega (
    arith,
    count-append x (owned g) (all_owned fs),
    count-append x (owned g) (all_owned (set fs i f)),
    count-set x fs i f d (omega (arith, h)),
  )

  pub count-snoc :
      (x : ℕ) (fs : List F) (f : F)
      → count x (all_owned (fs ++ (f ∷ []))) ≡ count x (all_owned fs) + count x (owned f)
  unfolding all_owned count
  count-snoc x [] f = ground (arith, count-append x (owned f) [])
  count-snoc x (g ∷ fs) f = ground (
    arith,
    count-append x (owned g) (all_owned fs),
    count-append x (owned g) (all_owned (fs ++ (f ∷ []))),
    count-snoc x fs f,
  )

  pub count-get_or :
      (x : ℕ) (fs : List F) (i : ℕ) (d : F)
      → i < length fs
      → count x (owned (get_or fs i d)) ≤ count x (all_owned fs)
  unfolding all_owned
  count-get_or x [] i d h = absurd (omega (arith, h))
  count-get_or x (g ∷ fs) zero d h = omega (arith, count-append x (owned g) (all_owned fs))
  count-get_or x (g ∷ fs) (suc i) d h =
      omega
        (arith, count-append x (owned g) (all_owned fs), count-get_or x fs i d (omega (arith, h)))

  -- Each resource in the table is in it once, and is one of `others` or is owned by one object; and what
  -- an object owns is in the table.
  pub record IsOwned (others table : List ℕ) (objects : List F) : Type 0 where
    pub once : (x : ℕ) → count x table ≤ 1
    pub shared_out : (x : ℕ) → count x table ≡ count x others + count x (all_owned objects)
