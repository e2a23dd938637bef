-- ===== src/Evl/Remote/Search.antt =====
-- What the searches of the cache of remote handles find.
use core_ra_t.Base.{
  ℕ, zero, suc, ◌+◌, ◌<◌, ◌≤◌, ◌≡◌, refl, ◌⊎◌, inl, inr, true, false, ◌&&◌, none, some, List, [],
  ◌∷◌, arith, get_or, length, ltb, ◌==◌, Bool-cases,
}
use core_ra_t.Evl.Remote.{RemoteHandle, closed_handle, hit_loop, empty_loop, lru_loop}

abbrev pub at : List RemoteHandle → ℕ → RemoteHandle
at hs d = get_or hs d closed_handle

-- The handle is open for the destination.
abbrev pub IsFor : RemoteHandle → ℕ → Type 0
IsFor h dest = (h.valid ≡ true) × (h.dest_id ≡ dest)

pub hit_loop_lem :
    (hs : List RemoteHandle) (dest i : ℕ)
    → ((hit_loop hs dest i ≡ none) × ((d : ℕ) → ¬ IsFor (at hs d) dest))
      ⊎ ((k : ℕ) × (hit_loop hs dest i ≡ some (i + k)) × (k < length hs) × IsFor (at hs k) dest)
unfolding hit_loop
hit_loop_lem [] dest i = inl (refl, λ d h. ground (arith, h.0))
hit_loop_lem (h ∷ hs) dest i = elim (Bool-cases (h.valid && h.dest_id == dest)) [
  | inl y ↦ inr (0, ground (arith, y), omega arith, ground (arith, y))
  | inr n ↦ elim (hit_loop_lem hs dest (suc i)) [
    | inl (e, all) ↦ inl (ground (arith, n, e), split n all)
    | inr (k, e, lt, ok) ↦ inr (suc k, ground (arith, n, e), omega (arith, lt), ok)
  ]
]
  where
    split :
        (h.valid && h.dest_id == dest) ≡ false
        → ((d : ℕ) → ¬ IsFor (at hs d) dest)
        → (d : ℕ) → ¬ IsFor (at (h ∷ hs) d) dest
    split n all zero ok = ground (arith, n, ok.0, ok.1)
    split n all (suc d) ok = all d ok

pub empty_loop_lem :
    (hs : List RemoteHandle) (i : ℕ)
    → ((empty_loop hs i ≡ none) × ((d : ℕ) → d < length hs → (at hs d).valid ≡ true))
      ⊎ ((k : ℕ) × (empty_loop hs i ≡ some (i + k)) × (k < length hs) × ((at hs k).valid ≡ false))
unfolding empty_loop
empty_loop_lem [] i = inl (refl, λ d lt. absurd (omega arith))
empty_loop_lem (h ∷ hs) i = elim (Bool-cases h.valid) [
  | inr n ↦ inr (0, ground (arith, n), omega arith, n)
  | inl y ↦ elim (empty_loop_lem hs (suc i)) [
    | inl (e, all) ↦ inl (ground (arith, y, e), split y all)
    | inr (k, e, lt, ok) ↦ inr (suc k, ground (arith, y, e), omega (arith, lt), ok)
  ]
]
  where
    split :
        h.valid ≡ true
        → ((d : ℕ) → d < length hs → (at hs d).valid ≡ true)
        → (d : ℕ) → d < length (h ∷ hs)
        → (at (h ∷ hs) d).valid ≡ true
    split y all zero lt = y
    split y all (suc d) lt = all d (omega (arith, lt))

-- The search for the least recent use keeps what it starts with, or finds a handle used less recently;
-- no handle was used less recently than what it ends with.
pub lru_loop_lem :
    (hs : List RemoteHandle) (i lru used : ℕ)
    → ((lru_loop hs i lru used ≡ lru) × ((d : ℕ) → d < length hs → used ≤ (at hs d).last_used))
      ⊎ ((k : ℕ) × (lru_loop hs i lru used ≡ i + k)
          × (k < length hs)
          × ((at hs k).last_used < used)
          × ((d : ℕ) → d < length hs → (at hs k).last_used ≤ (at hs d).last_used))
unfolding lru_loop
lru_loop_lem [] i lru used = inl (refl, λ d lt. absurd (omega arith))
lru_loop_lem (h ∷ hs) i lru used = elim (Bool-cases (ltb h.last_used used)) [
  | inl y ↦ elim (lru_loop_lem hs (suc i) i h.last_used) [
    | inl (e, all) ↦ inr (
      0,
      ground (arith, y, e),
      omega arith,
      ground (arith, y),
      older h.last_used all (omega arith),
    )
    | inr (k, e, lt, less, all) ↦ inr (
      suc k,
      ground (arith, y, e),
      omega (arith, lt),
      ground (arith, y, less),
      older (at hs k).last_used all (omega (arith, less)),
    )
  ]
  | inr n ↦ elim (lru_loop_lem hs (suc i) lru used) [
    | inl (e, all) ↦ inl (ground (arith, n, e), older used all (ground (arith, n)))
    | inr (k, e, lt, less, all) ↦ inr (
      suc k,
      ground (arith, n, e),
      omega (arith, lt),
      less,
      older (at hs k).last_used all (ground (arith, n, less)),
    )
  ]
]
  where
    older :
        (u : ℕ)
        → ((d : ℕ) → d < length hs → u ≤ (at hs d).last_used)
        → u ≤ h.last_used
        → (d : ℕ) → d < length (h ∷ hs)
        → u ≤ (at (h ∷ hs) d).last_used
    older u all le zero lt = le
    older u all le (suc d) lt = all d (omega (arith, lt))
