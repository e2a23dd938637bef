-- ===== src/Evl/Registry/Probe.antt =====
-- Where a probe of the registry stops: the first slot that is empty or holds the id.
use core_ra_t.Base.{
  ℕ, zero, suc, ◌+◌, ◌<◌, ◌≤◌, ◌≡◌, refl, subst, ap, ◌≢◌, ◌⊎◌, Option, none, some, arith, set, ◌==◌,
  ◌||◌, ℕ_discrete, if◌then◌else◌,
}
use core_ra_t.Evl.Registry.{Table, slot_at, id_at, ptr_at, insert_loop, remove_loop, find_loop}

-- The offset at which the probe for `id` from slot `h` stops.
pub probe : ℕ → ℕ → Table → ℕ → ℕ → Option ℕ
probe zero i t h id = none
probe (suc n) i t h id =
    let rest = probe n (i + 1) t h id in
    let s = slot_at h i in if id_at t s == 0 || id_at t s == id then some i else rest

pub find_loop-probe :
    (n i : ℕ) (t : Table) (h id : ℕ)
    → find_loop n i t h id ≡ (elim (probe n i t h id) [
      | none ↦ none
      | some k ↦ if id_at t (slot_at h k) == 0 then none else ptr_at t (slot_at h k)
    ])
unfolding find_loop probe
find_loop-probe zero i t h id = refl
find_loop-probe (suc n) i t h id = ground (arith, find_loop-probe n (i + 1) t h id)

pub insert_loop-probe :
    (n i : ℕ) (t : Table) (h id : ℕ) (ptr : Option ℕ)
    → insert_loop n i t h id ptr ≡ (elim (probe n i t h id) [
      | none ↦ t
      | some k ↦ set t (slot_at h k) (record { id = id; ptr = ptr })
    ])
unfolding insert_loop probe
insert_loop-probe zero i t h id ptr = refl
insert_loop-probe (suc n) i t h id ptr = ground (arith, insert_loop-probe n (i + 1) t h id ptr)

pub remove_loop-probe :
    (n i : ℕ) (t : Table) (h id : ℕ)
    → remove_loop n i t h id ≡ (elim (probe n i t h id) [
      | none ↦ t
      | some k ↦
          if id_at t (slot_at h k) == 0
          then t
          else set t (slot_at h k) (record { id = id_at t (slot_at h k); ptr = none })
    ])
unfolding remove_loop probe
remove_loop-probe zero i t h id = refl
remove_loop-probe (suc n) i t h id = ground (arith, remove_loop-probe n (i + 1) t h id)

-- The slot at offset `m` ends the probe, or lets it pass.
abbrev pub Stops : Table → ℕ → ℕ → ℕ → Type 0
Stops t h id m = (id_at t (slot_at h m) ≡ 0) ⊎ (id_at t (slot_at h m) ≡ id)

abbrev pub Passes : Table → ℕ → ℕ → ℕ → Type 0
Passes t h id m = (id_at t (slot_at h m) ≢ 0) × (id_at t (slot_at h m) ≢ id)

pub probe-some :
    (n i : ℕ) (t : Table) (h id k : ℕ)
    → probe n i t h id ≡ some k
    → (i ≤ k) × (k < i + n) × Stops t h id k
unfolding probe
probe-some zero i t h id k e = cc
probe-some (suc n) i t h id k e = ground (arith, probe-some n (i + 1) t h id k)

pub probe-some-Passes :
    (n i : ℕ) (t : Table) (h id k m : ℕ)
    → probe n i t h id ≡ some k
    → i ≤ m
    → m < k
    → Passes t h id m
unfolding probe
probe-some-Passes zero i t h id k m e lo hi = cc
probe-some-Passes (suc n) i t h id k m e lo hi = elim (ℕ_discrete i m) [
  | yes p ↦ subst (Passes t h id) p (ground arith)
  | no p ↦ ground (arith, probe-some-Passes n (i + 1) t h id k m)
]

pub probe-none :
    (n i : ℕ) (t : Table) (h id m : ℕ)
    → probe n i t h id ≡ none
    → i ≤ m
    → m < i + n
    → Passes t h id m
unfolding probe
probe-none zero i t h id m e lo hi = absurd (omega arith)
probe-none (suc n) i t h id m e lo hi = elim (ℕ_discrete i m) [
  | yes p ↦ subst (Passes t h id) p (ground arith)
  | no p ↦ ground (arith, probe-none n (i + 1) t h id m)
]

-- The probe stops at the first slot that ends it.
pub probe_intro :
    (n i : ℕ) (t : Table) (h id k : ℕ)
    → i ≤ k
    → k < i + n
    → Stops t h id k
    → ((m : ℕ) → i ≤ m → m < k → Passes t h id m)
    → probe n i t h id ≡ some k
unfolding probe
probe_intro zero i t h id k lo hi s p = absurd (omega arith)
probe_intro (suc n) i t h id k lo hi s p = elim (ℕ_discrete i k) [
  | yes e ↦ ground (arith, ap (slot_at h) e)
  | no ne ↦ ground (
    arith,
    p i,
    probe_intro n (i + 1) t h id k (omega arith) (omega arith) s (λ m a b. p m (omega arith) b),
  )
]
