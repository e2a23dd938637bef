-- ===== src/Evl/Ring/Search.antt =====
-- What the loops over the slots find.
use core_ra_t.Base.{
  ℕ, zero, suc, ◌+◌, ◌<◌, ◌≡◌, refl, sym, subst, ap, ◌∙◌, ◌⊎◌, inl, inr, true, false, ◌&&◌, Option,
  none, some, List, [], ◌∷◌, arith, get_or, length, if◌then◌else◌, Bool-cases,
}
use core_ra_t.Base.Int.{ℤ, ltb_ℤ, ltb_ℤ→lt, ◌≤ℤ◌}
use core_ra_t.Evl.Ring.{SlotMeta, free_meta, free_loop, highest_loop, lowest_loop}

-- The loop finds the first free slot; where it finds none, every slot is in use.
pub free_loop-some :
    (ms : List SlotMeta) (i k : ℕ)
    → free_loop ms i ≡ some k
    → (d : ℕ) × (k ≡ i + d) × (d < length ms) × ((get_or ms d free_meta).in_use ≡ false)
unfolding free_loop
free_loop-some [] i k e = cc
free_loop-some (m ∷ ms) i k e = elim (Bool-cases m.in_use) [
  | inl used ↦
      let (d, a, b, c) = free_loop-some ms (suc i) k (ground arith) in
      (suc d, omega arith, omega arith, c)
  | inr free ↦ (0, ground arith, omega arith, free)
]

pub free_loop-none :
    (ms : List SlotMeta) (i d : ℕ)
    → free_loop ms i ≡ none
    → d < length ms
    → (get_or ms d free_meta).in_use ≡ true
unfolding free_loop
free_loop-none [] i d e lt = absurd (omega arith)
free_loop-none (m ∷ ms) i zero e lt = ground arith
free_loop-none (m ∷ ms) i (suc d) e lt = ground (arith, free_loop-none ms (suc i) d)

-- Where the search for the highest priority stands: at the slot it started with, or at one in use
-- whose priority no slot in use exceeds.
abbrev pub Best : List SlotMeta → ℕ → Option ℕ → ℤ → Option ℕ → Type 0
Best ms i best prio r =
    ((r ≡ best)
      × ((d : ℕ)
          → d < length ms
          → (get_or ms d free_meta).in_use ≡ true
          → (get_or ms d free_meta).priority ≤ℤ prio))
    ⊎ ((k : ℕ) × (r ≡ some (i + k))
        × (k < length ms)
        × ((get_or ms k free_meta).in_use ≡ true)
        × (ltb_ℤ prio (get_or ms k free_meta).priority ≡ true)
        × ((d : ℕ)
            → d < length ms
            → (get_or ms d free_meta).in_use ≡ true
            → (get_or ms d free_meta).priority ≤ℤ (get_or ms k free_meta).priority))

some_eq : {a b : ℕ} (r : Option ℕ) → r ≡ some a → a ≡ b → r ≡ some b
some_eq r e h = e ∙ ap some h

Best-step :
    (m : SlotMeta) (ms : List SlotMeta) (i : ℕ) (best : Option ℕ) (prio : ℤ) (r : Option ℕ)
    → m.in_use ≡ true
    → ltb_ℤ prio m.priority ≡ true
    → Best ms (suc i) (some i) m.priority r
    → Best (m ∷ ms) i best prio r
Best-step m ms i best prio r used lt (inl (e, le)) =
    inr (0, some_eq r e (omega arith), omega arith, used, lt, all)
  where
    all :
        (d : ℕ)
        → d < length (m ∷ ms)
        → (get_or (m ∷ ms) d free_meta).in_use ≡ true
        → (get_or (m ∷ ms) d free_meta).priority ≤ℤ m.priority
    all zero l u = omega arith
    all (suc d) l u = le d (omega arith) u
Best-step m ms i best prio r used lt (inr (k, e, l, u, more, le)) =
    inr (suc k, some_eq r e (omega arith), omega arith, u, ground arith, all)
  where
    all :
        (d : ℕ)
        → d < length (m ∷ ms)
        → (get_or (m ∷ ms) d free_meta).in_use ≡ true
        → (get_or (m ∷ ms) d free_meta).priority ≤ℤ (get_or ms k free_meta).priority
    all zero l u = omega (arith, ltb_ℤ→lt m.priority (get_or ms k free_meta).priority more)
    all (suc d) l u = le d (omega arith) u

keep_step :
    (m : SlotMeta) (ms : List SlotMeta) (i : ℕ) (best : Option ℕ) (prio : ℤ) (r : Option ℕ)
    → m.in_use && ltb_ℤ prio m.priority ≡ false
    → Best ms (suc i) best prio r
    → Best (m ∷ ms) i best prio r
keep_step m ms i best prio r not_better (inl (e, le)) = inl (e, all)
  where
    all :
        (d : ℕ)
        → d < length (m ∷ ms)
        → (get_or (m ∷ ms) d free_meta).in_use ≡ true
        → (get_or (m ∷ ms) d free_meta).priority ≤ℤ prio
    all zero l u = ground arith
    all (suc d) l u = le d (omega arith) u
keep_step m ms i best prio r not_better (inr (k, e, l, u, more, le)) =
    inr (suc k, some_eq r e (omega arith), omega arith, u, more, all)
  where
    all :
        (d : ℕ)
        → d < length (m ∷ ms)
        → (get_or (m ∷ ms) d free_meta).in_use ≡ true
        → (get_or (m ∷ ms) d free_meta).priority ≤ℤ (get_or ms k free_meta).priority
    all zero l v = ground arith
    all (suc d) l v = le d (omega arith) v

pub highest_loop-Best :
    (ms : List SlotMeta) (i : ℕ) (best : Option ℕ) (prio : ℤ)
    → Best ms i best prio (highest_loop ms i best prio)
unfolding highest_loop
highest_loop-Best [] i best prio = inl (refl, λ d lt _. absurd (omega arith))
highest_loop-Best (m ∷ ms) i best prio = elim (Bool-cases (m.in_use && ltb_ℤ prio m.priority)) [
  | inl better ↦ Best-step m ms i best prio _ (ground arith) (ground arith) (
      subst
        (λ b.
          Best ms (suc i) (some i) m.priority
            (highest_loop ms (suc i) (if b then some i else best) (if b then m.priority else prio)))
        (sym better) (highest_loop-Best ms (suc i) (some i) m.priority))
  | inr worse ↦ keep_step m ms i best prio _ worse (
      subst
        (λ b.
          Best ms (suc i) best prio
            (highest_loop ms (suc i) (if b then some i else best) (if b then m.priority else prio)))
        (sym worse) (highest_loop-Best ms (suc i) best prio))
]

-- The same for the search for the lowest priority, with the priority that it returns.
abbrev pub Worst : List SlotMeta → ℕ → Option ℕ → ℤ → Option ℕ × ℤ → Type 0
Worst ms i worst prio r =
    ((r.0 ≡ worst)
      × (r.1 ≡ prio)
      × ((d : ℕ)
          → d < length ms
          → (get_or ms d free_meta).in_use ≡ true
          → prio ≤ℤ (get_or ms d free_meta).priority))
    ⊎ ((k : ℕ) × (r.0 ≡ some (i + k))
        × (r.1 ≡ (get_or ms k free_meta).priority)
        × (k < length ms)
        × ((get_or ms k free_meta).in_use ≡ true)
        × (ltb_ℤ (get_or ms k free_meta).priority prio ≡ true)
        × ((d : ℕ)
            → d < length ms
            → (get_or ms d free_meta).in_use ≡ true
            → (get_or ms k free_meta).priority ≤ℤ (get_or ms d free_meta).priority))

lower_step :
    (m : SlotMeta) (ms : List SlotMeta) (i : ℕ) (worst : Option ℕ) (prio : ℤ) (r : Option ℕ × ℤ)
    → m.in_use ≡ true
    → ltb_ℤ m.priority prio ≡ true
    → Worst ms (suc i) (some i) m.priority r
    → Worst (m ∷ ms) i worst prio r
lower_step m ms i worst prio r used lt (inl (e, p, le)) =
    inr (0, some_eq r.0 e (omega arith), p, omega arith, used, lt, all)
  where
    all :
        (d : ℕ)
        → d < length (m ∷ ms)
        → (get_or (m ∷ ms) d free_meta).in_use ≡ true
        → m.priority ≤ℤ (get_or (m ∷ ms) d free_meta).priority
    all zero l u = omega arith
    all (suc d) l u = le d (omega arith) u
lower_step m ms i worst prio r used lt (inr (k, e, p, l, u, more, le)) =
    inr (suc k, some_eq r.0 e (omega arith), p, omega arith, u, ground arith, all)
  where
    all :
        (d : ℕ)
        → d < length (m ∷ ms)
        → (get_or (m ∷ ms) d free_meta).in_use ≡ true
        → (get_or ms k free_meta).priority ≤ℤ (get_or (m ∷ ms) d free_meta).priority
    all zero l u = omega (arith, ltb_ℤ→lt (get_or ms k free_meta).priority m.priority more)
    all (suc d) l u = le d (omega arith) u

pass_step :
    (m : SlotMeta) (ms : List SlotMeta) (i : ℕ) (worst : Option ℕ) (prio : ℤ) (r : Option ℕ × ℤ)
    → m.in_use && ltb_ℤ m.priority prio ≡ false
    → Worst ms (suc i) worst prio r
    → Worst (m ∷ ms) i worst prio r
pass_step m ms i worst prio r not_lower (inl (e, p, le)) = inl (e, p, all)
  where
    all :
        (d : ℕ)
        → d < length (m ∷ ms)
        → (get_or (m ∷ ms) d free_meta).in_use ≡ true
        → prio ≤ℤ (get_or (m ∷ ms) d free_meta).priority
    all zero l u = ground arith
    all (suc d) l u = le d (omega arith) u
pass_step m ms i worst prio r not_lower (inr (k, e, p, l, u, more, le)) =
    inr (suc k, some_eq r.0 e (omega arith), p, omega arith, u, more, all)
  where
    all :
        (d : ℕ)
        → d < length (m ∷ ms)
        → (get_or (m ∷ ms) d free_meta).in_use ≡ true
        → (get_or ms k free_meta).priority ≤ℤ (get_or (m ∷ ms) d free_meta).priority
    all zero l v = ground arith
    all (suc d) l v = le d (omega arith) v

pub lowest_loop-Worst :
    (ms : List SlotMeta) (i : ℕ) (worst : Option ℕ) (prio : ℤ)
    → Worst ms i worst prio (lowest_loop ms i worst prio)
unfolding lowest_loop
lowest_loop-Worst [] i worst prio = inl (refl, refl, λ d lt _. absurd (omega arith))
lowest_loop-Worst (m ∷ ms) i worst prio = elim (Bool-cases (m.in_use && ltb_ℤ m.priority prio)) [
  | inl lower ↦ lower_step m ms i worst prio _ (ground arith) (ground arith) (
      subst
        (λ b.
          Worst ms (suc i) (some i) m.priority
            (lowest_loop ms (suc i) (if b then some i else worst) (if b then m.priority else prio)))
        (sym lower) (lowest_loop-Worst ms (suc i) (some i) m.priority))
  | inr higher ↦ pass_step m ms i worst prio _ higher (
      subst
        (λ b.
          Worst ms (suc i) worst prio
            (lowest_loop ms (suc i) (if b then some i else worst) (if b then m.priority else prio)))
        (sym higher) (lowest_loop-Worst ms (suc i) worst prio))
]
