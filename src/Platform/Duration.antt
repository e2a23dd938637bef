-- ===== src/Platform/Duration.antt =====
-- include/corerat/platform/duration.hpp: durations in nanoseconds.
-- An int64_t is a ℤ; where a result leaves its range, C++ leaves the operation undefined. Division and
-- remainder round towards zero.
pub mod Operators
use native.Mathlib.Nat.{div-eq_of_lt}
use core_ra_t.Base.{
  ℕ, zero, suc, ◌+◌, ◌-◌, ◌*◌, ◌/◌, ◌%◌, ◌<◌, ◌≡◌, ◌≢◌, ◌∙◌, sym, refl, ap, Bool, true, false, not,
  ◌&&◌, arith, ltb, if◌then◌else◌,
}
use core_ra_t.Base.Int.{ℤ, pos, negsuc, ltb_ℤ, ◌≤ℤ◌}

-- Minus a number.
unfoldable pub neg_ℕ : ℕ → ℤ
neg_ℕ zero = pos 0
neg_ℕ (suc n) = negsuc n

-- The difference of two numbers.
unfoldable pub diff : ℕ → ℕ → ℤ
diff m n = if ltb m n then negsuc (n - m - 1) else pos (m - n)

unfoldable pub add_ℤ : ℤ → ℤ → ℤ
add_ℤ (pos m) (pos n) = pos (m + n)
add_ℤ (pos m) (negsuc n) = diff m (n + 1)
add_ℤ (negsuc m) (pos n) = diff n (m + 1)
add_ℤ (negsuc m) (negsuc n) = negsuc (m + n + 1)

unfoldable pub neg_ℤ : ℤ → ℤ
neg_ℤ (pos n) = neg_ℕ n
neg_ℤ (negsuc n) = pos (n + 1)

-- By a positive constant.
unfoldable pub scale : ℤ → ℕ → ℤ
scale (pos n) k = pos (n * k)
scale (negsuc n) k = neg_ℕ ((n + 1) * k)

unfoldable pub div_trunc : ℤ → ℕ → ℤ
div_trunc (pos n) k = pos (n / k)
div_trunc (negsuc n) k = neg_ℕ ((n + 1) / k)

unfoldable pub mod_trunc : ℤ → ℕ → ℤ
mod_trunc (pos n) k = pos (n % k)
mod_trunc (negsuc n) k = neg_ℕ ((n + 1) % k)

pub record Duration : Type 0 where
  pub ns : ℤ

abbrev pub nanoseconds : ℤ → Duration
nanoseconds v = record { ns = v }

abbrev pub microseconds : ℤ → Duration
microseconds v = record { ns = scale v 1000 }

abbrev pub milliseconds : ℤ → Duration
milliseconds v = record { ns = scale v 1000000 }

abbrev pub seconds : ℤ → Duration
seconds v = record { ns = scale v 1000000000 }

abbrev pub minutes : ℤ → Duration
minutes v = record { ns = scale v 60000000000 }

abbrev pub hours : ℤ → Duration
hours v = record { ns = scale v 3600000000000 }

abbrev pub count_us : Duration → ℤ
count_us d = div_trunc d.ns 1000

abbrev pub count_ms : Duration → ℤ
count_ms d = div_trunc d.ns 1000000

abbrev pub count_s : Duration → ℤ
count_s d = div_trunc d.ns 1000000000

abbrev pub is_negative : Duration → Bool
is_negative d = ltb_ℤ d.ns (pos 0)

abbrev pub is_positive : Duration → Bool
is_positive d = ltb_ℤ (pos 0) d.ns

abbrev pub is_zero : Duration → Bool
is_zero d = not (is_negative d) && not (is_positive d)

-- The operators, of two durations and of one.
abbrev pub plus : Duration → Duration → Duration
plus a b = record { ns = add_ℤ a.ns b.ns }

abbrev pub minus : Duration → Duration → Duration
minus a b = record { ns = add_ℤ a.ns (neg_ℤ b.ns) }

abbrev pub negate : Duration → Duration
negate a = record { ns = neg_ℤ a.ns }

pub record Timespec : Type 0 where
  pub tv_sec : ℤ
  pub tv_nsec : ℤ

abbrev pub to_timespec : Duration → Timespec
to_timespec d = record { tv_sec = div_trunc d.ns 1000000000; tv_nsec = mod_trunc d.ns 1000000000 }

abbrev pub from_timespec : Timespec → Duration
from_timespec ts = record { ns = add_ℤ (scale ts.tv_sec 1000000000) ts.tv_nsec }

scale-neg_ℕ : (n k : ℕ) → scale (neg_ℕ n) k ≡ neg_ℕ (n * k)
unfolding scale neg_ℕ
scale-neg_ℕ zero k =
    ap pos {x = 0 * k} {y = 0} (omega arith) ∙ ap neg_ℕ {x = 0} {y = 0 * k} (omega arith)
scale-neg_ℕ (suc n) k = ap (λ m. neg_ℕ (m * k)) {x = n + 1} {y = suc n} (omega arith)

add-neg_ℕ : (m n : ℕ) → add_ℤ (neg_ℕ m) (neg_ℕ n) ≡ neg_ℕ (m + n)
unfolding add_ℤ neg_ℕ diff
add-neg_ℕ zero zero = refl
add-neg_ℕ zero (suc n) = ground arith
add-neg_ℕ (suc m) zero = ground arith
add-neg_ℕ (suc m) (suc n) = ap neg_ℕ {x = suc (m + n + 1)} {y = suc m + suc n} (omega arith)

div-neg_ℕ : (n k : ℕ) → 0 < k → div_trunc (neg_ℕ n) k ≡ neg_ℕ (n / k)
unfolding div_trunc neg_ℕ
div-neg_ℕ zero k h = ap pos none_left ∙ ap neg_ℕ (sym none_left)
  where
    none_left : 0 / k ≡ 0
    none_left = div-eq_of_lt h
div-neg_ℕ (suc n) k h = ap (λ m. neg_ℕ (m / k)) {x = n + 1} {y = suc n} (omega arith)

neg_ℕ-negative : (n : ℕ) → neg_ℕ n ≢ pos 0 → ltb_ℤ (neg_ℕ n) (pos 0) ≡ true
unfolding neg_ℕ
neg_ℕ-negative zero ne = absurd (ne refl)
neg_ℕ-negative (suc n) ne = ground arith

-- A duration, negative or not, is what its timespec says.
pub from_timespec-to_timespec : (d : Duration) → from_timespec (to_timespec d) ≡ d
unfolding div_trunc mod_trunc scale add_ℤ neg_ℕ
from_timespec-to_timespec d = ap (λ n. record { ns = n }) (parts d.ns)
  where
    parts : (n : ℤ) → add_ℤ (scale (div_trunc n 1000000000) 1000000000) (mod_trunc n 1000000000) ≡ n
    parts (pos n) = ap pos {x = n / 1000000000 * 1000000000 + n % 1000000000} {y = n} (omega arith)
    parts (negsuc n) =
        ap (λ m. add_ℤ m (neg_ℕ ((n + 1) % 1000000000)))
          (scale-neg_ℕ ((n + 1) / 1000000000) 1000000000)
        ∙ add-neg_ℕ ((n + 1) / 1000000000 * 1000000000) ((n + 1) % 1000000000)
        ∙ ap neg_ℕ {x = (n + 1) / 1000000000 * 1000000000 + (n + 1) % 1000000000} {y = suc n}
            (omega arith)

-- The nanoseconds of a timespec are from 0 to 999999999, as POSIX asks, where the duration is not
-- negative; where it is negative and not a whole number of seconds, they are negative.
pub to_timespec_lem :
    (d : Duration)
    → (is_negative d ≡ false
        → (pos 0 ≤ℤ (to_timespec d).tv_nsec) × ((to_timespec d).tv_nsec ≤ℤ pos 999999999))
      × (is_negative d ≡ true
          → mod_trunc d.ns 1000000000 ≢ pos 0
          → ltb_ℤ (to_timespec d).tv_nsec (pos 0) ≡ true)
unfolding mod_trunc neg_ℕ
to_timespec_lem d = parts d.ns
  where
    parts :
        (n : ℤ)
        → (ltb_ℤ n (pos 0) ≡ false
            → (pos 0 ≤ℤ mod_trunc n 1000000000) × (mod_trunc n 1000000000 ≤ℤ pos 999999999))
          × (ltb_ℤ n (pos 0) ≡ true
              → mod_trunc n 1000000000 ≢ pos 0
              → ltb_ℤ (mod_trunc n 1000000000) (pos 0) ≡ true)
    parts (pos n) = (λ e. (omega arith, omega arith), λ e ne. ground (arith, e))
    parts (negsuc n) = (λ e. ground (arith, e), λ e ne. neg_ℕ-negative ((n + 1) % 1000000000) ne)

-- A duration that is made of a number of units counts that number of them.
pub count_lem :
    (v : ℤ)
    → (count_us (microseconds v) ≡ v) × (count_ms (milliseconds v) ≡ v) × (count_s (seconds v) ≡ v)
unfolding scale neg_ℕ div_trunc
count_lem (pos n) = (
  ap pos {x = n * 1000 / 1000} {y = n} (omega arith),
  ap pos {x = n * 1000000 / 1000000} {y = n} (omega arith),
  ap pos {x = n * 1000000000 / 1000000000} {y = n} (omega arith),
)
count_lem (negsuc n) = (
  div-neg_ℕ ((n + 1) * 1000) 1000 (omega arith)
      ∙ ap neg_ℕ {x = (n + 1) * 1000 / 1000} {y = suc n} (omega arith),
  div-neg_ℕ ((n + 1) * 1000000) 1000000 (omega arith)
      ∙ ap neg_ℕ {x = (n + 1) * 1000000 / 1000000} {y = suc n} (omega arith),
  div-neg_ℕ ((n + 1) * 1000000000) 1000000000 (omega arith)
      ∙ ap neg_ℕ {x = (n + 1) * 1000000000 / 1000000000} {y = suc n} (omega arith),
)
