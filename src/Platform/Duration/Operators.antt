-- ===== src/Platform/Duration/Operators.antt =====
-- The other operators of include/corerat/platform/duration.hpp. A division by zero, which C++ leaves
-- undefined, is `none`.
use native.Mathlib.Nat.{div-add-mod}
use core_ra_t.Base.{
  ℕ, zero, suc, ◌+◌, ◌-◌, ◌*◌, ◌/◌, ◌%◌, ◌^◌, ◌≡◌, ◌≢◌, ◌∙◌, refl, ap, Option, none, some, arith,
  ltb, if◌then◌else◌,
}
use core_ra_t.Base.Int.{ℤ, pos, negsuc, ltb_ℤ}
use core_ra_t.Platform.Duration.{
  Duration, neg_ℕ, neg_ℤ, add_ℤ, scale, add-neg_ℕ, div_trunc, mod_trunc, plus, minus, nanoseconds,
  microseconds, milliseconds, seconds,
}

unfoldable pub mul_ℤ : ℤ → ℤ → ℤ
mul_ℤ a (pos n) = scale a n
mul_ℤ a (negsuc n) = neg_ℤ (scale a (n + 1))

unfoldable pub div_ℤ : ℤ → ℤ → Option ℤ
div_ℤ a (pos zero) = none
div_ℤ a (pos (suc n)) = some (div_trunc a (suc n))
div_ℤ a (negsuc n) = some (neg_ℤ (div_trunc a (n + 1)))

-- A remainder has the sign of the dividend.
unfoldable pub mod_ℤ : ℤ → ℤ → Option ℤ
mod_ℤ a (pos zero) = none
mod_ℤ a (pos (suc n)) = some (mod_trunc a (suc n))
mod_ℤ a (negsuc n) = some (mod_trunc a (n + 1))

abbrev pub of_option : Option ℤ → Option Duration
of_option none = none
of_option (some n) = some (record { ns = n })

abbrev pub add_to : Duration → Duration → Duration
add_to d other = plus d other

abbrev pub subtract_from : Duration → Duration → Duration
subtract_from d other = minus d other

abbrev pub times : Duration → ℤ → Duration
times d factor = record { ns = mul_ℤ d.ns factor }

abbrev pub divided_by : Duration → ℤ → Option Duration
divided_by d divisor = of_option (div_ℤ d.ns divisor)

abbrev pub ratio : Duration → Duration → Option ℤ
ratio d other = div_ℤ d.ns other.ns

abbrev pub remainder : Duration → Duration → Option Duration
remainder d other = of_option (mod_ℤ d.ns other.ns)

pub data Comparison : Type 0 where
  less equal greater : Comparison

unfoldable pub compare_durations : Duration → Duration → Comparison
compare_durations a b = if ltb_ℤ a.ns b.ns then less else if ltb_ℤ b.ns a.ns then greater else equal

-- The literals take an unsigned number of 64 bits and cast it to a signed one.
unfoldable pub signed_literal : ℕ → ℤ
signed_literal n = if ltb n (2 ^ 63) then pos n else negsuc (2 ^ 64 - 1 - n)

abbrev pub literal_ns : ℕ → Duration
literal_ns v = nanoseconds (signed_literal v)

abbrev pub literal_us : ℕ → Duration
literal_us v = microseconds (signed_literal v)

abbrev pub literal_ms : ℕ → Duration
literal_ms v = milliseconds (signed_literal v)

abbrev pub literal_s : ℕ → Duration
literal_s v = seconds (signed_literal v)

-- The counts of the chrono durations.
abbrev pub to_chrono_us : Duration → ℤ
to_chrono_us d = div_trunc d.ns 1000

abbrev pub to_chrono_ms : Duration → ℤ
to_chrono_ms d = div_trunc d.ns 1000000

neg-neg_ℕ : (n : ℕ) → neg_ℤ (neg_ℕ n) ≡ pos n
unfolding neg_ℕ neg_ℤ
neg-neg_ℕ zero = refl
neg-neg_ℕ (suc n) = ap pos {x = n + 1} {y = suc n} (omega arith)

mul-neg_pos : (k q : ℕ) → mul_ℤ (pos k) (neg_ℕ q) ≡ neg_ℕ (k * q)
unfolding mul_ℤ scale neg_ℕ neg_ℤ
mul-neg_pos k zero =
    ap pos {x = k * 0} {y = 0} (omega arith) ∙ ap neg_ℕ {x = 0} {y = k * 0} (omega arith)
mul-neg_pos k (suc q) = ap (λ n. neg_ℕ (k * n)) {x = q + 1} {y = suc q} (omega arith)

mul-neg_neg : (k q : ℕ) → mul_ℤ (negsuc k) (neg_ℕ q) ≡ pos ((k + 1) * q)
unfolding mul_ℤ scale neg_ℤ neg_ℕ
mul-neg_neg k zero =
    ap neg_ℕ {x = (k + 1) * 0} {y = 0} (omega arith)
    ∙ ap pos {x = 0} {y = (k + 1) * 0} (omega arith)
mul-neg_neg k (suc q) =
    neg-neg_ℕ ((k + 1) * (q + 1))
    ∙ ap (λ n. pos ((k + 1) * n)) {x = q + 1} {y = suc q} (omega arith)

-- The quotient times the divisor and the remainder make up the dividend, whatever the signs are.
abbrev pub MakesUp : ℤ → ℤ → Type 0
MakesUp a b =
    (q : ℤ) × (r : ℤ) × (div_ℤ a b ≡ some q) × (mod_ℤ a b ≡ some r) × (add_ℤ (mul_ℤ b q) r ≡ a)

back : (n : ℕ) → neg_ℕ (n + 1) ≡ negsuc n
unfolding neg_ℕ
back n = ap neg_ℕ {x = n + 1} {y = suc n} (omega arith)

makes_up : (a b : ℤ) → b ≢ pos 0 → MakesUp a b
unfolding div_ℤ mod_ℤ mul_ℤ div_trunc mod_trunc scale add_ℤ neg_ℤ
makes_up a (pos zero) ne = absurd (ne refl)
makes_up (pos n) (pos (suc k)) ne =
    (pos (n / suc k), pos (n % suc k), refl, refl, ap pos (div-add-mod n (suc k)))
makes_up (pos n) (negsuc k) ne = (
  neg_ℕ (n / (k + 1)),
  pos (n % (k + 1)),
  refl,
  refl,
  ap (λ z. add_ℤ z (pos (n % (k + 1)))) (mul-neg_neg k (n / (k + 1)))
      ∙ ap pos (div-add-mod n (k + 1)),
)
makes_up (negsuc n) (pos (suc k)) ne = (
  neg_ℕ ((n + 1) / suc k),
  neg_ℕ ((n + 1) % suc k),
  refl,
  refl,
  ap (λ z. add_ℤ z (neg_ℕ ((n + 1) % suc k))) (mul-neg_pos (suc k) ((n + 1) / suc k))
      ∙ add-neg_ℕ (suc k * ((n + 1) / suc k)) ((n + 1) % suc k)
      ∙ ap neg_ℕ (div-add-mod (n + 1) (suc k))
      ∙ back n,
)
makes_up (negsuc n) (negsuc k) ne = (
  pos ((n + 1) / (k + 1)),
  neg_ℕ ((n + 1) % (k + 1)),
  ap some (neg-neg_ℕ ((n + 1) / (k + 1))),
  refl,
  add-neg_ℕ ((k + 1) * ((n + 1) / (k + 1))) ((n + 1) % (k + 1))
      ∙ ap neg_ℕ (div-add-mod (n + 1) (k + 1))
      ∙ back n,
)

-- A duration is its ratio to another, which is not zero, times this one, and the remainder.
pub ratio-remainder :
    (d other : Duration)
    → other.ns ≢ pos 0
    → (q : ℤ) × (r : Duration) × (ratio d other ≡ some q)
      × (remainder d other ≡ some r)
      × (plus (times other q) r ≡ d)
ratio-remainder d other ne =
    let (q, r, quotient, rest, sum) = makes_up d.ns other.ns ne in
    (q, record { ns = r }, quotient, ap of_option rest, ap (λ n. record { ns = n }) sum)
