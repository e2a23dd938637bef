-- ===== src/Base/Text.antt =====
-- Texts as lists of character codes, and the functions of the C++ library on them that main uses.
use Prim.Native.Char.{code}
use Prim.Native.String.{String}
use core_ra_t.Base.{
  ℕ, zero, suc, ◌+◌, ◌-◌, ◌*◌, ◌/◌, ◌%◌, ◌^◌, ◌<◌, ◌≤◌, ◌≡◌, Bool, true, false, ◌&&◌, ◌||◌, Option,
  none, some, List, [], ◌∷◌, ◌++◌, arith, ltb, leb, ◌==◌, if◌then◌else◌, if-elim, ltb→lt, length,
  length-append,
}

-- The codes of a text: its bytes, if it is ASCII. `String` has its own `[]` and `∷`.
abbrev pub codes : String → List ℕ
codes String.[] = []
codes (String.◌∷◌ c s) = code c ∷ codes s

unfoldable pub text_eq : List ℕ → List ℕ → Bool
text_eq [] [] = true
text_eq [] (d ∷ t) = false
text_eq (c ∷ s) [] = false
text_eq (c ∷ s) (d ∷ t) = let rest = text_eq s t in if c == d then rest else false

unfoldable pub is_digit : ℕ → Bool
is_digit c = leb b'0' c && leb c b'9'

-- The number that the digits at the front spell, after the digits that spell `n`.
unfoldable pub digits : ℕ → List ℕ → ℕ
digits n [] = n
digits n (c ∷ s) = if is_digit c then digits (n * 10 + (c - b'0')) s else n

-- `std::stoul` in base 10: `none` is an exception, for no digit or a number of more than 64 bits.
unfoldable pub magnitude : Bool → List ℕ → Option ℕ
magnitude negative [] = none
magnitude negative (c ∷ s) =
    let n = digits 0 (c ∷ s) in
    if is_digit c
    then (if ltb n (2 ^ 64) then some (if negative then (2 ^ 64 - n) % 2 ^ 64 else n) else none)
    else none

unfoldable pub signed : List ℕ → Option ℕ
signed [] = none
signed (c ∷ s) =
    if c == b'+'
    then magnitude false s
    else if c == b'-'
    then magnitude true s
    else magnitude false (c ∷ s)

unfoldable pub is_space : ℕ → Bool
is_space c = (leb 9 c && leb c 13) || (c == 32)

unfoldable pub stoul : List ℕ → Option ℕ
stoul [] = none
stoul (c ∷ s) = let rest = stoul s in if is_space c then rest else signed (c ∷ s)

-- What stands before and after the first or the last `c`: `find`, `rfind` and the two `substr`.
unfoldable pub split_first : ℕ → List ℕ → Option (List ℕ × List ℕ)
split_first c [] = none
split_first c (x ∷ s) =
    let rest = split_first c s in
    if x == c
    then some ([], s)
    else elim rest [ some (before, after) ↦ some (x ∷ before, after) | none ↦ none ]

unfoldable pub split_last : ℕ → List ℕ → Option (List ℕ × List ℕ)
split_last c [] = none
split_last c (x ∷ s) = elim (split_last c s) [
  | some (before, after) ↦ some (x ∷ before, after)
  | none ↦ if x == c then some ([], s) else none
]

-- A number in decimal.
decimal_fuel : ℕ → ℕ → List ℕ
decimal_fuel zero n = []
decimal_fuel (suc fuel) n =
    let rest = decimal_fuel fuel (n / 10) in
    if ltb n 10 then (b'0' + n) ∷ [] else rest ++ ((b'0' + n % 10) ∷ [])

unfoldable pub decimal : ℕ → List ℕ
unfolding decimal_fuel
decimal n = decimal_fuel (suc n) n

-- A text of digits alone, one at least.
pub data IsNumeral : List ℕ → Type 0 where
  one : {c : ℕ} → b'0' ≤ c → c ≤ b'9' → IsNumeral (c ∷ [])
  cons : {c : ℕ} {s : List ℕ} → b'0' ≤ c → c ≤ b'9' → IsNumeral s → IsNumeral (c ∷ s)

IsNumeral-snoc :
    {s : List ℕ} {c : ℕ} → IsNumeral s → b'0' ≤ c → c ≤ b'9' → IsNumeral (s ++ (c ∷ []))
IsNumeral-snoc (one a b) h k = cons a b (one h k)
IsNumeral-snoc (cons a b p) h k = cons a b (IsNumeral-snoc p h k)

digits-snoc :
    {s : List ℕ} (n c : ℕ)
    → IsNumeral s
    → b'0' ≤ c
    → c ≤ b'9'
    → digits n (s ++ (c ∷ [])) ≡ digits n s * 10 + (c - b'0')
unfolding digits is_digit
digits-snoc n c (one a b) h k = ground (arith, a, b, h, k)
digits-snoc n c (cons {c = d} a b p) h k =
    ground (arith, a, b, digits-snoc (n * 10 + (d - b'0')) c p h k)

decimal_fuel-IsNumeral : (fuel n : ℕ) → n < fuel → IsNumeral (decimal_fuel fuel n)
unfolding decimal_fuel
decimal_fuel-IsNumeral zero n h = absurd (omega (arith, h))
decimal_fuel-IsNumeral (suc fuel) n h =
    if-elim IsNumeral (ltb n 10) (λ e. one (omega arith) (omega (arith, ltb→lt n 10 e)))
      (λ e.
        IsNumeral-snoc (decimal_fuel-IsNumeral fuel (n / 10) (ground (arith, e, h))) (omega arith)
          (omega arith))

digits-decimal_fuel : (fuel n : ℕ) → n < fuel → digits 0 (decimal_fuel fuel n) ≡ n
unfolding decimal_fuel digits is_digit
digits-decimal_fuel zero n h = absurd (omega (arith, h))
digits-decimal_fuel (suc fuel) n h =
    if-elim (λ s. digits 0 s ≡ n) (ltb n 10) (λ e. ground (arith, e))
      (λ e.
        let less : n / 10 < fuel = ground (arith, e, h) in
        let last =
          digits-snoc 0 (b'0' + n % 10) (decimal_fuel-IsNumeral fuel (n / 10) less) (omega arith)
            (omega arith) in
        let front = digits-decimal_fuel fuel (n / 10) less in omega (arith, last, front))

pub decimal-IsNumeral : (n : ℕ) → IsNumeral (decimal n)
unfolding decimal
decimal-IsNumeral n = decimal_fuel-IsNumeral (suc n) n (omega arith)

pub digits-decimal : (n : ℕ) → digits 0 (decimal n) ≡ n
unfolding decimal
digits-decimal n = digits-decimal_fuel (suc n) n (omega arith)

-- A numeral is read as what its digits spell, unless that needs more than 64 bits.
abbrev pub in_range : ℕ → Option ℕ
in_range n = if ltb n (2 ^ 64) then some n else none

magnitude_numeral :
    (c : ℕ) (s : List ℕ) (n : ℕ)
    → b'0' ≤ c
    → c ≤ b'9'
    → digits 0 (c ∷ s) ≡ n
    → stoul (c ∷ s) ≡ in_range n
unfolding stoul signed magnitude is_space is_digit
magnitude_numeral c s n a b e = ground (arith, a, b, e)

stoul_numeral : {s : List ℕ} (n : ℕ) → IsNumeral s → digits 0 s ≡ n → stoul s ≡ in_range n
stoul_numeral n (one a b) e = magnitude_numeral _ _ n a b e
stoul_numeral n (cons a b p) e = magnitude_numeral _ _ n a b e

pub stoul-decimal : (n : ℕ) → stoul (decimal n) ≡ in_range n
stoul-decimal n = stoul_numeral n (decimal-IsNumeral n) (digits-decimal n)

-- A character that is no digit is found right after the numeral, or right before it.
pub split_first_numeral :
    {s : List ℕ} (c : ℕ) (rest : List ℕ)
    → IsNumeral s
    → is_digit c ≡ false
    → split_first c (s ++ (c ∷ rest)) ≡ some (s, rest)
unfolding split_first is_digit
split_first_numeral c rest (one a b) h = ground (arith, a, b, h)
split_first_numeral c rest (cons a b p) h = ground (arith, a, b, h, split_first_numeral c rest p h)

split_last-none : {s : List ℕ} (c : ℕ) → IsNumeral s → is_digit c ≡ false → split_last c s ≡ none
unfolding split_last is_digit
split_last-none c (one a b) h = ground (arith, a, b, h)
split_last-none c (cons a b p) h = ground (arith, a, b, h, split_last-none c p h)

pub split_last_numeral :
    {s : List ℕ} (c : ℕ) (front : List ℕ)
    → IsNumeral s
    → is_digit c ≡ false
    → split_last c (front ++ (c ∷ s)) ≡ some (front, s)
unfolding split_last
split_last_numeral c [] p h = ground (arith, split_last-none c p h)
split_last_numeral c (x ∷ front) p h = ground (arith, split_last_numeral c front p h)

-- The powers of ten, and how many digits a number has.
abbrev pub pow10 : ℕ → ℕ
pow10 zero = 1
pow10 (suc k) = 10 * pow10 k

length-decimal_fuel : (k fuel n : ℕ) → n < pow10 (suc k) → length (decimal_fuel fuel n) ≤ suc k
unfolding decimal_fuel
length-decimal_fuel k zero n h = omega arith
length-decimal_fuel zero (suc fuel) n h = ground (arith, h)
length-decimal_fuel (suc k) (suc fuel) n h = ground (
  arith,
  length-decimal_fuel k fuel (n / 10) (omega (arith, h)),
  length-append (decimal_fuel fuel (n / 10)) ((b'0' + n % 10) ∷ []),
)

pub length-decimal : (k n : ℕ) → n < pow10 (suc k) → length (decimal n) ≤ suc k
unfolding decimal
length-decimal k n h = length-decimal_fuel k (suc n) n h
