-- ===== src/Mailbox/Name.antt =====
-- The name that `create_backend_config` of include/corerat/ipc/mailbox.hpp gives a mailbox: `mailbox_`
-- and the digits of its id. Characters are their codes.
use core_ra_t.Base.{
  ℕ, zero, suc, ◌+◌, ◌-◌, ◌*◌, ◌/◌, ◌%◌, ◌^◌, ◌<◌, ◌≤◌, ◌≡◌, ◌≢◌, refl, sym, ap, ◌∙◌, arith, List,
  [], ◌∷◌, ◌++◌, drop, append-nil, append_assoc, length, length-append, ltb, ◌==◌, if◌then◌else◌,
}

-- The loop that fills `digits`, least significant digit first, on fuel.
unfoldable pub digit_loop : ℕ → ℕ → List ℕ
digit_loop zero v = []
digit_loop (suc fuel) v =
    let rest = digit_loop fuel (v / 10) in if ltb 0 v then (48 + v % 10) ∷ rest else []

-- The digits of a `uint32_t`, for which ten rounds are enough.
unfoldable pub digits : ℕ → List ℕ
digits v = if v == 0 then 48 ∷ [] else digit_loop 10 v

-- The loop that appends them, from the last.
unfoldable pub push_back_all : List ℕ → List ℕ → List ℕ
push_back_all name [] = name
push_back_all name (d ∷ ds) = push_back_all name ds ++ (d ∷ [])

-- The codes of `mailbox_`.
abbrev pub name_prefix : List ℕ
name_prefix = 109 ∷ 97 ∷ 105 ∷ 108 ∷ 98 ∷ 111 ∷ 120 ∷ 95 ∷ []

abbrev pub mailbox_name : ℕ → List ℕ
mailbox_name id = push_back_all name_prefix (digits id)

-- The number that digits stand for, least significant first.
unfoldable pub value : List ℕ → ℕ
value [] = 0
value (d ∷ ds) = d - 48 + 10 * value ds

digit_loop-value : (fuel v : ℕ) → v < 10 ^ fuel → value (digit_loop fuel v) ≡ v
unfolding digit_loop value
digit_loop-value zero v h = omega (arith, h)
digit_loop-value (suc fuel) v h = ground (arith, digit_loop-value fuel (v / 10) (omega (arith, h)))

digit_loop-length : (fuel v : ℕ) → length (digit_loop fuel v) ≤ fuel
unfolding digit_loop
digit_loop-length zero v = omega (arith)
digit_loop-length (suc fuel) v = ground (arith, digit_loop-length fuel (v / 10))

push_back_all-length : (name ds : List ℕ) → length (push_back_all name ds) ≡ length name + length ds
unfolding push_back_all
push_back_all-length name [] = omega (arith)
push_back_all-length name (d ∷ ds) =
    omega (arith, push_back_all-length name ds, length-append (push_back_all name ds) (d ∷ []))

-- The number that a decimal numeral stands for, after `acc`.
decode : ℕ → List ℕ → ℕ
decode acc [] = acc
decode acc (c ∷ cs) = decode (acc * 10 + (c - 48)) cs

decode-append :
    (acc : ℕ) (cs : List ℕ) (d : ℕ) → decode acc (cs ++ (d ∷ [])) ≡ decode acc cs * 10 + (d - 48)
unfolding decode
decode-append acc [] d = refl
decode-append acc (c ∷ cs) d = decode-append (acc * 10 + (c - 48)) cs d

decode-push_back_all : (ds : List ℕ) → decode 0 (push_back_all [] ds) ≡ value ds
unfolding push_back_all value decode
decode-push_back_all [] = refl
decode-push_back_all (d ∷ ds) =
    omega (arith, decode-append 0 (push_back_all [] ds) d, decode-push_back_all ds)

push_back_all_lem : (name ds : List ℕ) → push_back_all name ds ≡ name ++ push_back_all [] ds
unfolding push_back_all
push_back_all_lem name [] = sym (append-nil name)
push_back_all_lem name (d ∷ ds) =
    ap (λ x. x ++ (d ∷ [])) (push_back_all_lem name ds)
    ∙ append_assoc name (push_back_all [] ds) (d ∷ [])

digits-value : (v : ℕ) → v < 2 ^ 32 → value (digits v) ≡ v
unfolding digits value
digits-value v h = ground (arith, digit_loop-value 10 v (omega (arith, h)))

-- The digits of a 32-bit id fit the array of 11 that they are written to, and the name of 8 more
-- characters fits a string of 32.
pub mailbox_name-bound : (id : ℕ) → (length (digits id) ≤ 10) × (length (mailbox_name id) ≤ 18)
unfolding digits
mailbox_name-bound id =
    let short : length (digits id) ≤ 10 = ground (arith, digit_loop-length 10 id) in
    (short, omega (arith, short, push_back_all-length name_prefix (digits id)))

mailbox_name-id : (a b : ℕ) → a < 2 ^ 32 → b < 2 ^ 32 → mailbox_name a ≡ mailbox_name b → a ≡ b
mailbox_name-id a b ha hb e =
    let numeral = λ (v : ℕ). push_back_all [] (digits v) in
    let same : name_prefix ++ numeral a ≡ name_prefix ++ numeral b =
      sym (push_back_all_lem name_prefix (digits a))
      ∙ e
      ∙ push_back_all_lem name_prefix (digits b) in
    let tails : numeral a ≡ numeral b = ap (drop 8) same in
    sym (digits-value a ha)
    ∙ sym (decode-push_back_all (digits a))
    ∙ ap (decode 0) tails
    ∙ decode-push_back_all (digits b)
    ∙ digits-value b hb

-- Mailboxes with different ids have different names.
pub mailbox_name-injective :
    (a b : ℕ) → a < 2 ^ 32 → b < 2 ^ 32 → a ≢ b → mailbox_name a ≢ mailbox_name b
mailbox_name-injective a b ha hb h e = h (mailbox_name-id a b ha hb e)
