-- ===== src/Base/Bytes.antt =====
-- Flat memory: a list of bytes, copied into and out of at an offset, as `memcpy` does.
use core_ra_t.Base.{
  ℕ, zero, suc, ◌+◌, ◌<◌, ◌≤◌, ◌≡◌, refl, ap, ◌∙◌, ◌⊎◌, inr, List, [], ◌∷◌, arith, get_or, length,
}

-- `n` bytes from offset `o` on.
abbrev pub read_bytes : List ℕ → ℕ → ℕ → List ℕ
read_bytes mem o zero = []
read_bytes mem o (suc n) = get_or mem o 0 ∷ read_bytes mem (suc o) n

-- `mem` with `bytes` written from offset `o` on; what lies past its end is dropped.
pub write_bytes : List ℕ → ℕ → List ℕ → List ℕ
write_bytes [] o bytes = []
write_bytes (x ∷ mem) (suc o) bytes = x ∷ write_bytes mem o bytes
write_bytes (x ∷ mem) zero [] = x ∷ mem
write_bytes (x ∷ mem) zero (b ∷ bytes) = b ∷ write_bytes mem zero bytes

pub length-write_bytes :
    (mem : List ℕ) (o : ℕ) (bytes : List ℕ) → length (write_bytes mem o bytes) ≡ length mem
unfolding write_bytes
length-write_bytes [] o bytes = refl
length-write_bytes (x ∷ mem) (suc o) bytes = ap suc (length-write_bytes mem o bytes)
length-write_bytes (x ∷ mem) zero [] = refl
length-write_bytes (x ∷ mem) zero (b ∷ bytes) = ap suc (length-write_bytes mem zero bytes)

-- A byte outside the range that is written stays.
pub get_or-write_bytes_out :
    (mem : List ℕ) (o : ℕ) (bytes : List ℕ) (i : ℕ)
    → (i < o) ⊎ (o + length bytes ≤ i)
    → get_or (write_bytes mem o bytes) i 0 ≡ get_or mem i 0
unfolding write_bytes
get_or-write_bytes_out [] o bytes i h = refl
get_or-write_bytes_out (x ∷ mem) (suc o) bytes zero h = refl
get_or-write_bytes_out (x ∷ mem) (suc o) bytes (suc i) h =
    get_or-write_bytes_out mem o bytes i (omega arith)
get_or-write_bytes_out (x ∷ mem) zero [] i h = refl
get_or-write_bytes_out (x ∷ mem) zero (b ∷ bytes) zero h = absurd (omega arith)
get_or-write_bytes_out (x ∷ mem) zero (b ∷ bytes) (suc i) h =
    get_or-write_bytes_out mem zero bytes i (inr (omega arith))

-- A byte inside it is the byte written there.
pub get_or-write_bytes_in :
    (mem : List ℕ) (o : ℕ) (bytes : List ℕ) (i : ℕ)
    → i < length bytes
    → o + i < length mem
    → get_or (write_bytes mem o bytes) (o + i) 0 ≡ get_or bytes i 0
unfolding write_bytes
get_or-write_bytes_in [] o bytes i h lt = absurd (omega arith)
get_or-write_bytes_in (x ∷ mem) (suc o) bytes i h lt =
    ap (λ k. get_or (x ∷ write_bytes mem o bytes) k 0) {x = suc o + i} {y = suc (o + i)}
      (omega arith)
    ∙ get_or-write_bytes_in mem o bytes i h (omega arith)
get_or-write_bytes_in (x ∷ mem) zero [] i h lt = absurd (omega arith)
get_or-write_bytes_in (x ∷ mem) zero (b ∷ bytes) zero h lt =
    ap (λ k. get_or (b ∷ write_bytes mem zero bytes) k 0) {x = zero + zero} {y = zero} (omega arith)
get_or-write_bytes_in (x ∷ mem) zero (b ∷ bytes) (suc i) h lt =
    ap (λ k. get_or (b ∷ write_bytes mem zero bytes) k 0) {x = zero + suc i} {y = suc (zero + i)}
      (omega arith)
    ∙ get_or-write_bytes_in mem zero bytes i (omega arith) (omega arith)

pub read_bytes_of_get_or :
    (mem : List ℕ) (o : ℕ) (bytes : List ℕ)
    → ((i : ℕ) → i < length bytes → get_or mem (o + i) 0 ≡ get_or bytes i 0)
    → read_bytes mem o (length bytes) ≡ bytes
read_bytes_of_get_or mem o [] h = refl
read_bytes_of_get_or mem o (b ∷ bytes) h =
    ap (λ x. x ∷ read_bytes mem (suc o) (length bytes))
      (ap (λ k. get_or mem k 0) (omega arith) ∙ h 0 (omega arith))
    ∙ ap (λ r. b ∷ r)
        (read_bytes_of_get_or mem (suc o) bytes
          (λ i lt. ap (λ k. get_or mem k 0) (omega arith) ∙ h (suc i) (omega arith)))

-- What is written is read back.
pub read-write_bytes :
    (mem : List ℕ) (o : ℕ) (bytes : List ℕ)
    → o + length bytes ≤ length mem
    → read_bytes (write_bytes mem o bytes) o (length bytes) ≡ bytes
read-write_bytes mem o bytes h =
    read_bytes_of_get_or (write_bytes mem o bytes) o bytes
      (λ i lt. get_or-write_bytes_in mem o bytes i lt (omega arith))

-- Bytes that agree at every offset of a range read alike.
pub read_bytes-cong :
    (m n : List ℕ) (o k : ℕ)
    → ((i : ℕ) → o ≤ i → i < o + k → get_or m i 0 ≡ get_or n i 0)
    → read_bytes m o k ≡ read_bytes n o k
read_bytes-cong m n o zero h = refl
read_bytes-cong m n o (suc k) h =
    ap (λ x. x ∷ read_bytes m (suc o) k) (h o (omega arith) (omega arith))
    ∙ ap (λ r. get_or n o 0 ∷ r)
        (read_bytes-cong m n (suc o) k (λ i a b. h i (omega arith) (omega arith)))

pub read-write_bytes_out :
    (mem : List ℕ) (o : ℕ) (bytes : List ℕ) (p k : ℕ)
    → (p + k ≤ o) ⊎ (o + length bytes ≤ p)
    → read_bytes (write_bytes mem o bytes) p k ≡ read_bytes mem p k
read-write_bytes_out mem o bytes p k h =
    read_bytes-cong (write_bytes mem o bytes) mem p k
      (λ i a b. get_or-write_bytes_out mem o bytes i (omega arith))

pub length-read_bytes : (mem : List ℕ) (o n : ℕ) → length (read_bytes mem o n) ≡ n
length-read_bytes mem o zero = refl
length-read_bytes mem o (suc n) = ap suc (length-read_bytes mem (suc o) n)
