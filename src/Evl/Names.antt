-- ===== src/Evl/Names.antt =====
-- The names that include/corerat/ipc/evl/evl_backend.hpp gives to what a mailbox shares with the system. A
-- mailbox in another process finds it by them.
use core_ra_t.Base.{
  ℕ, ◌^◌, ◌<◌, ◌≤◌, ◌≡◌, ◌≢◌, refl, sym, ap, ◌∙◌, false, List, [], ◌∷◌, ◌++◌, arith, take, take_all,
  length, length-append, append_assoc,
}
use core_ra_t.Base.Text.{
  codes, decimal, is_digit, decimal-IsNumeral, digits, digits-decimal, length-decimal,
  split_last_numeral,
}

-- `std::snprintf` of a prefix and an id into 64 characters, the last of which is the terminator.
unfoldable pub evl_name : List ℕ → ℕ → List ℕ
evl_name prefix id = take 63 (prefix ++ decimal id)

abbrev pub shm_name : ℕ → List ℕ
shm_name id = evl_name (codes "/corerat_mbx_") id

abbrev pub mutex_name : ℕ → List ℕ
mutex_name id = evl_name (codes "corerat-ring-mtx-") id

abbrev pub event_name : ℕ → List ℕ
event_name id = evl_name (codes "corerat-ring-evt-") id

abbrev pub xbuf_name : ℕ → List ℕ
xbuf_name id = evl_name (codes "corerat-xbuf-") id

evl_name-whole :
    (front : List ℕ) (c id : ℕ)
    → length front ≤ 50
    → id < 2 ^ 32
    → evl_name (front ++ (c ∷ [])) id ≡ front ++ (c ∷ decimal id)
unfolding evl_name
evl_name-whole front c id short h =
    ap (take 63) (append_assoc front (c ∷ []) (decimal id))
    ∙ take_all 63 (front ++ (c ∷ decimal id)) (
        omega (
          arith,
          short,
          length-append front (c ∷ decimal id),
          length-decimal 9 id (omega (arith, h)),
        ))

evl_name-distinct :
    (front : List ℕ) (c id id' : ℕ)
    → is_digit c ≡ false
    → length front ≤ 50
    → id < 2 ^ 32
    → id' < 2 ^ 32
    → id ≢ id'
    → evl_name (front ++ (c ∷ [])) id ≢ evl_name (front ++ (c ∷ [])) id'
evl_name-distinct front c id id' other short h h' ne e =
    let here = split_last_numeral c front (decimal-IsNumeral id) other in
    let there = split_last_numeral c front (decimal-IsNumeral id') other in
    let same = sym (evl_name-whole front c id short h) ∙ e ∙ evl_name-whole front c id' short h' in
    let numerals : decimal id ≡ decimal id' = cc (here, there, same) in
    ne (sym (digits-decimal id) ∙ ap (digits 0) numerals ∙ digits-decimal id')

-- Mailboxes with different ids of 32 bits share neither the name of their memory, nor that of their mutex,
-- their event or their cross-buffer: no name is cut.
pub names-distinct :
    (id id' : ℕ)
    → id < 2 ^ 32
    → id' < 2 ^ 32
    → id ≢ id'
    → (shm_name id ≢ shm_name id')
      × (mutex_name id ≢ mutex_name id')
      × (event_name id ≢ event_name id')
      × (xbuf_name id ≢ xbuf_name id')
unfolding is_digit
names-distinct id id' h h' ne = (
  evl_name-distinct (codes "/corerat_mbx") b'_' id id' refl (omega arith) h h' ne,
  evl_name-distinct (codes "corerat-ring-mtx") b'-' id id' refl (omega arith) h h' ne,
  evl_name-distinct (codes "corerat-ring-evt") b'-' id id' refl (omega arith) h h' ne,
  evl_name-distinct (codes "corerat-xbuf") b'-' id id' refl (omega arith) h h' ne,
)
