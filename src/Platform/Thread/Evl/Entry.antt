-- ===== src/Platform/Thread/Evl/Entry.antt =====
-- What a thread of include/corerat/platform/evl/threading_impl.hpp does: its name for the EVL core.
use core_ra_t.Base.{
  ℕ, ◌<◌, ◌^◌, ◌≡◌, ◌≢◌, refl, sym, ap, ◌∙◌, List, ◌∷◌, ◌++◌, arith, take, take_all, length-take,
  length-append,
}
use core_ra_t.Base.Text.{
  codes, decimal, is_digit, decimal-IsNumeral, digits, digits-decimal, length-decimal,
  split_last_numeral,
}
use core_ra_t.Platform.Thread.{ThreadConfig}
use core_ra_t.Platform.Thread.Evl.{base_name, thread_name}

front_of : ThreadConfig → List ℕ
front_of config = codes "corerat-" ++ take 40 (base_name config.name)

-- The buffer holds the whole name.
thread_name-whole :
    (config : ThreadConfig) (tid : ℕ)
    → tid < 2 ^ 31
    → thread_name config tid ≡ front_of config ++ (b':' ∷ decimal tid)
unfolding thread_name front_of
thread_name-whole config tid h =
    take_all 63 (codes "corerat-" ++ (take 40 (base_name config.name) ++ (b':' ∷ decimal tid))) (
      omega (
        arith,
        length-append (take 40 (base_name config.name)) (b':' ∷ decimal tid),
        length-take 40 (base_name config.name),
        length-decimal 9 tid (omega (arith, h)),
      ))

same_id :
    (config config' : ThreadConfig) (tid tid' : ℕ)
    → tid < 2 ^ 31
    → tid' < 2 ^ 31
    → thread_name config tid ≡ thread_name config' tid'
    → tid ≡ tid'
unfolding is_digit
same_id config config' tid tid' h h' e =
    let here = split_last_numeral b':' (front_of config) (decimal-IsNumeral tid) refl in
    let there = split_last_numeral b':' (front_of config') (decimal-IsNumeral tid') refl in
    let same = sym (thread_name-whole config tid h) ∙ e ∙ thread_name-whole config' tid' h' in
    let numerals : decimal tid ≡ decimal tid' = cc (here, there, same) in
    sym (digits-decimal tid) ∙ ap (digits 0) numerals ∙ digits-decimal tid'

-- Two threads with different ids never ask the EVL core for the same name, whatever their configured
-- names are, also where these are cut to 40 characters: the buffer never cuts the id.
pub thread_name-distinct :
    (config config' : ThreadConfig) (tid tid' : ℕ)
    → tid < 2 ^ 31
    → tid' < 2 ^ 31
    → tid ≢ tid'
    → thread_name config tid ≢ thread_name config' tid'
thread_name-distinct config config' tid tid' h h' ne e = ne (same_id config config' tid tid' h h' e)
