-- ===== src/Log/Logger/Order.antt =====
-- The invariant of the log ring under interleaving: what is dispatched is what was committed, in
-- order, and the slots between `tail_` and `head_` hold what is committed and not yet taken.
use native.Mathlib.Nat.{mod-add-mod, mod-eq_of_lt, mod-eq-sub-mod, mod-mod_of_dvd, mod-lt}
use Prim.Native.Nat.{◌∣◌}
use core_ra_t.Base.{
  ℕ, ◌+◌, ◌-◌, ◌%◌, ◌<◌, ◌≤◌, ◌≡◌, ◌≢◌, sym, ap, subst, ◌∙◌, false, List, arith, get_or, set,
  length, length-set, get_or-set_self, get_or-set_ne, dec_lt,
}
use core_ra_t.Log.Logger.{RtLogEntry, no_entry, size_mod, is_full, fill}
use core_ra_t.Log.Logger.Concurrent.{
  Writer, outside, passed, filled, Drain, looping, copied, stored, ended, System,
}

abbrev pub in_flight : Drain → ℕ
in_flight (stored f e) = 1
in_flight (looping f) = 0
in_flight (copied f e) = 0
in_flight ended = 0

-- The entries that the drain thread has taken out of the ring.
abbrev pub popped : System → ℕ
popped s = length s.dispatched + in_flight s.drain

abbrev pub entry_at : List RtLogEntry → ℕ → RtLogEntry
entry_at es i = get_or es i no_entry

abbrev pub ReaderOk : Drain → List RtLogEntry → ℕ → Type 0
ReaderOk (looping f) es n = Unit {0}
ReaderOk (copied f e) es n = (n < length es) × (e ≡ entry_at es n)
ReaderOk (stored f e) es n = (n < length es) × (e ≡ entry_at es n)
ReaderOk ended es n = Unit {0}

abbrev pub WriterOk : Writer → List RtLogEntry → ℕ → ℕ → ℕ → Type 0
WriterOk outside ring size h p = Unit {0}
WriterOk (passed e) ring size h p = h < p + size
WriterOk (filled e) ring size h p = (h < p + size) × (entry_at ring (h % size) ≡ e)

pub record Inv (s : System) : Type 0 where
  pub ring_length : length s.logger.ring ≡ s.logger.ring_size
  pub head_count : s.logger.head ≡ length s.committed % size_mod
  pub tail_count : s.logger.tail ≡ popped s % size_mod
  pub ordered : popped s ≤ length s.committed
  pub bounded : length s.committed ≤ popped s + s.logger.ring_size
  pub window :
      (i : ℕ)
      → popped s ≤ i
      → i < length s.committed
      → entry_at s.logger.ring (i % s.logger.ring_size) ≡ entry_at s.committed i
  pub past : (i : ℕ) → i < length s.dispatched → entry_at s.dispatched i ≡ entry_at s.committed i
  pub reader : ReaderOk s.drain s.committed (length s.dispatched)
  pub writer : WriterOk s.writer s.logger.ring s.logger.ring_size (length s.committed) (popped s)

-- Indices less than a ring apart have different slots.
mod_ne : (i k r : ℕ) → 0 < k → k < r → i % r ≢ (i + k) % r
mod_ne i k r pos small e = elim (dec_lt (i % r + k) r) [
  | yes p ↦ omega (arith, e ∙ sym (mod-add-mod i r k), mod-eq_of_lt p)
  | no p ↦ omega (
    arith,
    e ∙ sym (mod-add-mod i r k),
    mod-eq-sub-mod {n = i % r + k} {m = r} (omega arith),
    mod-eq_of_lt {n = i % r + k - r} {m = r} (omega (arith, mod-lt i {m = r} (omega arith))),
    mod-lt i {m = r} (omega arith),
  )
]

-- The capacity is a power of two below 2 ^ 64, so that the counters wrap at a multiple of it.
pub record IsRingSize (r : ℕ) : Type 0 where
  pub positive : 0 < r
  pub small : r < size_mod
  pub divides : r ∣ size_mod

module _ (s : System) (inv : Inv s) (size : IsRingSize s.logger.ring_size) where
  pub head_slot : s.logger.head % s.logger.ring_size ≡ length s.committed % s.logger.ring_size
  head_slot =
      ap (λ k. k % s.logger.ring_size) inv.head_count
      ∙ mod-mod_of_dvd s.logger.ring_size (length s.committed) size.divides

  pub tail_slot : s.logger.tail % s.logger.ring_size ≡ popped s % s.logger.ring_size
  tail_slot =
      ap (λ k. k % s.logger.ring_size) inv.tail_count
      ∙ mod-mod_of_dvd s.logger.ring_size (popped s) size.divides

  slot_of_head : length s.committed % s.logger.ring_size < length s.logger.ring
  slot_of_head =
      omega
        (arith, inv.ring_length, mod-lt (length s.committed) {m = s.logger.ring_size} size.positive)

  pub checks-Inv :
      (e : RtLogEntry) → is_full s.logger ≡ false → Inv (record s { writer = passed e })
  unfolding is_full
  checks-Inv e room = record {
    ring_length = inv.ring_length;
    head_count = inv.head_count;
    tail_count = inv.tail_count;
    ordered = inv.ordered;
    bounded = inv.bounded;
    window = inv.window;
    past = inv.past;
    reader = inv.reader;
    writer =
        ground (arith, room, inv.head_count, inv.tail_count, inv.ordered, inv.bounded, size.small);
  }

  window_fill :
      (e : RtLogEntry) (i : ℕ)
      → popped s ≤ i
      → i < length s.committed
      → length s.committed < popped s + s.logger.ring_size
      → entry_at
          (set s.logger.ring (length s.committed % s.logger.ring_size) e)
          (i % s.logger.ring_size)
        ≡ entry_at s.committed i
  window_fill e i lo hi room =
      get_or-set_ne s.logger.ring (length s.committed % s.logger.ring_size) (i % s.logger.ring_size)
        e no_entry
        (λ same.
          mod_ne i (length s.committed - i) s.logger.ring_size (omega arith) (omega arith)
            (sym same ∙ ap (λ k. k % s.logger.ring_size) (omega arith)))
      ∙ inv.window i lo hi

  pub fills-Inv :
      (e : RtLogEntry)
      → s.writer ≡ passed e
      → Inv (record s { writer = filled e; logger = fill s.logger e })
  unfolding fill
  fills-Inv e w =
      let room : length s.committed < popped s + s.logger.ring_size =
        subst (λ x. WriterOk x s.logger.ring s.logger.ring_size (length s.committed) (popped s)) w
          inv.writer in
      record {
        ring_length = length-set s.logger.ring _ e ∙ inv.ring_length;
        head_count = inv.head_count;
        tail_count = inv.tail_count;
        ordered = inv.ordered;
        bounded = inv.bounded;
        window = λ i lo hi.
            ap (λ k. entry_at (set s.logger.ring k e) (i % s.logger.ring_size)) head_slot
            ∙ window_fill e i lo hi room;
        past = inv.past;
        reader = inv.reader;
        writer = (
          room,
          ap (λ k. entry_at (set s.logger.ring k e) (length s.committed % s.logger.ring_size))
                head_slot
              ∙ get_or-set_self s.logger.ring _ e no_entry slot_of_head,
        );
      }
