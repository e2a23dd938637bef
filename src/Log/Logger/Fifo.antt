-- ===== src/Log/Logger/Fifo.antt =====
-- What the invariant says of every history of the log ring.
use core_ra_t.Base.{
  ℕ, zero, suc, ◌+◌, ◌-◌, ◌%◌, ◌≤◌, ◌≡◌, refl, sym, ap, subst, ◌∙◌, true, false, List, [], ◌∷◌,
  ◌++◌, arith, length, length-append,
}
use core_ra_t.Log.Logger.{
  RtLogEntry, no_entry, size_mod, is_full, fill, publish, is_empty, peek, advance,
}
use core_ra_t.Log.Logger.Concurrent.{
  outside, Drain, looping, copied, stored, ended, System, Step, drops, checks, fills, publishes,
  sleeps, copies, stores, dispatches, requests_stop, stops, ends, Reach, here, next,
}
use core_ra_t.Base.{length-replicate, eq_of_get_or, prefix_of_get_or}
use core_ra_t.Log.Level.{LogLevel}
use core_ra_t.Log.Logger.{init}
use core_ra_t.Log.Logger.Order.{Inv, IsRingSize, in_flight, popped}
use core_ra_t.Log.Logger.Preserve.{Step-Inv}

-- A new logger, its drain thread started.
abbrev pub started : ℕ → ℕ → ℕ → LogLevel → System
started ring_size max_msg_len source_id level = record {
  logger = record (init ring_size max_msg_len source_id level) { drain_running = true };
  writer = outside;
  drain = looping false;
  committed = [];
  dispatched = [];
}

Step-ring_size : {s t : System} → Step s t → t.logger.ring_size ≡ s.logger.ring_size
unfolding fill publish advance
Step-ring_size (drops s _ _) = refl
Step-ring_size (checks s e _ room) = refl
Step-ring_size (fills s e w) = refl
Step-ring_size (publishes s e w) = refl
Step-ring_size (sleeps s _ _) = refl
Step-ring_size (copies s f at e) = refl
Step-ring_size (stores s f e at) = refl
Step-ring_size (dispatches s f e at) = refl
Step-ring_size (requests_stop s) = refl
Step-ring_size (stops s at _) = refl
Step-ring_size (ends s at _) = refl

Reach-Inv :
    {s t : System}
    → Inv s
    → IsRingSize s.logger.ring_size
    → Reach s t
    → Inv t × IsRingSize t.logger.ring_size
Reach-Inv inv size here = (inv, size)
Reach-Inv inv size (next r st) =
    let (i, z) = Reach-Inv inv size r in
    (Step-Inv z st i, subst IsRingSize (sym (Step-ring_size st)) z)

module _ (ring_size max_msg_len source_id : ℕ) (level : LogLevel)
    (size : IsRingSize ring_size) where
  started-Inv : Inv (started ring_size max_msg_len source_id level)
  unfolding init
  started-Inv = record {
    ring_length = length-replicate ring_size no_entry;
    head_count = omega arith;
    tail_count = omega arith;
    ordered = omega arith;
    bounded = omega arith;
    window = λ i lo hi. absurd (omega arith);
    past = λ i lt. absurd (omega arith);
    reader = tt;
    writer = tt;
  }

  reached :
      (s : System)
      → Reach (started ring_size max_msg_len source_id level) s
      → Inv s × (s.logger.ring_size ≡ ring_size)
  unfolding init
  reached s r = ((Reach-Inv started-Inv size r).0, same r)
    where
      same :
          {t : System}
          → Reach (started ring_size max_msg_len source_id level) t
          → t.logger.ring_size ≡ ring_size
      same here = refl
      same (next q st) = Step-ring_size st ∙ same q

  -- However the committing threads and the drain thread interleave, what has been dispatched is what
  -- was committed into the ring, unaltered and in order, from the first entry on, and at most one
  -- more than the capacity of the ring is committed and not yet dispatched.
  pub dispatched-prefix :
      (s : System)
      → Reach (started ring_size max_msg_len source_id level) s
      → (rest : List RtLogEntry) × (s.committed ≡ s.dispatched ++ rest)
        × (length rest ≤ ring_size + 1)
  dispatched-prefix s run =
      let (inv, same) = reached s run in
      let (rest, e, len) =
        prefix_of_get_or s.dispatched s.committed no_entry (omega (arith, inv.ordered)) inv.past in
      (rest, e, omega (arith, inv.bounded, len, same, in_flight_le s.drain))
    where
      in_flight_le : (d : Drain) → in_flight d ≤ 1
      in_flight_le (looping f) = omega arith
      in_flight_le (copied f e) = omega arith
      in_flight_le (stored f e) = omega arith
      in_flight_le ended = omega arith

  -- A commit drops its entry only while as many committed entries as the ring has slots are still to
  -- be taken by the drain thread.
  pub drop-full :
      (s : System)
      → Reach (started ring_size max_msg_len source_id level) s
      → is_full s.logger ≡ true
      → length s.committed ≡ popped s + ring_size
  unfolding is_full
  drop-full s run full =
      let (inv, same) = reached s run in
      ground
        (arith, full, inv.head_count, inv.tail_count, inv.ordered, inv.bounded, size.small, same)

Reach-trans : {s t u : System} → Reach s t → Reach t u → Reach s u
Reach-trans r here = r
Reach-trans r (next q st) = next (Reach-trans r q) st

abbrev Flushed : System → Type 0
Flushed s =
    (t : System) × Reach s t
    × (t.drain ≡ ended)
    × (t.dispatched ≡ s.committed)
    × (t.committed ≡ s.committed)

-- The flush loop, run alone, takes every entry that is left.
flush :
    (n : ℕ) (s : System)
    → Inv s
    → IsRingSize s.logger.ring_size
    → s.drain ≡ looping true
    → length s.committed ≡ length s.dispatched + n
    → Flushed s
unfolding is_empty advance
flush zero s inv size at left = (
  record s { drain = ended },
  next here (ends s at empty),
  refl,
  eq_of_get_or s.dispatched s.committed no_entry (omega (arith, left)) inv.past,
  refl,
)
  where
    empty : is_empty s.logger ≡ true
    empty =
        ground
          (arith, inv.head_count, inv.tail_count, ap in_flight at, left, ap (λ k. k % size_mod))
flush (suc n) s inv size at left = finish (
    flush n s3 inv3 size refl
      (omega (arith, left, length-append s.dispatched (peek s.logger ∷ []))))
  where
    some_left : is_empty s.logger ≡ false
    some_left =
        ground
          (arith, inv.head_count, inv.tail_count, ap in_flight at, left, inv.bounded, size.small)

    s1 : System
    s1 = record s { drain = copied true (peek s.logger) }

    s2 : System
    s2 = record s1 { drain = stored true (peek s.logger); logger = advance s.logger }

    s3 : System
    s3 = record s2 { drain = looping true; dispatched = s.dispatched ++ (peek s.logger ∷ []) }

    inv3 : Inv s3
    inv3 = Step-Inv size (dispatches s2 true (peek s.logger) refl) (
        Step-Inv size (stores s1 true (peek s.logger) refl)
          (Step-Inv size (copies s true at some_left) inv))

    steps : Reach s s3
    steps =
        next (next (next here (copies s true at some_left)) (stores s1 true (peek s.logger) refl))
          (dispatches s2 true (peek s.logger) refl)

    finish : Flushed s3 → Flushed s
    finish (t, r, e, d, c) = (t, Reach-trans steps r, e, d, c)

module _ (ring_size max_msg_len source_id : ℕ) (level : LogLevel)
    (size : IsRingSize ring_size) where
  -- From every reachable state in which the drain thread has entered its flush loop, the loop can
  -- run to its end, with every entry committed so far dispatched, in order.
  pub flush_completes :
      (s : System)
      → Reach (started ring_size max_msg_len source_id level) s
      → s.drain ≡ looping true
      → Flushed s
  flush_completes s run at =
      let (inv, same) = reached ring_size max_msg_len source_id level size s run in
      flush (length s.committed - length s.dispatched) s inv (subst IsRingSize (sym same) size) at
        (omega (arith, inv.ordered))

  -- Where the drain thread ends, it has dispatched every entry committed by then, in order.
  pub end-dispatched :
      (s : System)
      → Reach (started ring_size max_msg_len source_id level) s
      → s.drain ≡ looping true
      → is_empty s.logger ≡ true
      → s.dispatched ≡ s.committed
  unfolding is_empty
  end-dispatched s run at empty =
      let (inv, same) = reached ring_size max_msg_len source_id level size s run in
      let all : length s.committed ≡ length s.dispatched = ground (
        arith,
        empty,
        inv.head_count,
        inv.tail_count,
        inv.ordered,
        inv.bounded,
        size.small,
        same,
        ap in_flight at,
      ) in
      eq_of_get_or s.dispatched s.committed no_entry (omega (arith, all)) inv.past
