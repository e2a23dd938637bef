-- ===== src/Log/Logger/Preserve.antt =====
-- Every step of the writer and of the drain thread keeps the invariant of `Order`.
use core_ra_t.Base.{
  ℕ, ◌+◌, ◌%◌, ◌<◌, ◌≤◌, ◌≡◌, refl, sym, ap, subst, ◌∙◌, Bool, true, false, List, [], ◌∷◌, ◌++◌,
  arith, length, length-append, dec_lt,
}
use core_ra_t.Log.Logger.{RtLogEntry, no_entry, size_mod, publish, is_empty, peek, advance}
use core_ra_t.Log.Logger.Concurrent.{
  Writer, outside, passed, filled, Drain, looping, copied, stored, ended, System, Step, drops,
  checks, fills, publishes, sleeps, copies, stores, dispatches, requests_stop, stops, ends,
}
use core_ra_t.Base.{get_or-append_left, get_or-append_last}
use core_ra_t.Log.Logger.Order.{
  Inv, IsRingSize, in_flight, popped, entry_at, ReaderOk, WriterOk, tail_slot, checks-Inv,
  fills-Inv,
}

-- A commit changes no entry that the reader knows.
ReaderOk-append :
    (d : Drain) (es : List RtLogEntry) (n : ℕ) (e : RtLogEntry)
    → ReaderOk d es n
    → ReaderOk d (es ++ (e ∷ [])) n
ReaderOk-append (looping f) es n e h = tt
ReaderOk-append (copied f x) es n e h = (
  omega (arith, h.0, length-append es (e ∷ [])),
  h.1 ∙ sym (get_or-append_left es (e ∷ []) n no_entry h.0),
)
ReaderOk-append (stored f x) es n e h = (
  omega (arith, h.0, length-append es (e ∷ [])),
  h.1 ∙ sym (get_or-append_left es (e ∷ []) n no_entry h.0),
)
ReaderOk-append ended es n e h = tt

-- A reader that takes an entry leaves the writer more room.
WriterOk-mono :
    (w : Writer) (ring : List RtLogEntry) (size h p q : ℕ)
    → p ≤ q
    → WriterOk w ring size h p
    → WriterOk w ring size h q
WriterOk-mono outside ring size h p q le ok = tt
WriterOk-mono (passed e) ring size h p q le ok = omega arith
WriterOk-mono (filled e) ring size h p q le ok = (omega (arith, ok.0), ok.1)

module _ (s : System) (inv : Inv s) (size : IsRingSize s.logger.ring_size) where
  committed_window :
      (e : RtLogEntry) (i : ℕ)
      → entry_at s.logger.ring (length s.committed % s.logger.ring_size) ≡ e
      → popped s ≤ i
      → i < length (s.committed ++ (e ∷ []))
      → entry_at s.logger.ring (i % s.logger.ring_size) ≡ entry_at (s.committed ++ (e ∷ [])) i
  committed_window e i slot lo hi = elim (dec_lt i (length s.committed)) [
    | yes old ↦ inv.window i lo old ∙ sym (get_or-append_left s.committed (e ∷ []) i no_entry old)
    | no new ↦
        let same : length s.committed ≡ i = omega (arith, length-append s.committed (e ∷ [])) in
        subst
          (λ k.
            entry_at s.logger.ring (k % s.logger.ring_size) ≡ entry_at (s.committed ++ (e ∷ [])) k)
          same (slot ∙ sym (get_or-append_last s.committed e no_entry))
  ]

  publishes-Inv :
      (e : RtLogEntry)
      → s.writer ≡ filled e
      → Inv (record s {
        writer = outside;
        logger = publish s.logger;
        committed = s.committed ++ (e ∷ []);
      })
  unfolding publish
  publishes-Inv e w =
      let ok : WriterOk (filled e) s.logger.ring s.logger.ring_size (length s.committed)
          (popped s) =
        subst (λ x. WriterOk x s.logger.ring s.logger.ring_size (length s.committed) (popped s)) w
          inv.writer in
      record {
        ring_length = inv.ring_length;
        head_count = omega (arith, inv.head_count, length-append s.committed (e ∷ []));
        tail_count = inv.tail_count;
        ordered = omega (arith, inv.ordered, length-append s.committed (e ∷ []));
        bounded = omega (arith, ok.0, length-append s.committed (e ∷ []));
        window = λ i lo hi. committed_window e i ok.1 lo hi;
        past = λ i lt.
            inv.past i lt
            ∙ sym (get_or-append_left s.committed (e ∷ []) i no_entry (omega (arith, inv.ordered)));
        reader = ReaderOk-append s.drain s.committed (length s.dispatched) e inv.reader;
        writer = tt;
      }

  -- A step that moves the drain thread between its loops, or to its end.
  moves-Inv :
      (f : Bool) (d : Drain)
      → s.drain ≡ looping f
      → in_flight d ≡ 0
      → ReaderOk d s.committed (length s.dispatched)
      → Inv (record s { drain = d })
  moves-Inv f d at none_new ok =
      let same : popped s ≡ length s.dispatched + in_flight d =
        omega (arith, ap in_flight at, none_new) in
      record {
        ring_length = inv.ring_length;
        head_count = inv.head_count;
        tail_count = inv.tail_count ∙ ap (λ k. k % size_mod) same;
        ordered = omega (arith, inv.ordered, same);
        bounded = omega (arith, inv.bounded, same);
        window = λ i lo hi. inv.window i (omega (arith, same)) hi;
        past = inv.past;
        reader = ok;
        writer =
            subst (WriterOk s.writer s.logger.ring s.logger.ring_size (length s.committed)) same
              inv.writer;
      }

  not_empty : is_empty s.logger ≡ false → popped s < length s.committed
  unfolding is_empty
  not_empty e =
      ground (arith, e, inv.head_count, inv.tail_count, inv.ordered, ap (λ k. k % size_mod))

  copies-Inv :
      (f : Bool)
      → s.drain ≡ looping f
      → is_empty s.logger ≡ false
      → Inv (record s { drain = copied f (peek s.logger) })
  unfolding peek
  copies-Inv f at e =
      let none_out : popped s ≡ length s.dispatched = omega (arith, ap in_flight at) in
      moves-Inv f (copied f (peek s.logger)) at refl (
        omega (arith, not_empty e, none_out),
        ap (entry_at s.logger.ring) (tail_slot s inv size)
            ∙ inv.window (popped s) (omega arith) (not_empty e)
            ∙ ap (entry_at s.committed) none_out,
      )

  stores-Inv :
      (f : Bool) (e : RtLogEntry)
      → s.drain ≡ copied f e
      → Inv (record s { drain = stored f e; logger = advance s.logger })
  unfolding advance
  stores-Inv f e at =
      let none_out : popped s ≡ length s.dispatched = omega (arith, ap in_flight at) in
      let ok : ReaderOk (copied f e) s.committed (length s.dispatched) =
        subst (λ d. ReaderOk d s.committed (length s.dispatched)) at inv.reader in
      record {
        ring_length = inv.ring_length;
        head_count = inv.head_count;
        tail_count = omega (arith, inv.tail_count, none_out);
        ordered = omega (arith, ok.0);
        bounded = omega (arith, inv.bounded, none_out);
        window = λ i lo hi. inv.window i (omega (arith, none_out)) hi;
        past = inv.past;
        reader = ok;
        writer =
            WriterOk-mono s.writer s.logger.ring s.logger.ring_size (length s.committed) (popped s)
              (length s.dispatched + 1) (omega (arith, none_out)) inv.writer;
      }

  past_dispatch :
      (e : RtLogEntry) (i : ℕ)
      → e ≡ entry_at s.committed (length s.dispatched)
      → i < length (s.dispatched ++ (e ∷ []))
      → entry_at (s.dispatched ++ (e ∷ [])) i ≡ entry_at s.committed i
  past_dispatch e i same lt = elim (dec_lt i (length s.dispatched)) [
    | yes old ↦ get_or-append_left s.dispatched (e ∷ []) i no_entry old ∙ inv.past i old
    | no new ↦
        let last : length s.dispatched ≡ i = omega (arith, length-append s.dispatched (e ∷ [])) in
        subst (λ k. entry_at (s.dispatched ++ (e ∷ [])) k ≡ entry_at s.committed k) last
          (get_or-append_last s.dispatched e no_entry ∙ same)
  ]

  dispatches-Inv :
      (f : Bool) (e : RtLogEntry)
      → s.drain ≡ stored f e
      → Inv (record s { drain = looping f; dispatched = s.dispatched ++ (e ∷ []) })
  dispatches-Inv f e at =
      let ok : ReaderOk (stored f e) s.committed (length s.dispatched) =
        subst (λ d. ReaderOk d s.committed (length s.dispatched)) at inv.reader in
      let same : popped s ≡ length (s.dispatched ++ (e ∷ [])) + 0 =
        omega (arith, ap in_flight at, length-append s.dispatched (e ∷ [])) in
      record {
        ring_length = inv.ring_length;
        head_count = inv.head_count;
        tail_count = inv.tail_count ∙ ap (λ k. k % size_mod) same;
        ordered = omega (arith, inv.ordered, same);
        bounded = omega (arith, inv.bounded, same);
        window = λ i lo hi. inv.window i (omega (arith, same)) hi;
        past = λ i lt. past_dispatch e i ok.1 lt;
        reader = tt;
        writer =
            subst (WriterOk s.writer s.logger.ring s.logger.ring_size (length s.committed)) same
              inv.writer;
      }

-- Every step keeps the invariant.
pub Step-Inv : {s t : System} → IsRingSize s.logger.ring_size → Step s t → Inv s → Inv t
Step-Inv size (drops s _ _) inv = inv
Step-Inv size (checks s e _ room) inv = checks-Inv s inv size e room
Step-Inv size (fills s e w) inv = fills-Inv s inv size e w
Step-Inv size (publishes s e w) inv = publishes-Inv s inv size e w
Step-Inv size (sleeps s _ _) inv = inv
Step-Inv size (copies s f at e) inv = copies-Inv s inv size f at e
Step-Inv size (stores s f e at) inv = stores-Inv s inv size f e at
Step-Inv size (dispatches s f e at) inv = dispatches-Inv s inv size f e at
Step-Inv size (requests_stop s) inv = record {
  ring_length = inv.ring_length;
  head_count = inv.head_count;
  tail_count = inv.tail_count;
  ordered = inv.ordered;
  bounded = inv.bounded;
  window = inv.window;
  past = inv.past;
  reader = inv.reader;
  writer = inv.writer;
}
Step-Inv size (stops s at _) inv = moves-Inv s inv size false (looping true) at refl tt
Step-Inv size (ends s at _) inv = moves-Inv s inv size true ended at refl tt
