-- ===== src/Log/Logger/Concurrent.antt =====
-- The writer that holds `ring_mutex_` and the drain thread, interleaved at their atomic accesses.
use core_ra_t.Base.{◌≡◌, Bool, true, false, List, [], ◌∷◌, ◌++◌}
use core_ra_t.Log.Logger.{RtLogEntry, RtLogger, is_full, fill, publish, is_empty, peek, advance}

-- The committing thread: outside `commit`, past the check for a full ring, or done with its slot.
pub data Writer : Type 0 where
  outside : Writer
  passed : RtLogEntry → Writer
  filled : RtLogEntry → Writer

-- The drain thread: at the head of its first loop or of the flush loop (`flushing` is true), with an
-- entry copied, with the tail stored and the entry not yet dispatched, or at its end.
pub data Drain : Type 0 where
  looping : Bool → Drain
  copied : Bool → RtLogEntry → Drain
  stored : Bool → RtLogEntry → Drain
  ended : Drain

-- The log of both sides: what was committed into the ring, and what was dispatched, in order.
pub record System : Type 0 where
  pub logger : RtLogger
  pub writer : Writer
  pub drain : Drain
  pub committed : List RtLogEntry
  pub dispatched : List RtLogEntry

-- The first loop reads `drain_running_` and then `head_`; what stands between the two reads is any
-- run of the other thread, so its steps below do not ask what the first read saw.
pub data Step : System → System → Type 0 where
  -- `commit` finds the ring full, and drops the entry
  drops : (s : System) → s.writer ≡ outside → is_full s.logger ≡ true → Step s s
  checks :
      (s : System) (e : RtLogEntry)
      → s.writer ≡ outside
      → is_full s.logger ≡ false
      → Step s (record s { writer = passed e })
  fills :
      (s : System) (e : RtLogEntry)
      → s.writer ≡ passed e
      → Step s (record s { writer = filled e; logger = fill s.logger e })
  publishes :
      (s : System) (e : RtLogEntry)
      → s.writer ≡ filled e
      → Step s (record s {
        writer = outside;
        logger = publish s.logger;
        committed = s.committed ++ (e ∷ []);
      })
  sleeps : (s : System) → s.drain ≡ looping false → is_empty s.logger ≡ true → Step s s
  copies :
      (s : System) (f : Bool)
      → s.drain ≡ looping f
      → is_empty s.logger ≡ false
      → Step s (record s { drain = copied f (peek s.logger) })
  stores :
      (s : System) (f : Bool) (e : RtLogEntry)
      → s.drain ≡ copied f e
      → Step s (record s { drain = stored f e; logger = advance s.logger })
  dispatches :
      (s : System) (f : Bool) (e : RtLogEntry)
      → s.drain ≡ stored f e
      → Step s (record s { drain = looping f; dispatched = s.dispatched ++ (e ∷ []) })
  -- `stop_drain` on another thread
  requests_stop :
      (s : System) → Step s (record s { logger = record s.logger { drain_running = false } })
  -- the first loop sees `drain_running_` false
  stops :
      (s : System)
      → s.drain ≡ looping false
      → s.logger.drain_running ≡ false
      → Step s (record s { drain = looping true })
  ends :
      (s : System)
      → s.drain ≡ looping true
      → is_empty s.logger ≡ true
      → Step s (record s { drain = ended })

pub data Reach (s : System) : System → Type 0 where
  here : Reach s s
  next : {t u : System} → Reach s t → Step t u → Reach s u
