-- ===== src/Evl/Inband.antt =====
-- InbandScope of include/corerat/ipc/evl/evl_backend.hpp: a scope in which a thread of the EVL core may call
-- the system. What libevl answers is a parameter.
use core_ra_t.Base.{◌≡◌, arith, Bool, true, false, not, ◌&&◌, ◌||◌, if◌then◌else◌}

-- A thread: which stage it runs on, and whether EVL_T_HMSIG is set, by which a call of the system from
-- the out-of-band stage is a signal.
pub record Stage : Type 0 where
  pub inband : Bool
  pub hmsig : Bool

-- To the constructor: whether evl_get_self gives a descriptor, and evl_clear_thread_mode,
-- evl_switch_inband and evl_set_thread_mode succeed.
pub record Granted : Type 0 where
  pub has_self : Bool
  pub clears : Bool
  pub switches : Bool
  pub sets : Bool

-- To the destructor: whether evl_switch_oob and evl_set_thread_mode succeed. Nothing looks at it.
pub record Released : Type 0 where
  pub switches : Bool
  pub sets : Bool

pub record Scope : Type 0 where
  pub restore_oob : Bool
  pub restore_hmsig : Bool
  pub switched : Bool

-- A constructor that returns early has switched only if there was nothing to switch.
not_entered : Stage → Scope
not_entered s = record { restore_oob = not s.inband; restore_hmsig = false; switched = s.inband }

-- The switch, and EVL_T_HMSIG to be set again where it fails.
switch_stage : Granted → Bool → Stage → Stage
switch_stage g restore_hmsig cleared =
    if g.switches
    then record cleared { inband = true }
    else if restore_hmsig && g.sets
    then record cleared { hmsig = true }
    else cleared

unfoldable pub enter : Granted → Stage → Scope × Stage
unfolding not_entered switch_stage
enter g s =
    if s.inband || not g.has_self
    then (not_entered s, s)
    else if not g.clears
    then (not_entered s, s)
    else (
      record { restore_oob = true; restore_hmsig = s.hmsig; switched = g.switches },
      switch_stage g s.hmsig (record s { hmsig = false }),
    )

unfoldable pub leave : Released → Scope → Stage → Stage
leave l scope s =
    let back =
      (if scope.restore_oob && scope.switched && l.switches
        then record s { inband = false }
        else s) in
    if scope.restore_hmsig && l.sets then record back { hmsig = true } else back

-- For all answers of libevl. A scope says that it has switched exactly where the thread runs in-band in
-- it. After its end the thread is in-band where it was, or where the switch to in-band was granted and
-- the switch back was not; it has EVL_T_HMSIG exactly where it had it and one of these holds: it was
-- in-band, libevl has no descriptor of it or did not clear the mode, the destructor sets the mode again,
-- or the constructor did, after a switch that failed. So where both calls of the destructor succeed, the
-- thread is as it was.
pub leave-enter :
    (g : Granted) (l : Released) (s : Stage)
    → let (scope, inside) = enter g s in
      let outside = leave l scope inside in
      (scope.switched ≡ inside.inband)
      × (outside.inband ≡ s.inband || g.has_self && g.clears && g.switches && not l.switches)
      × (outside.hmsig
          ≡ s.hmsig
            && (s.inband || not g.has_self || not g.clears || l.sets || not g.switches && g.sets))
      × (l.switches ≡ true → l.sets ≡ true → outside ≡ s)
unfolding enter leave
leave-enter g l s = restored s.inband s.hmsig
  where
    restored :
        (i h : Bool)
        → let was : Stage = record { inband = i; hmsig = h } in
          let (scope, inside) = enter g was in
          let outside = leave l scope inside in
          (scope.switched ≡ inside.inband)
          × (outside.inband ≡ i || g.has_self && g.clears && g.switches && not l.switches)
          × (outside.hmsig
              ≡ h && (i || not g.has_self || not g.clears || l.sets || not g.switches && g.sets))
          × (l.switches ≡ true → l.sets ≡ true → outside ≡ was)
    restored true h = (ground arith, ground arith, ground arith, λ a b. ground (arith, a, b))
    restored false true = (ground arith, ground arith, ground arith, λ a b. ground (arith, a, b))
    restored false false = (ground arith, ground arith, ground arith, λ a b. ground (arith, a, b))
