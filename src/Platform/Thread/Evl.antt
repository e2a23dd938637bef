-- ===== src/Platform/Thread/Evl.antt =====
-- include/corerat/platform/evl/threading_impl.hpp: `Thread` over a POSIX thread that attaches itself to
-- the EVL core.
pub mod Entry
use core_ra_t.Base.{
  ℕ, ◌+◌, ◌≤◌, ◌<◌, ◌^◌, ◌≡◌, refl, sym, ap, ◌∙◌, Bool, true, false, Option, none, some, List, [],
  ◌∷◌, ◌++◌, arith, Option-cases, Bool-cases, inl, inr, if◌then◌else◌, ◌==◌, if-elim, take,
  take_all, length, length-take, length-append, append_assoc,
}
use core_ra_t.Base.Int.{ℤ, ltb_ℤ, pos, negsuc}
use core_ra_t.Base.Text.{
  codes, decimal, is_digit, decimal-IsNumeral, digits, digits-decimal, length-decimal, split_last,
  split_last_numeral,
}
use core_ra_t.Platform.Owner.{
  count, release, release_lem, release-once, cons-once, count-cons, IsOwned,
}
use core_ra_t.Platform.Owner.Moves.{Within, Balances, Impl, Op, World, run, IsOwner, run-IsOwned}
use core_ra_t.Platform.Thread.{
  ThreadConfig, ThreadPriority, idle, priority_value, default_config, StartCall, Create, IsFresh,
  Disposal, join, chosen_config, Action, set_affinity, evl_attach, evl_set_fifo, evl_monitor,
  evl_report, evl_detach, run_function,
}

pub record Thread : Type 0 where
  pub config : ThreadConfig
  pub posix_thread : ℕ
  pub joinable : Bool

abbrev pub new_thread : Thread
new_thread = record { config = default_config; posix_thread = 0; joinable = false }

abbrev pub moved_from : Thread → Thread
moved_from f = record f { joinable = false }

-- `join` and `detach`, a thread that is not joinable being left as it is.
unfoldable pub end_thread : Thread → List ℕ → Thread × List ℕ
end_thread f t =
    if f.joinable then (record f { joinable = false }, release f.posix_thread t) else (f, t)

module _ (create : Create) where
  -- A thread that is not created leaves the object not joinable, and nothing reports it.
  unfoldable pub start : StartCall → Thread → List ℕ → Thread × List ℕ
  start c f t =
      let f1 : Thread = record f { config = chosen_config c f.config } in
      if f.joinable then (f1, t) else (elim (create c f1.config t) [
        | none ↦ (f1, t)
        | some handle ↦ (record f1 { posix_thread = handle; joinable = true }, handle ∷ t)
      ])

  abbrev pub thread_impl : Impl Thread StartCall Disposal
  thread_impl = record {
    empty = new_thread;
    moved_from = moved_from;
    acquire = start;
    dispose = λ d f t. end_thread f t;
    at_end = join;
  }

abbrev pub owned : Thread → List ℕ
owned f = if f.joinable then f.posix_thread ∷ [] else []

-- The name for the EVL core, of at most 63 characters.
base_name : List ℕ → List ℕ
base_name [] = codes "thread"
base_name (c ∷ name) = c ∷ name

unfoldable pub thread_name : ThreadConfig → ℕ → List ℕ
unfolding base_name
thread_name config tid =
    take 63 (codes "corerat-" ++ (take 40 (base_name config.name) ++ (b':' ∷ decimal tid)))

-- `thread_entry`: `attached` is what evl_attach_self returns, and `self` what evl_get_self does.
-- -EBUSY is -16.
is_busy : ℤ → Bool
is_busy (pos n) = false
is_busy (negsuc n) = n == 15

unfoldable pub element_of : ℤ → ℤ → ℤ
unfolding is_busy
element_of attached self = if is_busy attached then self else attached

set_schedattr : ThreadPriority → ℤ → List Action
set_schedattr idle efd = []
set_schedattr p efd = evl_set_fifo efd (priority_value p) ∷ []

unfoldable pub attached_actions : ThreadConfig → ℤ → List Action
unfolding set_schedattr
attached_actions config efd =
    if ltb_ℤ efd (pos 0)
    then evl_report efd ∷ []
    else set_schedattr config.priority efd ++ (evl_monitor efd ∷ [])

unfoldable pub thread_entry : ThreadConfig → ℤ → ℤ → List Action
thread_entry config attached self =
    let efd = element_of attached self in
    (evl_attach ∷ attached_actions config efd)
    ++ ((if ltb_ℤ config.cpu_affinity (pos 0) then [] else set_affinity config.cpu_affinity ∷ [])
        ++ (run_function ∷ (if ltb_ℤ efd (pos 0) then [] else evl_detach ∷ [])))

module _ (create : Create) (fresh : IsFresh create) where
  start_lem :
      (c : StartCall) (f : Thread) (t : List ℕ)
      → Within owned f t
      → Balances owned f t (start create c f t)
  unfolding start count
  start_lem c f t (once, has) = elim (Bool-cases f.joinable) [
    | inl e ↦ (λ x. ground (arith, e, once x), λ x. ground (arith, e))
    | inr e ↦ elim (Option-cases (create c (chosen_config c f.config) t)) [
      | inl n ↦ (λ x. ground (arith, e, n, once x), λ x. ground (arith, e, n))
      | inr (handle, n) ↦
          let new = cons-once handle t once (fresh c (chosen_config c f.config) t handle n) in
          (λ x. ground (arith, e, n, new x), λ x. ground (arith, e, n, count-cons x handle t))
    ]
  ]

  end_lem :
      (f : Thread) (t : List ℕ)
      → Within owned f t
      → Balances owned f t (end_thread f t) × ((x : ℕ) → count x (owned (end_thread f t).0) ≡ 0)
  unfolding end_thread count
  end_lem f t (once, has) = elim (Bool-cases f.joinable) [
    | inr e ↦ ((λ x. ground (arith, e, once x), λ x. ground (arith, e)), λ x. ground (arith, e))
    | inl e ↦
        let there : 1 ≤ count f.posix_thread t = ground (arith, e, has f.posix_thread) in
        (
          (
            λ x. ground (arith, e, release-once f.posix_thread t once x),
            λ x. ground (arith, e, release_lem x f.posix_thread t there),
          ),
          λ x. ground (arith, e),
        )
  ]

  thread_impl-IsOwner : IsOwner (thread_impl create) owned
  unfolding count
  thread_impl-IsOwner = record {
    empty_lem = λ x. refl;
    moved_lem = λ f x. refl;
    acquire_lem = start_lem;
    dispose_lem = λ d f t w. end_lem f t w;
  }

  -- Whatever threads are constructed, started, joined, detached, moved and destroyed, in whatever
  -- order, also where pthread_create fails: each thread that is neither joined nor detached belongs to
  -- exactly one object, which is joinable, or was there before; and no object is joinable over a thread
  -- that is joined or detached. A thread that is created has a handle that no such thread has.
  pub evl_threads-IsOwned :
      (others : List ℕ) (w : World Thread) (ops : List (Op StartCall Disposal))
      → IsOwned owned others w.table w.objects
      → IsOwned owned others
          (run (thread_impl create) w ops).table
          (run (thread_impl create) w ops).objects
  evl_threads-IsOwned others w ops v =
      run-IsOwned (thread_impl create) owned thread_impl-IsOwner others w ops v
