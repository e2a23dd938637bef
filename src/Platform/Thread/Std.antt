-- ===== src/Platform/Thread/Std.antt =====
-- include/corerat/platform/std/threading_impl.hpp: `Thread` over std::thread. An exception of the
-- constructor of std::thread leaves the thread as it was.
use core_ra_t.Base.{
  ℕ, ◌≡◌, refl, Bool, true, false, Option, none, some, List, [], ◌∷◌, ◌++◌, arith, Option-cases,
  inl, inr, if◌then◌else◌, take,
}
use core_ra_t.Base.Int.{ltb_ℤ, pos}
use core_ra_t.Platform.Owner.{count, release, cons-once, count-cons, IsOwned}
use core_ra_t.Platform.Owner.Moves.{Within, Balances, Impl, Op, World, run, IsOwner, run-IsOwned}
use core_ra_t.Platform.File.{owned_by, close_lem}
use core_ra_t.Platform.Thread.{
  ThreadConfig, normal, normal_policy, fifo, round_robin, default_config, StartCall, Create,
  IsFresh, Disposal, join, chosen_config, priority_value, Action, set_name, set_sched_other,
  set_sched_fifo, set_sched_rr, set_affinity, run_function,
}

pub record Thread : Type 0 where
  pub config : ThreadConfig
  pub thread : Option ℕ

abbrev pub new_thread : Thread
new_thread = record { config = default_config; thread = none }

abbrev pub moved_from : Thread → Thread
moved_from f = record f { thread = none }

-- `join` and `detach`, a thread that is not joinable being left as it is.
unfoldable pub end_thread : Thread → List ℕ → Thread × List ℕ
end_thread f t = elim f.thread [
  | none ↦ (f, t)
  | some handle ↦ (record f { thread = none }, release handle t)
]

is_normal : ThreadConfig → Bool
is_normal config = elim config.priority [
  | normal ↦ elim config.policy [ normal_policy ↦ true | _ ↦ false ]
  | _ ↦ false
]

set_sched : ThreadConfig → Action
set_sched config = elim config.policy [
  | fifo ↦ set_sched_fifo (priority_value config.priority)
  | round_robin ↦ set_sched_rr (priority_value config.priority)
  | _ ↦ set_sched_other (priority_value config.priority)
]

unfoldable pub apply_config : ThreadConfig → List Action
unfolding is_normal set_sched
apply_config config =
    (elim config.name [ [] ↦ [] | c ∷ name ↦ set_name (take 15 config.name) ∷ [] ])
    ++ ((if is_normal config then [] else set_sched config ∷ [])
        ++ (if ltb_ℤ config.cpu_affinity (pos 0)
            then []
            else set_affinity config.cpu_affinity ∷ []))

-- The body of the thread.
unfoldable pub thread_body : ThreadConfig → List Action
thread_body config = apply_config config ++ (run_function ∷ [])

module _ (create : Create) where
  unfoldable pub start : StartCall → Thread → List ℕ → Thread × List ℕ
  start c f t =
      let f1 : Thread = record f { config = chosen_config c f.config } in
      elim f.thread [
        | some handle ↦ (f1, t)
        | none ↦ elim (create c f1.config t) [
          | none ↦ (f1, t)
          | some handle ↦ (record f1 { thread = some handle }, handle ∷ t)
        ]
      ]

  abbrev pub thread_impl : Impl Thread StartCall Disposal
  thread_impl = record {
    empty = new_thread;
    moved_from = moved_from;
    acquire = start;
    dispose = λ d f t. end_thread f t;
    at_end = join;
  }

abbrev pub owned : Thread → List ℕ
owned f = owned_by f.thread

module _ (create : Create) (fresh : IsFresh create) where
  start_lem :
      (c : StartCall) (f : Thread) (t : List ℕ)
      → Within owned f t
      → Balances owned f t (start create c f t)
  unfolding start count
  start_lem c f t (once, has) = elim (Option-cases f.thread) [
    | inr (handle, e) ↦ (λ x. ground (arith, e, once x), λ x. ground (arith, e))
    | inl e ↦ elim (Option-cases (create c (chosen_config c f.config) t)) [
      | inl n ↦ (λ x. ground (arith, e, n, once x), λ x. ground (arith, e, n))
      | inr (handle, n) ↦
          let new = cons-once handle t once (fresh c (chosen_config c f.config) t handle n) in
          (λ x. ground (arith, e, n, new x), λ x. ground (arith, e, n, count-cons x handle t))
    ]
  ]

  end_lem :
      (f : Thread) (t : List ℕ)
      → Within owned f t
      → Balances owned f t (end_thread f t) × ((x : ℕ) → count x (owned (end_thread f t).0) ≡ 0)
  unfolding end_thread count
  end_lem f t (once, has) =
      let (once0, sum0) = close_lem f.thread t once has in
      elim (Option-cases f.thread) [
        | inl e ↦ ((λ x. ground (arith, e, once x), λ x. ground (arith, e)), λ x. ground (arith, e))
        | inr (handle, e) ↦ (
          (λ x. ground (arith, e, once0 x), λ x. ground (arith, e, sum0 x)),
          λ x. ground (arith, e),
        )
      ]

  thread_impl-IsOwner : IsOwner (thread_impl create) owned
  unfolding count
  thread_impl-IsOwner = record {
    empty_lem = λ x. refl;
    moved_lem = λ f x. refl;
    acquire_lem = start_lem;
    dispose_lem = λ d f t w. end_lem f t w;
  }

  -- Whatever threads are constructed, started, joined, detached, moved and destroyed, in whatever
  -- order: each thread that is neither joined nor detached belongs to exactly one object, which is
  -- joinable, or was there before; and no object is joinable over a thread that is joined or detached.
  -- A thread that is created has a handle that no such thread has.
  pub std_threads-IsOwned :
      (others : List ℕ) (w : World Thread) (ops : List (Op StartCall Disposal))
      → IsOwned owned others w.table w.objects
      → IsOwned owned others
          (run (thread_impl create) w ops).table
          (run (thread_impl create) w ops).objects
  std_threads-IsOwned others w ops v =
      run-IsOwned (thread_impl create) owned thread_impl-IsOwner others w ops v
