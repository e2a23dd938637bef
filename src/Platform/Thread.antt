-- ===== src/Platform/Thread.antt =====
-- include/corerat/platform/threading.hpp: what both implementations of `Thread` share. What the calls
-- that create a thread return is a parameter, for a call at an instant on a table of the threads that
-- are neither joined nor detached. A thread's function is taken to return, so that joining ends.
pub mod Std
pub mod Evl
mod Tests
use core_ra_t.Base.{ℕ, ◌≡◌, Option, none, some, List}
use core_ra_t.Base.Int.{ℤ, negsuc, pos}
use core_ra_t.Base.Text.{codes}
use core_ra_t.Platform.Owner.{count}

pub data ThreadPriority : Type 0 where
  idle low normal high realtime : ThreadPriority

abbrev pub priority_value : ThreadPriority → ℕ
priority_value idle = 0
priority_value low = 10
priority_value normal = 50
priority_value high = 75
priority_value realtime = 99

pub data SchedulingPolicy : Type 0 where
  normal_policy fifo round_robin deadline : SchedulingPolicy

pub record ThreadConfig : Type 0 where
  pub name : List ℕ
  pub priority : ThreadPriority
  pub policy : SchedulingPolicy
  pub cpu_affinity : ℤ
  pub stack_size : ℕ

abbrev pub default_config : ThreadConfig
default_config = record {
  name = codes "unnamed";
  priority = normal;
  policy = normal_policy;
  cpu_affinity = negsuc 0;
  stack_size = 0;
}

-- `start(func)`, or `start(config, func)`, and when it is called.
pub record StartCall : Type 0 where
  pub new_config : Option ThreadConfig
  pub instant : ℕ

-- pthread_create and the constructor of std::thread.
abbrev pub Create : Type 0
Create = StartCall → ThreadConfig → List ℕ → Option ℕ

-- A thread that is created has a handle that no other has which is neither joined nor detached.
abbrev pub IsFresh : Create → Type 0
IsFresh create =
    (c : StartCall) (config : ThreadConfig) (t : List ℕ) (handle : ℕ)
    → create c config t ≡ some handle
    → count handle t ≡ 0

pub data Disposal : Type 0 where
  join detach : Disposal

abbrev pub chosen_config : StartCall → ThreadConfig → ThreadConfig
chosen_config c config = elim c.new_config [ none ↦ config | some k ↦ k ]

-- What a thread does before and after its function, in order.
pub data Action : Type 0 where
  set_name : List ℕ → Action
  set_sched_other set_sched_fifo set_sched_rr : ℕ → Action
  set_affinity : ℤ → Action
  evl_attach : Action
  evl_set_fifo : ℤ → ℕ → Action
  evl_monitor : ℤ → Action
  evl_report : ℤ → Action
  evl_detach : Action
  run_function : Action
