-- ===== src/Mailbox/Interface.antt =====
-- What include/corerat/ipc/mailbox.hpp uses of the type `IpcMailbox`, and what it relies on.
use core_ra_t.Base.{ℕ, ◌<◌, ◌≡◌, Bool, true, false, List}
use core_ra_t.Base.Int.{ℤ}
use core_ra_t.Platform.Duration.{Duration}
use core_ra_t.Tims.Mailbox.{TimsResult, success}

pub record Metadata : Type 0 where
  pub src : ℕ
  pub dest : ℕ

-- The return value of `receive_raw_bytes`: a value that is not positive, or the bytes of a message.
pub data Outcome : Type 0 where
  code : ℤ → Outcome
  message : Metadata → List ℕ → Outcome

pub record Backend (S : Type 0) : Type 0 where
  pub is_initialized : S → Bool
  pub initialize : S → TimsResult × S
  pub shutdown : S → S
  pub send_raw : S → List ℕ → ℕ → TimsResult × S
  pub receive_raw_bytes : S → ℕ → Duration → Outcome × S

-- The backend is initialized from an `initialize` that succeeds until a `shutdown`.
pub record IsLifecycle {S : Type 0} (b : Backend S) : Type 0 where
  pub initialize_success :
      (s : S) → (b.initialize s).0 ≡ success → b.is_initialized (b.initialize s).1 ≡ true
  pub initialize_kept :
      (s : S) → b.is_initialized s ≡ true → b.is_initialized (b.initialize s).1 ≡ true
  pub initialize_failure :
      (s : S)
      → b.is_initialized s ≡ false
      → b.is_initialized (b.initialize s).1 ≡ true
      → (b.initialize s).0 ≡ success
  pub shutdown_closed : (s : S) → b.is_initialized (b.shutdown s) ≡ false
  pub send_kept :
      (s : S) (bytes : List ℕ) (dest : ℕ)
      → b.is_initialized (b.send_raw s bytes dest).1 ≡ b.is_initialized s
  pub receive_kept :
      (s : S) (size : ℕ) (wait : Duration)
      → b.is_initialized (b.receive_raw_bytes s size wait).1 ≡ b.is_initialized s

-- A message that is received is no longer pending.
pub record IsDraining {S : Type 0} (b : Backend S) (pending : S → ℕ) : Type 0 where
  pub message_taken :
      (s : S) (size : ℕ) (wait : Duration) (meta : Metadata) (bytes : List ℕ)
      → (b.receive_raw_bytes s size wait).0 ≡ message meta bytes
      → pending (b.receive_raw_bytes s size wait).1 < pending s
