-- ===== src/Mailbox/Life.antt =====
-- Starting, stopping and emptying a mailbox of include/corerat/ipc/mailbox.hpp.
use core_ra_t.Base.{
  ℕ, zero, suc, ◌<◌, ◌≡◌, refl, arith, true, false, Option, none, some, List, Bool-cases,
  Option-cases, inl, inr, ◌⊎◌, if◌then◌else◌,
}
use core_ra_t.Base.Int.{ℤ, pos}
use core_ra_t.Platform.Duration.{Duration, milliseconds}
use core_ra_t.Message.Wire.{WireHeader, header_of}
use core_ra_t.Message.Registry.{Definitions, processed, visit}
use core_ra_t.Message.Registry as Registry
use core_ra_t.Tims.Mailbox.{TimsResult, success}
use core_ra_t.Mailbox.Interface.{Backend, Metadata, Outcome, code, message, IsLifecycle, IsDraining}
use core_ra_t.Mailbox.{
  Mailbox, already_running, not_running, not_initialized, is_success, start, stop, send,
  backend_send, receive_any_for, drain, clean,
}

-- A mailbox runs exactly while its backend is initialized.
abbrev pub IsSynced : {S : Type 0} → Backend S → Mailbox S → Type 0
IsSynced b m = b.is_initialized m.backend ≡ m.running

Outcome-cases :
    (o : Outcome)
    → ((c : ℤ) × (o ≡ code c)) ⊎ ((meta : Metadata) × (bytes : List ℕ) × (o ≡ message meta bytes))
Outcome-cases (code c) = inl (c, refl)
Outcome-cases (message meta bytes) = inr (meta, bytes, refl)

is_success→success : (r : TimsResult) → is_success r ≡ true → r ≡ success
is_success→success r h = ground (arith, h)

module _ {S : Type 0} (b : Backend S) (law : IsLifecycle b) where
  -- A mailbox that runs is refused a second start. One that does not run starts if its backend does,
  -- and the mailbox runs then; it stays as it is otherwise. Either way it runs afterwards exactly while
  -- its backend is initialized.
  pub start_lem :
      (m : Mailbox S)
      → IsSynced b m
      → IsSynced b (start b m).1
        × (m.running ≡ true → start b m ≡ (some already_running, m))
        × (m.running ≡ false
            → (start b m).0 ≡ (if (start b m).1.running then none else some not_initialized))
  unfolding start
  start_lem m v =
      let up = law.initialize_success m.backend in
      let down = law.initialize_failure m.backend in
      let kind = is_success→success (b.initialize m.backend).0 in
      (ground (arith, v, up, down, kind), λ h. ground (arith, h), λ h. ground (arith, h))

  -- Stopping leaves a mailbox that does not run with a backend that is not initialized, a second stop
  -- does nothing more, and the mailbox can be started again.
  pub stop_lem :
      (m : Mailbox S)
      → IsSynced b m
      → IsSynced b (stop b m) × ((stop b m).running ≡ false) × (stop b (stop b m) ≡ stop b m)
  unfolding stop
  stop_lem m v = (ground (arith, v, law.shutdown_closed m.backend), ground arith, ground arith)

  backend_send-kept :
      {P : Type 0}
      → (sertial : ℕ → WireHeader → P → List ℕ) (s : S) (t : ℕ) (h : WireHeader) (x : P) (dest : ℕ)
      → b.is_initialized (backend_send b sertial s t h x dest).1 ≡ b.is_initialized s
  unfolding backend_send
  backend_send-kept sertial s t h x dest = ground (arith, law.send_kept s (sertial t h x) dest)

  -- Sending and receiving, whatever comes of them, leave a mailbox running as it was, and synced.
  pub send-IsSynced :
      {P : Type 0}
      → (sertial : ℕ → WireHeader → P → List ℕ) (defs : Definitions) (m : Mailbox S) (t : ℕ)
        (h : WireHeader) (x : P) (dest : ℕ)
      → IsSynced b m
      → IsSynced b (send b sertial defs m t h x dest).1
        × ((send b sertial defs m t h x dest).1.running ≡ m.running)
  unfolding send
  send-IsSynced sertial defs m t h x dest v =
      elim (Option-cases (Registry.serialize sertial (processed defs) t h x)) [
        | inl n ↦ (ground (arith, n, v), ground (arith, n))
        | inr ((bytes, stamped), e) ↦
            let kept = backend_send-kept sertial m.backend t stamped x dest in
            (ground (arith, e, v, kept), ground (arith, e))
      ]

  pub receive_any_for-IsSynced :
      {P : Type 0}
      → (deserialize : ℕ → List ℕ → Option (WireHeader × P)) (defs : Definitions) (size : ℕ)
        (m : Mailbox S) (wait : Duration)
      → IsSynced b m
      → IsSynced b (receive_any_for b deserialize defs size m wait).2
  unfolding receive_any_for
  receive_any_for-IsSynced deserialize defs size m wait v =
      elim (Outcome-cases (b.receive_raw_bytes m.backend size wait).0) [
        | inl (c, e) ↦ ground (arith, v, e, law.receive_kept m.backend size wait)
        | inr (meta, bytes, e) ↦
            elim (Option-cases
              (visit deserialize (processed defs) (header_of bytes).msg_type bytes)) [
                | inl n ↦ ground (arith, v, e, n, law.receive_kept m.backend size wait)
                | inr ((t, (h, x)), q) ↦
                    ground (arith, v, e, q, law.receive_kept m.backend size wait)
              ]
      ]

module _ {S : Type 0} (b : Backend S) (pending : S → ℕ) (law : IsDraining b pending) where
  drain_completes :
      (fuel size : ℕ) (s : S) → pending s < fuel → (s' : S) × (drain b fuel size s ≡ some s')
  unfolding drain
  drain_completes zero size s h = absurd (omega (arith, h))
  drain_completes (suc fuel) size s h =
      let wait = milliseconds (pos 10) in
      let s' = (b.receive_raw_bytes s size wait).1 in
      elim (Outcome-cases (b.receive_raw_bytes s size wait).0) [
        | inl (c, e) ↦ (s', ground (arith, e))
        | inr (meta, bytes, e) ↦
            let less = law.message_taken s size wait meta bytes e in
            let (last, q) = drain_completes fuel size s' (omega (arith, less, h)) in
            (last, ground (arith, e, q))
      ]

  -- Emptying a mailbox ends, and successfully if the mailbox runs, in at most one round more than
  -- there are messages pending, where each message that is received is pending no longer.
  pub clean_completes :
      (size : ℕ) (m : Mailbox S)
      → (m' : Mailbox S) × (clean b (suc (pending m.backend)) size m
          ≡ some (if m.running then none else some not_running, m'))
  unfolding clean
  clean_completes size m =
      let (s, e) = drain_completes (suc (pending m.backend)) size m.backend (omega (arith)) in
      elim (Bool-cases m.running) [
        | inl r ↦ (record m { backend = s }, ground (arith, r, e))
        | inr r ↦ (m, ground (arith, r))
      ]
