-- ===== src/Router/Server.antt =====
-- ServerSocket of src/router/tcp_router.cpp (src/router/evl_router.cpp has the same class). What the system
-- answers is a parameter of Tims/Socket/Owned.
use core_ra_t.Base.{
  ℕ, ◌≡◌, arith, Bool, true, false, Option, none, some, List, ◌∷◌, if◌then◌else◌, Option-cases,
  Bool-cases, inl, inr,
}
use core_ra_t.Base.Int.{ℤ, negsuc}
use core_ra_t.Platform.Owner.{release}
use core_ra_t.Platform.File.{close_if_open}
use core_ra_t.Tims.Socket.Owned.{SocketSystem, TcpSocket, listening, accepting}

pub record ServerSocket : Type 0 where
  pub fd : Option ℕ

unfoldable pub is_open : ServerSocket → Bool
is_open s = elim s.fd [ none ↦ false | some fd ↦ true ]

-- The constructor: a socket that is bound and listens, or none.
unfoldable pub server_socket : SocketSystem → ℕ → ℕ → List ℕ → ServerSocket × List ℕ
server_socket sys port now t = elim (sys.new_fd (listening port now) t) [
  | none ↦ (record { fd = none }, t)
  | some fd ↦
      if sys.succeeds (listening port now)
      then (record { fd = some fd }, fd ∷ t)
      else (record { fd = none }, release fd (fd ∷ t))
]

unfoldable pub close_server : ServerSocket → List ℕ → ServerSocket × List ℕ
close_server s t = (record { fd = none }, close_if_open s.fd t)

-- `answer` is what poll(2) returns for the descriptor.
unfoldable pub poll_server : ℤ → ServerSocket → ℤ
poll_server answer s = elim s.fd [ none ↦ negsuc 0 | some fd ↦ answer ]

unfoldable pub accept_from : SocketSystem → ℕ → List ℕ → Option TcpSocket × List ℕ
accept_from sys now t = elim (sys.new_fd (accepting now) t) [
  | none ↦ (none, t)
  | some fd ↦ (some (record { fd = some fd }), fd ∷ t)
]

-- A server socket that is open has the only new descriptor; one that is not has left the table as it was,
-- also where a descriptor was given and could not be bound. Closing an open one gives it back.
pub server_socket_lem :
    (sys : SocketSystem) (port now : ℕ) (t : List ℕ)
    → let (s, t') = server_socket sys port now t in
      (is_open s ≡ true → (fd : ℕ) × (s.fd ≡ some fd) × (t' ≡ fd ∷ t))
      × (is_open s ≡ false → t' ≡ t)
      × ((close_server s t').1 ≡ t)
unfolding server_socket close_server is_open release
server_socket_lem sys port now t = elim (Option-cases (sys.new_fd (listening port now) t)) [
  | inl e ↦ (λ h. absurd (ground (arith, e, h)), λ h. ground (arith, e), ground (arith, e))
  | inr (fd, e) ↦ elim (Bool-cases (sys.succeeds (listening port now))) [
    | inl on ↦ (
      λ h. (fd, ground (arith, e, on), ground (arith, e, on)),
      λ h. absurd (ground (arith, e, on, h)),
      ground (arith, e, on),
    )
    | inr off ↦ (
      λ h. absurd (ground (arith, e, off, h)),
      λ h. ground (arith, e, off),
      ground (arith, e, off),
    )
  ]
]
