-- ===== src/Tims/Socket/Owned.antt =====
-- The descriptor of TcpSocket of include/corerat/ipc/tims/tcp_socket.hpp, and of ServerSocket of
-- src/router/. What the system answers is a parameter, for a call at an instant.
use core_ra_t.Base.{
  ℕ, ◌≡◌, refl, Bool, true, ◌&&◌, Option, none, some, List, ◌∷◌, arith, Option-cases, Bool-cases,
  inl, inr, if◌then◌else◌,
}
use core_ra_t.Platform.Owner.{count, release, cons-once, count-cons, IsOwned}
use core_ra_t.Platform.Owner.Moves.{Within, Balances, Impl, Op, World, run, run-IsOwned}
use core_ra_t.Platform.File.{close_if_open, owned_by, close_lem, Close}

-- `connect`, the constructor of a ServerSocket, or `accept`: a TcpSocket takes the new descriptor over.
pub data SocketCall : Type 0 where
  connecting : List ℕ → ℕ → ℕ → SocketCall
  listening : ℕ → ℕ → SocketCall
  accepting : ℕ → SocketCall

-- socket(2) or accept(2), whether inet_pton takes the address, and whether connect(2), or bind(2) and
-- listen(2), succeed.
pub record SocketSystem : Type 0 where
  pub new_fd : SocketCall → List ℕ → Option ℕ
  pub is_address : List ℕ → Bool
  pub succeeds : SocketCall → Bool

-- A descriptor that the system returns was not open.
abbrev pub IsNew : SocketSystem → Type 0
IsNew sys = (c : SocketCall) (t : List ℕ) (fd : ℕ) → sys.new_fd c t ≡ some fd → count fd t ≡ 0

pub record TcpSocket : Type 0 where
  pub fd : Option ℕ

abbrev pub closed_socket : TcpSocket
closed_socket = record { fd = none }

unfoldable pub close_socket : TcpSocket → List ℕ → TcpSocket × List ℕ
close_socket s t = (closed_socket, close_if_open s.fd t)

-- Whether the calls after the one that gives the descriptor succeed.
unfoldable pub goes_on : SocketSystem → SocketCall → Bool
goes_on sys (connecting host port now) =
    sys.is_address host && sys.succeeds (connecting host port now)
goes_on sys (listening port now) = sys.succeeds (listening port now)
goes_on sys (accepting now) = true

-- The socket closes what it has, takes a new descriptor, and closes it again where it cannot be used.
unfoldable pub take_socket : SocketSystem → SocketCall → TcpSocket → List ℕ → TcpSocket × List ℕ
take_socket sys c s t =
    let t0 = (close_socket s t).1 in
    elim (sys.new_fd c t0) [
      | none ↦ (closed_socket, t0)
      | some fd ↦
          let opened : TcpSocket = record { fd = some fd } in
          if goes_on sys c then (opened, fd ∷ t0) else close_socket opened (fd ∷ t0)
    ]

abbrev pub socket_impl : SocketSystem → Impl TcpSocket SocketCall Close
socket_impl sys = record {
  empty = closed_socket;
  moved_from = λ s. closed_socket;
  acquire = take_socket sys;
  dispose = λ d s t. close_socket s t;
  at_end = Close.close;
}

abbrev pub owned : TcpSocket → List ℕ
owned s = owned_by s.fd

module _ (sys : SocketSystem) (new : IsNew sys) where
  take_lem :
      (c : SocketCall) (s : TcpSocket) (t : List ℕ)
      → Within owned s t
      → Balances owned s t (take_socket sys c s t)
  unfolding take_socket close_socket count release
  take_lem c s t (once, has) =
      let t0 = close_if_open s.fd t in
      let (once0, sum0) = close_lem s.fd t once has in
      elim (Option-cases (sys.new_fd c t0)) [
        | inl e ↦ (λ x. ground (arith, e, once0 x), λ x. ground (arith, e, sum0 x))
        | inr (fd, e) ↦ elim (Bool-cases (goes_on sys c)) [
          | inl on ↦
              let once1 = cons-once fd t0 once0 (new c t0 fd e) in
              (
                λ x. ground (arith, e, on, once1 x),
                λ x. ground (arith, e, on, sum0 x, count-cons x fd t0),
              )
          | inr off ↦ (λ x. ground (arith, e, off, once0 x), λ x. ground (arith, e, off, sum0 x))
        ]
      ]

  -- Whatever sockets connect, listen, accept, are closed, moved and destroyed, also where an address is
  -- none or a call fails: each descriptor of the table is open once, and was there before or is owned by
  -- exactly one socket; no socket owns a descriptor that is closed. The system returns descriptors that
  -- are not open.
  pub sockets-IsOwned :
      (others : List ℕ) (w : World TcpSocket) (ops : List (Op SocketCall Close))
      → IsOwned owned others w.table w.objects
      → IsOwned owned others
          (run (socket_impl sys) w ops).table
          (run (socket_impl sys) w ops).objects
  unfolding close_socket count
  sockets-IsOwned others w ops v =
      run-IsOwned (socket_impl sys) owned
        (record {
          empty_lem = λ x. refl;
          moved_lem = λ s x. refl;
          acquire_lem = take_lem;
          dispose_lem = λ d s t within.
              let (once0, sum0) = close_lem s.fd t within.0 within.1 in
              ((once0, λ x. omega (arith, sum0 x)), λ x. refl);
        })
        others w ops v
