-- ===== src/Evl/Network.antt =====
-- include/corerat/ipc/evl/evl_backend.hpp: the network mode of a mailbox, which sends datagrams to the
-- host of a system id, and create_network_config of include/corerat/ipc/mailbox.hpp.
-- Parameters: `inet_pton`, from the characters of an address to the address, and whether the socket
-- takes a datagram.
use core_ra_t.Base.{
  ℕ, zero, suc, ◌+◌, ◌/◌, ◌%◌, ◌^◌, ◌<◌, ◌≤◌, ◌≡◌, refl, ap, arith, Bool, true, false, ◌&&◌, Option,
  none, some, List, [], ◌∷◌, length, take, ltb, ◌==◌, if◌then◌else◌,
}
use core_ra_t.Message.Wire.{header_of, sizeof_wire_header}
use core_ra_t.Tims.Mailbox.{TimsResult, TimsMetadata, success, error_send}

abbrev pub oob_base_port : ℕ
oob_base_port = 42000

abbrev pub max_routes : ℕ
max_routes = 8

-- `static_cast<uint16_t>(kOobBasePort + (mailbox_id & 0x7FFF))`.
unfoldable pub port_for : ℕ → ℕ
port_for mailbox_id = (oob_base_port + mailbox_id % 2 ^ 15) % 2 ^ 16

unfoldable pub system_id_of : ℕ → ℕ
system_id_of mailbox_id = mailbox_id / 2 ^ 24 % 256

pub record Route : Type 0 where
  pub system_id : ℕ
  pub ip : List ℕ

pub record EvlNetworkConfig : Type 0 where
  pub local_system_id : ℕ
  pub routes : List Route
  pub route_count : ℕ

-- `strncpy` of at most 15 characters, up to the first zero.
unfoldable pub copy_ip : ℕ → List ℕ → List ℕ
copy_ip zero cs = []
copy_ip (suc n) [] = []
copy_ip (suc n) (c ∷ cs) = let rest = copy_ip n cs in if c == 0 then [] else c ∷ rest

unfoldable pub copy_routes : List Route → List Route
copy_routes [] = []
copy_routes (r ∷ rs) = record { system_id = r.system_id; ip = copy_ip 15 r.ip } ∷ copy_routes rs

-- The routes of a mailbox's configuration that `network_route_count` counts, at most 8 of them.
unfoldable pub create_network_config : ℕ → List Route → ℕ → EvlNetworkConfig
create_network_config local_system_id network_routes network_route_count =
    let count = (if ltb max_routes network_route_count then max_routes else network_route_count) in
    record {
      local_system_id = local_system_id;
      routes = copy_routes (take count network_routes);
      route_count = count;
    }

pub record NetworkRouteEntry : Type 0 where
  pub system_id : ℕ
  pub ip_addr : ℕ
  pub valid : Bool

abbrev pub no_route : NetworkRouteEntry
no_route = record { system_id = 0; ip_addr = 0; valid = false }

module _ (inet_pton : List ℕ → Option ℕ) where
  -- The loop of `create_oob_socket` over the first routes: an address that is not one is left out.
  unfoldable pub route_entries : List Route → List NetworkRouteEntry
  route_entries [] = []
  route_entries (r ∷ rs) =
      let rest = route_entries rs in
      elim (inet_pton r.ip) [
        | none ↦ no_route ∷ rest
        | some a ↦ record { system_id = r.system_id; ip_addr = a; valid = true } ∷ rest
      ]

  abbrev pub create_oob_socket : EvlNetworkConfig → List NetworkRouteEntry
  create_oob_socket config = route_entries (
      take (if ltb max_routes config.route_count then max_routes else config.route_count)
        config.routes)

-- The search of `send_oob_udp`.
unfoldable pub find_route : List NetworkRouteEntry → ℕ → Option ℕ
find_route [] sys = none
find_route (r ∷ rs) sys =
    if r.valid && r.system_id == sys then some r.ip_addr else find_route rs sys

pub record Datagram : Type 0 where
  pub ip_addr : ℕ
  pub port : ℕ
  pub bytes : List ℕ

-- What is sent, with the result; `taken` is the socket's answer.
unfoldable pub send_oob_udp :
    List NetworkRouteEntry → List ℕ → ℕ → Bool → TimsResult × Option Datagram
send_oob_udp routes bytes dest taken = elim (find_route routes (system_id_of dest)) [
  | none ↦ (error_send, none)
  | some a ↦
      if taken
      then (success, some (record { ip_addr = a; port = port_for dest; bytes = bytes }))
      else (error_send, none)
]

-- The metadata of a datagram: those of its header, or zeros if it is shorter than one.
unfoldable pub receive_oob_udp : List ℕ → TimsMetadata
receive_oob_udp bytes =
    if ltb (length bytes) sizeof_wire_header
    then record { src = 0; dest = 0; seq_nr = 0; priority = 0; flags = 0 }
    else record {
      src = (header_of bytes).src;
      dest = (header_of bytes).dest;
      seq_nr = (header_of bytes).seq_number;
      priority = 0;
      flags = (header_of bytes).flags % 256;
    }

-- The first route for a system id whose address is one.
unfoldable pub first_route : (List ℕ → Option ℕ) → List Route → ℕ → Option ℕ
first_route inet_pton [] sys = none
first_route inet_pton (r ∷ rs) sys =
    let rest = first_route inet_pton rs sys in
    if r.system_id == sys then (elim (inet_pton r.ip) [ none ↦ rest | some a ↦ some a ]) else rest

find_route-route_entries :
    (inet_pton : List ℕ → Option ℕ) (rs : List Route) (sys : ℕ)
    → find_route (route_entries inet_pton rs) sys ≡ first_route inet_pton rs sys
unfolding find_route route_entries first_route
find_route-route_entries inet_pton [] sys = refl
find_route-route_entries inet_pton (r ∷ rs) sys =
    ground (arith, find_route-route_entries inet_pton rs sys)

-- A message goes to the address of the first route that is configured for the system id of its
-- destination, and to the port of the destination; without such a route, or where the socket does not
-- take it, nothing is sent and the result is ERROR_SEND. Routes beyond the eighth are not used.
pub send_oob_udp_lem :
    (inet_pton : List ℕ → Option ℕ) (config : EvlNetworkConfig) (bytes : List ℕ) (dest : ℕ)
    (taken : Bool)
    → send_oob_udp (create_oob_socket inet_pton config) bytes dest taken
      ≡ (elim (first_route inet_pton
          (take
            (if ltb max_routes config.route_count then max_routes else config.route_count)
            config.routes)
          (system_id_of dest)) [
            | none ↦ (error_send, none)
            | some a ↦
                if taken
                then (success, some (record { ip_addr = a; port = port_for dest; bytes = bytes }))
                else (error_send, none)
          ])
unfolding send_oob_udp
send_oob_udp_lem inet_pton config bytes dest taken =
    let routes =
      take (if ltb max_routes config.route_count then max_routes else config.route_count)
        config.routes in
    ap
      (λ (o : Option ℕ). elim o as (λ x. TimsResult × Option Datagram) [
        | none ↦ (error_send, none)
        | some a ↦
            if taken
            then (success, some (record { ip_addr = a; port = port_for dest; bytes = bytes }))
            else (error_send, none)
      ])
      (find_route-route_entries inet_pton routes (system_id_of dest))

-- A port is one of 42000 to 65535 only for an id whose low 15 bits are below 23536. From there on the
-- 16 bits of the port wrap, down to 0, and every id shares its port with those that have the same low
-- 15 bits, whatever their class.
pub port_for-wraps :
    (id : ℕ)
    → (id % 2 ^ 15 < 23536 → port_for id ≡ 42000 + id % 2 ^ 15)
      × (23536 ≤ id % 2 ^ 15 → port_for id + 23536 ≡ id % 2 ^ 15)
      × ((id' : ℕ) → id % 2 ^ 15 ≡ id' % 2 ^ 15 → port_for id ≡ port_for id')
unfolding port_for
port_for-wraps id = (λ h. omega (arith, h), λ h. omega (arith, h), λ id' h. omega (arith, h))
