-- ===== src/Router/Options/Print.antt =====
-- The arguments that ask for given options, and what main's loop makes of them.
use core_ra_t.Base.{
  ℕ, ◌^◌, ◌%◌, ◌<◌, ◌≡◌, refl, sym, ap, ◌∙◌, Option, none, some, List, [], ◌∷◌, ◌++◌, append-nil,
  append_assoc, arith, ltb, ltb→lt, if◌then◌else◌, if-elim,
}
use core_ra_t.Base.Text.{
  codes, is_digit, text_eq, decimal, stoul, stoul-decimal, decimal-IsNumeral, split_first_numeral,
  split_last_numeral,
}
use core_ra_t.Router.Options.{
  Options, PeerConfig, UpstreamConfig, SystemRouteConfig, options, thrown, parse_loop, parse_args,
  parse_host_port, apply_option, set_peer, set_upstream, set_system_route, to_uint16, to_uint8,
  defaults, kind, port_option, max_msg_size_option,
}

-- HOST:PORT.
abbrev pub print_host_port : List ℕ → ℕ → List ℕ
print_host_port host port = host ++ (b':' ∷ decimal port)

abbrev pub print_peers : List PeerConfig → List (List ℕ)
print_peers [] = []
print_peers (p ∷ ps) = codes "--peer" ∷ print_host_port p.host p.port ∷ print_peers ps

abbrev pub print_upstream : Option UpstreamConfig → List (List ℕ)
print_upstream none = []
print_upstream (some u) = codes "--upstream" ∷ print_host_port u.host u.port ∷ []

abbrev pub print_routes : List SystemRouteConfig → List (List ℕ)
print_routes [] = []
print_routes (s ∷ ss) =
    codes "--system-route"
    ∷ (decimal s.system_id ++ (b'@' ∷ print_host_port s.host s.port))
    ∷ print_routes ss

abbrev pub print : Options → List (List ℕ)
print o =
    codes "--port"
    ∷ decimal o.port
    ∷ codes "--max-msg-size"
    ∷ decimal o.max_msg_size
    ∷ (print_peers o.peers ++ (print_upstream o.upstream_config ++ print_routes o.system_routes))

-- The numbers of the options fit the types of the variables.
abbrev pub PeersInRange : List PeerConfig → Type 0
PeersInRange [] = Unit
PeersInRange (p ∷ ps) = (p.port < 2 ^ 16) × PeersInRange ps

abbrev pub UpstreamInRange : Option UpstreamConfig → Type 0
UpstreamInRange none = Unit
UpstreamInRange (some u) = u.port < 2 ^ 16

abbrev pub RoutesInRange : List SystemRouteConfig → Type 0
RoutesInRange [] = Unit
RoutesInRange (s ∷ ss) = (s.system_id < 2 ^ 8) × (s.port < 2 ^ 16) × RoutesInRange ss

pub record InRange (o : Options) : Type 0 where
  pub port_fits : o.port < 2 ^ 16
  pub size_fits : o.max_msg_size < 2 ^ 64
  pub peers_fit : PeersInRange o.peers
  pub upstream_fits : UpstreamInRange o.upstream_config
  pub routes_fit : RoutesInRange o.system_routes

module _ (d : ℕ) where
  stoul_fits : (n : ℕ) → n < 2 ^ 64 → stoul (decimal n) ≡ some n
  stoul_fits n h = ground (arith, stoul-decimal n, h)

  host_port_lem :
      (host : List ℕ) (port : ℕ)
      → port < 2 ^ 16
      → parse_host_port d (print_host_port host port) ≡ some (host, port)
  unfolding parse_host_port to_uint16 is_digit
  host_port_lem host port h =
      let split = split_last_numeral b':' host (decimal-IsNumeral port) refl in
      ground (arith, split, stoul_fits port (omega (arith, h)), h)

  -- An option that is taken: the loop goes on behind its value.
  module _ (value : List ℕ) (rest : List (List ℕ)) (o : Options) where
    Accepted : (name : List ℕ) → Option Options → Type 0
    Accepted name applied =
        parse_loop d (name ∷ value ∷ rest) o
        ≡ elim applied [ none ↦ thrown | some o' ↦ parse_loop d rest o' ]

    port-Accepted : Accepted (codes "--port") (apply_option d port_option o value)
    unfolding Accepted parse_loop kind text_eq
    port-Accepted = refl

    max_msg_size-Accepted :
        Accepted (codes "--max-msg-size") (apply_option d max_msg_size_option o value)
    unfolding Accepted parse_loop kind text_eq
    max_msg_size-Accepted = refl

    peer-Accepted : Accepted (codes "--peer") (set_peer d o value)
    unfolding Accepted parse_loop kind text_eq apply_option
    peer-Accepted = refl

    upstream-Accepted : Accepted (codes "--upstream") (set_upstream d o value)
    unfolding Accepted parse_loop kind text_eq apply_option
    upstream-Accepted = refl

    system_route-Accepted : Accepted (codes "--system-route") (set_system_route d o value)
    unfolding Accepted parse_loop kind text_eq apply_option
    system_route-Accepted = refl

  parse_peers :
      (ps : List PeerConfig) (rest : List (List ℕ)) (o : Options)
      → PeersInRange ps
      → parse_loop d (print_peers ps ++ rest) o
        ≡ parse_loop d rest (record o { peers = o.peers ++ ps })
  unfolding Accepted set_peer
  parse_peers [] rest o h =
      ap (λ ps. parse_loop d rest (record o { peers = ps })) (sym (append-nil o.peers))
  parse_peers (p ∷ ps) rest o (h, hs) = cc (
    peer-Accepted (print_host_port p.host p.port) (print_peers ps ++ rest) o,
    host_port_lem p.host p.port h,
    parse_peers ps rest (record o { peers = o.peers ++ (p ∷ []) }) hs,
    append_assoc o.peers (p ∷ []) ps,
  )

  parse_upstream :
      (u : Option UpstreamConfig) (rest : List (List ℕ)) (o : Options)
      → UpstreamInRange u
      → o.upstream_config ≡ none
      → parse_loop d (print_upstream u ++ rest) o
        ≡ parse_loop d rest (record o { upstream_config = u })
  unfolding Accepted set_upstream
  parse_upstream none rest o h e = ap (λ u. parse_loop d rest (record o { upstream_config = u })) e
  parse_upstream (some u) rest o h e =
      cc (upstream-Accepted (print_host_port u.host u.port) rest o, host_port_lem u.host u.port h)

  parse_routes :
      (ss : List SystemRouteConfig) (rest : List (List ℕ)) (o : Options)
      → RoutesInRange ss
      → parse_loop d (print_routes ss ++ rest) o
        ≡ parse_loop d rest (record o { system_routes = o.system_routes ++ ss })
  unfolding Accepted set_system_route to_uint8 is_digit
  parse_routes [] rest o h =
      ap (λ ss. parse_loop d rest (record o { system_routes = ss }))
        (sym (append-nil o.system_routes))
  parse_routes (s ∷ ss) rest o (id_fits, fits, hs) =
      let address = print_host_port s.host s.port in
      let low : s.system_id % 2 ^ 8 ≡ s.system_id = omega (arith, id_fits) in
      cc (
        system_route-Accepted (decimal s.system_id ++ (b'@' ∷ address)) (print_routes ss ++ rest) o,
        split_first_numeral b'@' address (decimal-IsNumeral s.system_id) refl,
        stoul_fits s.system_id (omega (arith, id_fits)),
        low,
        host_port_lem s.host s.port fits,
        parse_routes ss rest (record o { system_routes = o.system_routes ++ (s ∷ []) }) hs,
        append_assoc o.system_routes (s ∷ []) ss,
      )

  -- The port is cut to 16 bits, the size is taken whole; what needs more than 64 bits throws.
  parse_port :
      (n : ℕ) (rest : List (List ℕ)) (o : Options)
      → n < 2 ^ 64
      → parse_loop d (codes "--port" ∷ decimal n ∷ rest) o
        ≡ parse_loop d rest (record o { port = n % 2 ^ 16 })
  unfolding Accepted apply_option to_uint16
  parse_port n rest o h = cc (port-Accepted (decimal n) rest o, stoul_fits n h)

  parse_size :
      (n : ℕ) (rest : List (List ℕ)) (o : Options)
      → n < 2 ^ 64
      → parse_loop d (codes "--max-msg-size" ∷ decimal n ∷ rest) o
        ≡ parse_loop d rest (record o { max_msg_size = n })
  unfolding Accepted apply_option
  parse_size n rest o h = cc (max_msg_size-Accepted (decimal n) rest o, stoul_fits n h)

  -- Main's loop, on the arguments that ask for options whose numbers fit their types, ends with
  -- these options, whatever the host names are (also those that hold a colon or an at sign).
  pub parse_args-print :
      (o : Options) → InRange o → o.rejected ≡ [] → parse_args d (print o) ≡ options o
  unfolding parse_args parse_loop
  parse_args-print o fits e =
      let o1 : Options = record (defaults d) { port = o.port } in
      let o2 : Options = record o1 { max_msg_size = o.max_msg_size } in
      let o3 : Options = record o2 { peers = o.peers } in
      let o4 : Options = record o3 { upstream_config = o.upstream_config } in
      let routes = print_routes o.system_routes in
      let upstream_on = print_upstream o.upstream_config ++ routes in
      let size_on = print_peers o.peers ++ upstream_on in
      let port_on = codes "--max-msg-size" ∷ decimal o.max_msg_size ∷ size_on in
      let low : o.port % 2 ^ 16 ≡ o.port = omega (arith, fits.port_fits) in
      parse_port o.port port_on (defaults d) (omega (arith, fits.port_fits))
      ∙ ap (λ n. parse_loop d port_on (record (defaults d) { port = n })) low
      ∙ parse_size o.max_msg_size size_on o1 fits.size_fits
      ∙ parse_peers o.peers upstream_on o2 fits.peers_fit
      ∙ parse_upstream o.upstream_config routes o3 fits.upstream_fits refl
      ∙ ap (λ args. parse_loop d args o4) (sym (append-nil routes))
      ∙ parse_routes o.system_routes [] o4 fits.routes_fit
      ∙ ap (λ r. options (record o { rejected = r })) (sym e)

  -- Main's loop, on --port with a decimal number, goes on with the number modulo 2^16 if it needs
  -- no more than 64 bits, so a port out of range is another port; else the exception of stoul ends
  -- the program.
  pub parse_args-port :
      (n : ℕ) (rest : List (List ℕ))
      → parse_args d (codes "--port" ∷ decimal n ∷ rest) ≡ (
          if ltb n (2 ^ 64)
          then parse_loop d rest (record (defaults d) { port = n % 2 ^ 16 })
          else thrown)
  unfolding parse_args Accepted apply_option to_uint16
  parse_args-port n rest =
      if-elim (λ x. parse_loop d (codes "--port" ∷ decimal n ∷ rest) (defaults d) ≡ x)
        (ltb n (2 ^ 64)) (λ h. parse_port n rest (defaults d) (ltb→lt n (2 ^ 64) h))
        (λ h. cc (port-Accepted (decimal n) rest (defaults d), stoul-decimal n, h))
