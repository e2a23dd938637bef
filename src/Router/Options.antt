-- ===== src/Router/Options.antt =====
-- The command line of both routers: main of src/router/tcp_router.cpp and src/router/evl_router.cpp,
-- the same text but for the names. An argument is the list of its characters. What an invalid
-- --system-route prints is kept in `rejected`; the usage text is not modelled.
mod Range
mod Tests
mod Print
use core_ra_t.Base.{
  ℕ, ◌*◌, ◌%◌, ◌^◌, Bool, true, false, ◌||◌, Option, none, some, List, [], ◌∷◌, ◌++◌, if◌then◌else◌,
}
use core_ra_t.Base.Text.{codes, text_eq, stoul, split_first, split_last}

pub record PeerConfig : Type 0 where
  pub host : List ℕ
  pub port : ℕ

pub record UpstreamConfig : Type 0 where
  pub host : List ℕ
  pub port : ℕ

pub record SystemRouteConfig : Type 0 where
  pub system_id : ℕ
  pub host : List ℕ
  pub port : ℕ

-- The variables of main that the loop sets.
pub record Options : Type 0 where
  pub port : ℕ
  pub max_msg_size : ℕ
  pub peers : List PeerConfig
  pub upstream_config : Option UpstreamConfig
  pub system_routes : List SystemRouteConfig
  pub rejected : List (List ℕ)

pub data OptionKind : Type 0 where
  port_option max_msg_size_option peer_option upstream_option : OptionKind
  system_route_option help_option unknown_option : OptionKind

-- The loop ends with the options, with the usage text, or with an exception that nothing catches.
pub data Parsed : Type 0 where
  options : Options → Parsed
  help : Parsed
  thrown : Parsed

unfoldable pub to_uint16 : ℕ → ℕ
to_uint16 n = n % 2 ^ 16

unfoldable pub to_uint8 : ℕ → ℕ
to_uint8 n = n % 2 ^ 8

unfoldable pub kind : List ℕ → OptionKind
unfolding text_eq
kind arg =
    if text_eq arg (codes "--port") || text_eq arg (codes "-p")
    then port_option
    else if text_eq arg (codes "--max-msg-size") || text_eq arg (codes "-m")
    then max_msg_size_option
    else if text_eq arg (codes "--peer") || text_eq arg (codes "-r")
    then peer_option
    else if text_eq arg (codes "--upstream") || text_eq arg (codes "-u")
    then upstream_option
    else if text_eq arg (codes "--system-route") || text_eq arg (codes "-s")
    then system_route_option
    else if text_eq arg (codes "--help") || text_eq arg (codes "-h")
    then help_option
    else unknown_option

module _ (default_port : ℕ) where
  unfoldable pub parse_host_port : List ℕ → Option (List ℕ × ℕ)
  parse_host_port s = elim (split_last b':' s) [
    | none ↦ some (s, default_port)
    | some (host, number) ↦ elim (stoul number) [ none ↦ none | some n ↦ some (host, to_uint16 n) ]
  ]

  unfoldable pub set_peer : Options → List ℕ → Option Options
  set_peer o value = elim (parse_host_port value) [
    | none ↦ none
    | some (h, p) ↦ some (record o { peers = o.peers ++ (record { host = h; port = p } ∷ []) })
  ]

  unfoldable pub set_upstream : Options → List ℕ → Option Options
  set_upstream o value = elim (parse_host_port value) [
    | none ↦ none
    | some (h, p) ↦ some (record o { upstream_config = some (record { host = h; port = p }) })
  ]

  unfoldable pub set_system_route : Options → List ℕ → Option Options
  set_system_route o value = elim (split_first b'@' value) [
    | none ↦ some (record o { rejected = o.rejected ++ (value ∷ []) })
    | some (number, address) ↦ elim (stoul number) [
      | none ↦ none
      | some n ↦ elim (parse_host_port address) [
        | none ↦ none
        | some (h, p) ↦
            let route : SystemRouteConfig = record { system_id = to_uint8 n; host = h; port = p } in
            some (record o { system_routes = o.system_routes ++ (route ∷ []) })
      ]
    ]
  ]

  -- An option with its value: `none` is an exception of `stoul`.
  unfoldable pub apply_option : OptionKind → Options → List ℕ → Option Options
  apply_option port_option o value = elim (stoul value) [
    | none ↦ none
    | some n ↦ some (record o { port = to_uint16 n })
  ]
  apply_option max_msg_size_option o value = elim (stoul value) [
    | none ↦ none
    | some n ↦ some (record o { max_msg_size = n })
  ]
  apply_option peer_option o value = set_peer o value
  apply_option upstream_option o value = set_upstream o value
  apply_option system_route_option o value = set_system_route o value
  apply_option help_option o value = some o
  apply_option unknown_option o value = some o

  -- The loop over argv from index i on. An option that is the last argument has no value and is
  -- passed over, as an unknown argument is.
  unfoldable pub parse_loop : List (List ℕ) → Options → Parsed
  parse_loop [] o = options o
  parse_loop (arg ∷ []) o = elim (kind arg) [ help_option ↦ help | _ ↦ options o ]
  parse_loop (arg ∷ value ∷ rest) o = elim (kind arg) [
    | help_option ↦ help
    | unknown_option ↦ parse_loop (value ∷ rest) o
    | k ↦ elim (apply_option k o value) [ none ↦ thrown | some o' ↦ parse_loop rest o' ]
  ]

  abbrev pub defaults : Options
  defaults = record {
    port = default_port;
    max_msg_size = 256 * 1024;
    peers = [];
    upstream_config = none;
    system_routes = [];
    rejected = [];
  }

  unfoldable pub parse_args : List (List ℕ) → Parsed
  parse_args argv = parse_loop argv defaults

-- How main goes on: it serves until a signal stops it, returns, or an exception ends the program.
pub data Outcome : Type 0 where
  serve : Options → Outcome
  exit : ℕ → Outcome
  terminated : Outcome

after_loop : (Options → Bool) → Parsed → Outcome
after_loop is_ready (options o) = if is_ready o then serve o else exit 1
after_loop is_ready help = exit 0
after_loop is_ready thrown = terminated

abbrev pub tcp_default_port : ℕ
tcp_default_port = 2000

abbrev pub evl_default_port : ℕ
evl_default_port = 2000

-- `is_ready` says whether the router that is built from the options has its listening socket.
unfoldable pub tcp_main : (Options → Bool) → List (List ℕ) → Outcome
unfolding after_loop
tcp_main is_ready argv = after_loop is_ready (parse_args tcp_default_port argv)

unfoldable pub evl_main : (Options → Bool) → List (List ℕ) → Outcome
unfolding after_loop
evl_main is_ready argv = after_loop is_ready (parse_args evl_default_port argv)
