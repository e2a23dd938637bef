-- ===== src/Router/Options/Tests.antt =====
-- The command line of the routers on concrete arguments, and the theorems applied to some.
use core_ra_t.Base.{ℕ, ◌≡◌, refl, true, false, some, List, [], ◌∷◌, arith}
use core_ra_t.Base.Text.{
  codes, text_eq, is_digit, digits, magnitude, signed, is_space, stoul, split_last, decimal,
}
use core_ra_t.Router.Options.{
  Options, PeerConfig, SystemRouteConfig, UpstreamConfig, options, kind, parse_host_port,
  set_upstream, apply_option, parse_loop, parse_args, to_uint16, defaults, exit, terminated,
  tcp_main, evl_main,
}
use core_ra_t.Router.Options.Print.{print, InRange, parse_args-print, parse_args-port}
use core_ra_t.Router.Options.Range.{parse_args-InRange}

abbrev a_peer : PeerConfig
a_peer = record { host = codes "::1"; port = 2002 }

abbrev a_route : SystemRouteConfig
a_route = record { system_id = 7; host = codes "a@b"; port = 2003 }

abbrev an_upstream : UpstreamConfig
an_upstream = record { host = codes "up"; port = 2004 }

abbrev a_choice : Options
a_choice = record {
  port = 2001;
  max_msg_size = 1024;
  peers = a_peer ∷ [];
  upstream_config = some an_upstream;
  system_routes = a_route ∷ [];
  rejected = [];
}

abbrev a_choice-InRange : InRange a_choice
a_choice-InRange = record {
  port_fits = omega arith;
  size_fits = omega arith;
  peers_fit = (omega arith, tt);
  upstream_fits = omega arith;
  routes_fit = (omega arith, omega arith, tt);
}

abbrev a_line : List (List ℕ)
a_line = codes "--verbose" ∷ codes "-m" ∷ codes " +12x" ∷ codes "-u" ∷ codes "h:9" ∷ codes "-p" ∷ []

a_line_parsed :
    parse_args 2000 a_line
    ≡ options (record (defaults 2000) {
      max_msg_size = 12;
      upstream_config = some (record { host = codes "h"; port = 9 });
    })
unfolding parse_args parse_loop kind text_eq apply_option set_upstream parse_host_port to_uint16
    stoul signed magnitude digits is_digit is_space split_last
a_line_parsed = refl

no_number : tcp_main (λ o. true) (codes "--port" ∷ codes "http" ∷ []) ≡ terminated
unfolding tcp_main parse_args parse_loop kind text_eq apply_option stoul signed magnitude is_digit
    is_space
no_number = refl

usage_asked : evl_main (λ o. false) (codes "-h" ∷ []) ≡ exit 0
unfolding evl_main parse_args parse_loop kind text_eq
usage_asked = refl

not_bound : evl_main (λ o. false) [] ≡ exit 1
unfolding evl_main parse_args parse_loop
not_bound = refl

parse_args-print_example : parse_args 2000 (print a_choice) ≡ options a_choice
parse_args-print_example = parse_args-print 2000 a_choice a_choice-InRange refl

parse_args-port_example :
    parse_args 2000 (codes "--port" ∷ decimal 70000 ∷ [])
    ≡ options (record (defaults 2000) { port = 4464 })
unfolding parse_loop
parse_args-port_example = parse_args-port 2000 70000 []

parse_args-InRange_example : InRange (record (defaults 2000) {
  max_msg_size = 12;
  upstream_config = some (record { host = codes "h"; port = 9 });
})
parse_args-InRange_example = parse_args-InRange 2000 (omega arith) a_line _ a_line_parsed
