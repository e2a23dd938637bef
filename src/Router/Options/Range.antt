-- ===== src/Router/Options/Range.antt =====
-- The range of the numbers that main's loop hands to the router.
use core_ra_t.Base.{
  ℕ, ◌%◌, ◌^◌, ◌<◌, ◌≡◌, Bool, true, false, none, some, List, [], ◌∷◌, ◌++◌, arith, Option-cases,
  inl, inr, subst, refl,
}
use core_ra_t.Base.Text.{magnitude, signed, stoul, split_first}
use core_ra_t.Router.Options.{
  Options, PeerConfig, SystemRouteConfig, OptionKind, kind, options, thrown, port_option,
  max_msg_size_option, peer_option, upstream_option, system_route_option, help_option,
  unknown_option, parse_loop, parse_args, parse_host_port, apply_option, set_peer, set_upstream,
  set_system_route, to_uint16, to_uint8, defaults,
}
use core_ra_t.Router.Options.Print.{InRange, PeersInRange, RoutesInRange}

magnitude_fits : (b : Bool) (s : List ℕ) (n : ℕ) → magnitude b s ≡ some n → n < 2 ^ 64
unfolding magnitude
magnitude_fits b [] n h = ground (arith, h)
magnitude_fits b (c ∷ s) n h = ground (arith, h)

stoul_fits : (s : List ℕ) (n : ℕ) → stoul s ≡ some n → n < 2 ^ 64
unfolding stoul signed
stoul_fits [] n h = ground (arith, h)
stoul_fits (c ∷ s) n h = ground (
  arith,
  h,
  stoul_fits s n,
  magnitude_fits false s n,
  magnitude_fits true s n,
  magnitude_fits false (c ∷ s) n,
)

module _ (d : ℕ) (d_fits : d < 2 ^ 16) where
  host_port_fits :
      (s host : List ℕ) (port : ℕ) → parse_host_port d s ≡ some (host, port) → port < 2 ^ 16
  unfolding parse_host_port to_uint16
  host_port_fits s host port h = ground (arith, h, d_fits)

  peers_snoc :
      (ps : List PeerConfig) (p : PeerConfig)
      → PeersInRange ps
      → p.port < 2 ^ 16
      → PeersInRange (ps ++ (p ∷ []))
  peers_snoc [] p h k = (k, tt)
  peers_snoc (q ∷ ps) p (a, h) k = (a, peers_snoc ps p h k)

  routes_snoc :
      (ss : List SystemRouteConfig) (s : SystemRouteConfig)
      → RoutesInRange ss
      → s.system_id < 2 ^ 8
      → s.port < 2 ^ 16
      → RoutesInRange (ss ++ (s ∷ []))
  routes_snoc [] s h k l = (k, l, tt)
  routes_snoc (q ∷ ss) s (a, b, h) k l = (a, b, routes_snoc ss s h k l)

  apply_option_fits :
      (k : OptionKind) (o o' : Options) (value : List ℕ)
      → InRange o
      → apply_option d k o value ≡ some o'
      → InRange o'
  unfolding apply_option set_peer set_upstream set_system_route to_uint16 to_uint8
  apply_option_fits port_option o o' value fits h = elim (Option-cases (stoul value)) [
    | inl e ↦ absurd (ground (arith, h, e))
    | inr (n, e) ↦
        let now : record o { port = n % 2 ^ 16 } ≡ o' = cc (h, e) in
        subst InRange now (record {
          port_fits = omega (arith);
          size_fits = fits.size_fits;
          peers_fit = fits.peers_fit;
          upstream_fits = fits.upstream_fits;
          routes_fit = fits.routes_fit;
        })
  ]
  apply_option_fits max_msg_size_option o o' value fits h = elim (Option-cases (stoul value)) [
    | inl e ↦ absurd (ground (arith, h, e))
    | inr (n, e) ↦
        let now : record o { max_msg_size = n } ≡ o' = cc (h, e) in
        subst InRange now (record {
          port_fits = fits.port_fits;
          size_fits = stoul_fits value n e;
          peers_fit = fits.peers_fit;
          upstream_fits = fits.upstream_fits;
          routes_fit = fits.routes_fit;
        })
  ]
  apply_option_fits peer_option o o' value fits h = elim (Option-cases (parse_host_port d value)) [
    | inl e ↦ absurd (ground (arith, h, e))
    | inr ((host, port), e) ↦
        let p : PeerConfig = record { host = host; port = port } in
        let now : record o { peers = o.peers ++ (p ∷ []) } ≡ o' = cc (h, e) in
        let fits' = peers_snoc o.peers p fits.peers_fit (host_port_fits value host port e) in
        subst InRange now (record {
          port_fits = fits.port_fits;
          size_fits = fits.size_fits;
          peers_fit = fits';
          upstream_fits = fits.upstream_fits;
          routes_fit = fits.routes_fit;
        })
  ]
  apply_option_fits upstream_option o o' value fits h =
      elim (Option-cases (parse_host_port d value)) [
        | inl e ↦ absurd (ground (arith, h, e))
        | inr ((host, port), e) ↦
            let now : record o { upstream_config = some (record { host = host; port = port }) }
                ≡ o' =
              cc (h, e) in
            subst InRange now (record {
              port_fits = fits.port_fits;
              size_fits = fits.size_fits;
              peers_fit = fits.peers_fit;
              upstream_fits = host_port_fits value host port e;
              routes_fit = fits.routes_fit;
            })
      ]
  apply_option_fits system_route_option o o' value fits h =
      elim (Option-cases (split_first b'@' value)) [
        | inl e ↦
            let now : record o { rejected = o.rejected ++ (value ∷ []) } ≡ o' = cc (h, e) in
            subst InRange now (record {
              port_fits = fits.port_fits;
              size_fits = fits.size_fits;
              peers_fit = fits.peers_fit;
              upstream_fits = fits.upstream_fits;
              routes_fit = fits.routes_fit;
            })
        | inr ((number, address), e) ↦ elim (Option-cases (stoul number)) [
          | inl f ↦ absurd (ground (arith, h, e, f))
          | inr (n, f) ↦ elim (Option-cases (parse_host_port d address)) [
            | inl g ↦ absurd (ground (arith, h, e, f, g))
            | inr ((host, port), g) ↦
                let s : SystemRouteConfig = record {
                  system_id = n % 2 ^ 8;
                  host = host;
                  port = port;
                } in
                let now : record o { system_routes = o.system_routes ++ (s ∷ []) } ≡ o' =
                  cc (h, e, f, g) in
                let fits' =
                  routes_snoc o.system_routes s fits.routes_fit (omega arith)
                    (host_port_fits address host port g) in
                subst InRange now (record {
                  port_fits = fits.port_fits;
                  size_fits = fits.size_fits;
                  peers_fit = fits.peers_fit;
                  upstream_fits = fits.upstream_fits;
                  routes_fit = fits';
                })
          ]
        ]
      ]
  apply_option_fits help_option o o' value fits h = subst InRange (cc (h)) fits
  apply_option_fits unknown_option o o' value fits h = subst InRange (cc (h)) fits

  step_fits :
      (arg value : List ℕ) (rest : List (List ℕ)) (o o' : Options)
      → InRange o
      → ((m : Options) → InRange m → parse_loop d rest m ≡ options o' → InRange o')
      → (parse_loop d (value ∷ rest) o ≡ options o' → InRange o')
      → parse_loop d (arg ∷ value ∷ rest) o ≡ options o'
      → InRange o'
  unfolding parse_loop
  step_fits arg value rest o o' fits on_taken on_skipped h = go (kind arg) refl
    where
      taken :
          (k : OptionKind)
          → elim (apply_option d k o value) [ none ↦ thrown | some m ↦ parse_loop d rest m ]
            ≡ options o'
          → InRange o'
      taken k same = elim (Option-cases (apply_option d k o value)) [
        | inl e ↦ absurd (ground (arith, same, e))
        | inr (m, e) ↦ on_taken m (apply_option_fits k o m value fits e) (cc (same, e))
      ]

      go : (k : OptionKind) → kind arg ≡ k → InRange o'
      go help_option e = absurd (ground (arith, h, e))
      go port_option e = taken port_option (cc (h, e))
      go max_msg_size_option e = taken max_msg_size_option (cc (h, e))
      go peer_option e = taken peer_option (cc (h, e))
      go upstream_option e = taken upstream_option (cc (h, e))
      go system_route_option e = taken system_route_option (cc (h, e))
      go unknown_option e = on_skipped (cc (h, e))

  parse_loop_fits :
      (argv : List (List ℕ)) (o o' : Options)
      → InRange o
      → parse_loop d argv o ≡ options o'
      → InRange o'
  unfolding parse_loop
  parse_loop_fits [] o o' fits h = subst InRange (cc (h)) fits
  parse_loop_fits (arg ∷ []) o o' fits h = go (kind arg) refl
    where
      go : (k : OptionKind) → kind arg ≡ k → InRange o'
      go help_option e = absurd (ground (arith, h, e))
      go port_option e = subst InRange (cc (h, e)) fits
      go max_msg_size_option e = subst InRange (cc (h, e)) fits
      go peer_option e = subst InRange (cc (h, e)) fits
      go upstream_option e = subst InRange (cc (h, e)) fits
      go system_route_option e = subst InRange (cc (h, e)) fits
      go unknown_option e = subst InRange (cc (h, e)) fits
  parse_loop_fits (arg ∷ value ∷ rest) o o' fits h =
      step_fits arg value rest o o' fits (λ m. parse_loop_fits rest m o')
        (parse_loop_fits (value ∷ rest) o o' fits) h

  -- Whatever the arguments are, the options that main's loop ends with have ports of 16 bits, system
  -- ids of 8 bits and a largest message size of 64 bits.
  pub parse_args-InRange :
      (argv : List (List ℕ)) (o : Options) → parse_args d argv ≡ options o → InRange o
  unfolding parse_args
  parse_args-InRange argv o h =
      let fits : InRange (defaults d) = record {
        port_fits = d_fits;
        size_fits = omega arith;
        peers_fit = tt;
        upstream_fits = tt;
        routes_fit = tt;
      } in
      parse_loop_fits argv (defaults d) o fits h
