-- ===== src/Dns/Service/Servers.antt =====
-- `DnsService::edit_upstreams`: servers are added, removed, parked and taken back.
use ad_block.Base.{
  ℕ, Bool, false, ◌&&◌, List, [], ◌∷◌, ◌++◌, Option, none, some, any, is_empty, ◌==◌, if◌then◌else◌,
  Result, ok, err,
}
use ad_block.Dns.Cache.{LruCache, Key, Entry}
use ad_block.Dns.Service.Changes.{ChangeError, Configured, no_overrides, apply_settings}
use ad_block.Dns.Upstream.Addr.{
  UpstreamAddr, AddrError, Scheme, udp, tcp, tls, https, scheme_text, parse, hostname,
}
use ad_block.Dns.Upstream.Bootstrap.{IpAddr, v4, v6, BootstrapError}
use ad_block.Dns.Upstream.Health.{EchSupport}
use ad_block.Dns.Upstream.Probe.{probe_ech_spec}
use ad_block.Dns.Upstream.Resolver.{Attempt, Resolver}
use ad_block.Net.{Ipv4Addr, ipv4_text}
use ad_block.Net.Ports.{port_text}
use ad_block.Text.{Text, codes, text_eq, is_char, trim_start, trim_start_matches}

-- The scheme of an added server is one of the three that the command knows, or `tcp`.
pub data UpstreamCommand : Type 0 where
  add : Text → Text → Scheme → UpstreamCommand
  delete : Text → UpstreamCommand
  set_enabled : Text → Bool → UpstreamCommand

pub data EditError : Type 0 where
  no_upstream already_configured ipv6_only not_answering : EditError
  bad_address : AddrError → EditError
  not_resolved : BootstrapError → EditError
  not_applied : ChangeError → EditError

-- The servers without the first one of the spec, and with another in its place.
abbrev keep_first : Text → Option (List Text) → Option (List Text)
keep_first t none = none
keep_first t (some ts) = some (t ∷ ts)

unfoldable pub remove_spec : Text → List Text → Option (List Text)
remove_spec spec [] = none
remove_spec spec (t ∷ ts) = if text_eq t spec then some ts else keep_first t (remove_spec spec ts)

unfoldable pub replace_spec : Text → Text → List Text → Option (List Text)
replace_spec spec next [] = none
replace_spec spec next (t ∷ ts) =
    if text_eq t spec then some (next ∷ ts) else keep_first t (replace_spec spec next ts)

-- The spec of a server, switched on or off.
unfoldable pub switched : Text → Bool → Text
switched spec enabled =
    let bare = trim_start (trim_start_matches (is_char b'!') spec) in
    if enabled then bare else b'!' ∷ bare

abbrev path_of : Scheme → Text → Text
path_of https path = path
path_of tls path = []
path_of udp path = []
path_of tcp path = []

-- `{scheme}://{host}:{port}{path}{pin}#{name}`
unfoldable pub spec_of : Scheme → UpstreamAddr → Ipv4Addr → Text → Text
spec_of scheme typed ip name =
    let pin = if is_empty (hostname typed) then [] else codes "?ip=" ++ ipv4_text ip in
    scheme_text scheme
    ++ codes "://"
    ++ typed.host
    ++ (b':' ∷ port_text typed.port)
    ++ path_of typed.scheme typed.path
    ++ pin
    ++ (b'#' ∷ name)

unfoldable pub same_server : UpstreamAddr → Text → Bool
same_server addr s = elim (parse s) [
  | err e ↦ false
  | ok a ↦
      text_eq (scheme_text a.scheme) (scheme_text addr.scheme)
      && (text_eq a.host addr.host && (a.port == addr.port))
]

-- The list with a server more, and its spec.
unfoldable pub added_checked :
    List Text → Text → Result AddrError UpstreamAddr → Result EditError (List Text × Text)
unfolding same_server
added_checked specs spec (err e) = err (bad_address e)
added_checked specs spec (ok addr) =
    if any (same_server addr) specs then err already_configured else ok (specs ++ (spec ∷ []), spec)

unfoldable pub added_resolved :
    List Text
    → Text
    → Scheme
    → UpstreamAddr
    → Result BootstrapError IpAddr
    → Result EditError (List Text × Text)
unfolding spec_of added_checked
added_resolved specs name scheme typed (err e) = err (not_resolved e)
added_resolved specs name scheme typed (ok (v6 t)) = err ipv6_only
added_resolved specs name scheme typed (ok (v4 ip)) =
    added_checked specs (spec_of scheme typed ip name) (parse (spec_of scheme typed ip name))

-- `resolve` is what `resolve_host` gives for a host.
unfoldable pub added :
    (Text → Result BootstrapError IpAddr)
    → List Text
    → Text
    → Scheme
    → Result AddrError UpstreamAddr
    → Result EditError (List Text × Text)
unfolding added_resolved
added resolve specs name scheme (err e) = err (bad_address e)
added resolve specs name scheme (ok typed) =
    added_resolved specs name scheme typed (resolve typed.host)

unfoldable pub found : Option (List Text) → Result EditError (List Text)
found none = err no_upstream
found (some specs) = ok specs

unfoldable pub switched_checked :
    Option (List Text) → Result AddrError UpstreamAddr → Result EditError (List Text)
switched_checked none addr = err no_upstream
switched_checked (some specs) (err e) = err (bad_address e)
switched_checked (some specs) (ok addr) = ok specs

module _ (L : LruCache Key Entry) (timeout_ms : ℕ) where
  unfoldable pub applied :
      List Text
      → Result ChangeError (Configured L)
      → Configured L
      → Result EditError (Unit {0}) × Configured L
  applied specs (err e) c = (err (not_applied e), c)
  applied specs (ok next) c = (ok tt, next)

  unfoldable pub apply_list :
      Bool
      → Result EditError (List Text)
      → Configured L
      → Result EditError (Unit {0}) × Configured L
  unfolding applied
  apply_list persisted (err e) c = (err e, c)
  apply_list persisted (ok specs) c =
      applied specs
        (apply_settings L timeout_ms persisted (record no_overrides { upstreams = some specs }) c) c

  unfoldable pub undone :
      Result EditError (Unit {0}) × Configured L → Result EditError (Unit {0}) × Configured L
  undone (ok u, c) = (err not_answering, c)
  undone (err e, c) = (err e, c)

  -- The test query to the new server; without an answer the old list is put back.
  unfoldable pub kept_if_answering :
      Bool
      → List Text
      → Option EchSupport × Resolver
      → Configured L
      → Result EditError (Unit {0}) × Configured L
  unfolding apply_list undone
  kept_if_answering persisted previous (some answer, r) c =
      (ok tt, record c { service = record c.service { resolver = r } })
  kept_if_answering persisted previous (none, r) c = undone (
      apply_list persisted (ok previous) (record c { service = record c.service { resolver = r } }))

  unfoldable pub tested :
      (ℕ → Attempt)
      → Option ℕ
      → Bool
      → List Text
      → Text
      → Result EditError (Unit {0}) × Configured L
      → Result EditError (Unit {0}) × Configured L
  unfolding kept_if_answering
  tested net query persisted previous spec (err e, c) = (err e, c)
  tested net query persisted previous spec (ok u, c) =
      if is_empty c.service.settings.ech_probe_domain
      then (ok u, c)
      else kept_if_answering persisted previous (probe_ech_spec net query spec c.service.resolver) c

  unfoldable pub add_tested :
      (ℕ → Attempt)
      → Option ℕ
      → Bool
      → Bool
      → Result EditError (List Text × Text)
      → Configured L
      → Result EditError (Unit {0}) × Configured L
  unfolding apply_list tested
  add_tested net query persisted restored (err e) c = (err e, c)
  add_tested net query persisted restored (ok (specs, spec)) c =
      tested net query restored c.service.settings.upstreams spec
        (apply_list persisted (ok specs) c)

  -- `persisted` and `restored` say whether the writes of the settings succeed.
  unfoldable pub edit_upstreams :
      (Text → Result BootstrapError IpAddr)
      → (ℕ → Attempt)
      → Option ℕ
      → Bool
      → Bool
      → UpstreamCommand
      → Configured L
      → Result EditError (Unit {0}) × Configured L
  unfolding apply_list add_tested added found switched_checked
  edit_upstreams resolve net query persisted restored (delete spec) c =
      apply_list persisted (found (remove_spec spec c.service.settings.upstreams)) c
  edit_upstreams resolve net query persisted restored (set_enabled spec enabled) c =
      apply_list persisted
        (switched_checked (replace_spec spec (switched spec enabled) c.service.settings.upstreams)
          (parse (switched spec enabled)))
        c
  edit_upstreams resolve net query persisted restored (add name host scheme) c =
      add_tested net query persisted restored
        (added resolve c.service.settings.upstreams name scheme
          (parse (scheme_text scheme ++ codes "://" ++ host)))
        c
