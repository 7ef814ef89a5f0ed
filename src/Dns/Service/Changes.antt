-- ===== src/Dns/Service/Changes.antt =====
-- `DnsService`: the changes of its settings. The file of the saved overrides is a part of the state;
-- whether a write of it succeeds is an argument.
use ad_block.Base.{
  ℕ, Bool, true, false, ◌&&◌, List, [], ◌∷◌, Option, none, some, is_empty, if◌then◌else◌, Result,
  ok, err,
}
use ad_block.Dns.Cache.{LruCache, Key, Entry, CacheStatus, set_config, clear, status}
use ad_block.Dns.Service.{BlockingMode, DnsService}
use ad_block.Dns.Settings.{
  UpstreamMode, failover, load_balance, parallel, DnsOverrides, EffectiveDnsSettings, merged_with,
  with_overrides, validate, Invalid,
}
use ad_block.Dns.Upstream.Probe.{UpstreamStat, upstream_stats, inherit_ech, probe_ech}
use ad_block.Dns.Upstream.Resolver.{Attempt, Resolver, ResolverError, new, reset_stats}
use ad_block.Text.{Text, text_eq}

unfoldable pub texts_eq : List Text → List Text → Bool
texts_eq [] [] = true
texts_eq [] (t ∷ ts) = false
texts_eq (s ∷ ss) [] = false
texts_eq (s ∷ ss) (t ∷ ts) = text_eq s t && texts_eq ss ts

unfoldable pub mode_eq : UpstreamMode → UpstreamMode → Bool
mode_eq failover failover = true
mode_eq load_balance load_balance = true
mode_eq parallel parallel = true
mode_eq failover load_balance = false
mode_eq failover parallel = false
mode_eq load_balance failover = false
mode_eq load_balance parallel = false
mode_eq parallel failover = false
mode_eq parallel load_balance = false

unfoldable pub same_servers : EffectiveDnsSettings → EffectiveDnsSettings → Bool
unfolding texts_eq mode_eq
same_servers e f =
    texts_eq e.upstreams f.upstreams
    && (mode_eq e.upstream_mode f.upstream_mode && texts_eq e.bootstrap f.bootstrap)

pub data ChangeError : Type 0 where
  not_valid : Invalid → ChangeError
  no_resolver : ResolverError → ChangeError
  not_saved : ChangeError

abbrev pub inheriting : Resolver → Result ResolverError Resolver → Result ChangeError Resolver
inheriting old (ok r) = ok (inherit_ech r old)
inheriting old (err e) = err (no_resolver e)

-- The resolver for settings: the current one, if it is made for the same servers.
unfoldable pub resolver_for :
    ℕ → EffectiveDnsSettings → EffectiveDnsSettings → Resolver → Result ChangeError Resolver
unfolding same_servers
resolver_for timeout_ms eff current r =
    if same_servers eff current
    then ok r
    else inheriting r (new eff.upstreams eff.upstream_mode eff.bootstrap timeout_ms)

abbrev pub no_overrides : DnsOverrides
no_overrides = record {
  upstreams = none;
  upstream_mode = none;
  bootstrap = none;
  cache_size = none;
  override_min_ttl_secs = none;
  override_max_ttl_secs = none;
  ech_probe_domain = none;
  ech_probe_mins = none;
  strip_ech = none;
  log_ipv6 = none;
}

module _ (L : LruCache Key Entry) where
  -- The service, and the overrides in its settings file.
  pub record Configured : Type 0 where
    pub service : DnsService L
    pub saved : DnsOverrides

  abbrev pub put_in_force :
      EffectiveDnsSettings
      → Bool
      → DnsOverrides
      → Result ChangeError Resolver
      → Configured
      → Result ChangeError Configured
  put_in_force eff persisted upd (err e) c = err e
  put_in_force eff false upd (ok r) c = err not_saved
  put_in_force eff true upd (ok r) c = ok (record {
    service = record c.service {
      cache =
          set_config L eff.cache_size eff.override_min_ttl_secs eff.override_max_ttl_secs
            c.service.cache;
      resolver = r;
      settings = eff;
    };
    saved = upd;
  })

  abbrev pub when_valid :
      Result Invalid (Unit {0}) → Result ChangeError Configured → Result ChangeError Configured
  when_valid (err e) next = err (not_valid e)
  when_valid (ok u) next = next

  -- `saved` is what the file holds if it is written.
  unfoldable pub realize :
      ℕ → EffectiveDnsSettings → Bool → DnsOverrides → Configured → Result ChangeError Configured
  unfolding resolver_for
  realize timeout_ms eff persisted saved c = when_valid (validate eff) (
      put_in_force eff persisted saved
        (resolver_for timeout_ms eff c.service.settings c.service.resolver) c)

  unfoldable pub apply_settings :
      ℕ → Bool → DnsOverrides → Configured → Result ChangeError Configured
  unfolding realize
  apply_settings timeout_ms persisted upd c =
      realize timeout_ms (with_overrides c.service.settings upd) persisted (merged_with c.saved upd)
        c

  -- `defaults` are the settings of the configuration; the file is emptied.
  unfoldable pub reset_settings :
      ℕ → EffectiveDnsSettings → Bool → Configured → Result ChangeError Configured
  unfolding realize
  reset_settings timeout_ms defaults persisted c =
      realize timeout_ms defaults persisted no_overrides c

  -- `flush_cache` and `reset_upstream_stats`.
  unfoldable pub flush_cache : Configured → ℕ × Configured
  flush_cache c =
      let (cleared, cache) = clear L c.service.cache in
      (cleared, record c { service = record c.service { cache = cache } })

  unfoldable pub reset_upstream_stats : Configured → Configured
  reset_upstream_stats c = record c {
    service = record c.service { resolver = reset_stats c.service.resolver };
  }

  pub record DnsStatus : Type 0 where
    pub upstreams : List Text
    pub upstream_mode : UpstreamMode
    pub upstream_stats : List UpstreamStat
    pub bootstrap : List Text
    pub blocking_mode : BlockingMode
    pub strip_ech : Bool
    pub ech_probe_domain : Text
    pub ech_probe_mins : ℕ
    pub log_ipv6 : Bool
    pub cache : CacheStatus

  -- Without the address of the listener.
  unfoldable pub dns_status : Configured → DnsStatus
  dns_status c = record {
    upstreams = c.service.settings.upstreams;
    upstream_mode = c.service.settings.upstream_mode;
    upstream_stats = upstream_stats c.service.resolver;
    bootstrap = c.service.settings.bootstrap;
    blocking_mode = c.service.base.blocking_mode;
    strip_ech = c.service.settings.strip_ech;
    ech_probe_domain = c.service.settings.ech_probe_domain;
    ech_probe_mins = c.service.settings.ech_probe_mins;
    log_ipv6 = c.service.settings.log_ipv6;
    cache = status L c.service.cache;
  }

  -- `probe_ech_now`: `query` is the id of the probe, if the domain can be asked for; none without a
  -- domain to ask for.
  unfoldable pub probe_ech_now : (ℕ → Attempt) → Option ℕ → Configured → Option ℕ × Configured
  probe_ech_now net query c =
      if is_empty c.service.settings.ech_probe_domain
      then (none, c)
      else (let (n, r) = probe_ech net query c.service.resolver in
          (some n, record c { service = record c.service { resolver = r } }))
