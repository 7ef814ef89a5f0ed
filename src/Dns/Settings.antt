-- ===== src/Dns/Settings.antt =====
-- src/dns/settings.rs: the settings that can be changed at runtime, as overrides on top of the
-- configuration. The macro `dns_tunables!` is written out over its list of fields.
pub mod Layers
use ad_block.Base.{
  ℕ, Bool, true, false, ◌&&◌, List, map, Option, none, some, ltb, if◌then◌else◌, Result, ok, err,
}
use ad_block.Text.{Text, trim}

-- `UpstreamMode` of src/dns/config.rs.
pub data UpstreamMode : Type 0 where
  failover load_balance parallel : UpstreamMode

pub record DnsOverrides : Type 0 where
  pub upstreams : Option (List Text)
  pub upstream_mode : Option UpstreamMode
  pub bootstrap : Option (List Text)
  pub cache_size : Option ℕ
  pub override_min_ttl_secs : Option ℕ
  pub override_max_ttl_secs : Option ℕ
  pub ech_probe_domain : Option Text
  pub ech_probe_mins : Option ℕ
  pub strip_ech : Option Bool
  pub log_ipv6 : Option Bool

pub record EffectiveDnsSettings : Type 0 where
  pub upstreams : List Text
  pub upstream_mode : UpstreamMode
  pub bootstrap : List Text
  pub cache_size : ℕ
  pub override_min_ttl_secs : ℕ
  pub override_max_ttl_secs : ℕ
  pub ech_probe_domain : Text
  pub ech_probe_mins : ℕ
  pub strip_ech : Bool
  pub log_ipv6 : Bool

-- `Option::or`, and an assignment under `if let Some`.
abbrev pub or_else {ℓ} : {A : Type ℓ} → Option A → Option A → Option A
or_else none b = b
or_else (some a) b = some a

abbrev pub override {ℓ} : {A : Type ℓ} → Option A → A → A
override none a = a
override (some v) a = v

unfoldable pub merged_with : DnsOverrides → DnsOverrides → DnsOverrides
merged_with saved upd = record {
  upstreams = or_else upd.upstreams saved.upstreams;
  upstream_mode = or_else upd.upstream_mode saved.upstream_mode;
  bootstrap = or_else upd.bootstrap saved.bootstrap;
  cache_size = or_else upd.cache_size saved.cache_size;
  override_min_ttl_secs = or_else upd.override_min_ttl_secs saved.override_min_ttl_secs;
  override_max_ttl_secs = or_else upd.override_max_ttl_secs saved.override_max_ttl_secs;
  ech_probe_domain = or_else upd.ech_probe_domain saved.ech_probe_domain;
  ech_probe_mins = or_else upd.ech_probe_mins saved.ech_probe_mins;
  strip_ech = or_else upd.strip_ech saved.strip_ech;
  log_ipv6 = or_else upd.log_ipv6 saved.log_ipv6;
}

unfoldable pub from_effective : EffectiveDnsSettings → DnsOverrides
from_effective e = record {
  upstreams = some e.upstreams;
  upstream_mode = some e.upstream_mode;
  bootstrap = some e.bootstrap;
  cache_size = some e.cache_size;
  override_min_ttl_secs = some e.override_min_ttl_secs;
  override_max_ttl_secs = some e.override_max_ttl_secs;
  ech_probe_domain = some e.ech_probe_domain;
  ech_probe_mins = some e.ech_probe_mins;
  strip_ech = some e.strip_ech;
  log_ipv6 = some e.log_ipv6;
}

unfoldable pub normalized : EffectiveDnsSettings → EffectiveDnsSettings
normalized e = record e {
  upstreams = map trim e.upstreams;
  bootstrap = map trim e.bootstrap;
  ech_probe_domain = trim e.ech_probe_domain;
}

-- `EffectiveDnsSettings::with`
unfoldable pub with_overrides : EffectiveDnsSettings → DnsOverrides → EffectiveDnsSettings
unfolding normalized
with_overrides e o = normalized (record {
  upstreams = override o.upstreams e.upstreams;
  upstream_mode = override o.upstream_mode e.upstream_mode;
  bootstrap = override o.bootstrap e.bootstrap;
  cache_size = override o.cache_size e.cache_size;
  override_min_ttl_secs = override o.override_min_ttl_secs e.override_min_ttl_secs;
  override_max_ttl_secs = override o.override_max_ttl_secs e.override_max_ttl_secs;
  ech_probe_domain = override o.ech_probe_domain e.ech_probe_domain;
  ech_probe_mins = override o.ech_probe_mins e.ech_probe_mins;
  strip_ech = override o.strip_ech e.strip_ech;
  log_ipv6 = override o.log_ipv6 e.log_ipv6;
})

pub data Invalid : Type 0 where
  min_exceeds_max : Invalid

unfoldable pub validate : EffectiveDnsSettings → Result Invalid (Unit {0})
validate e =
    if ltb 0 e.override_min_ttl_secs
      && ltb 0 e.override_max_ttl_secs
      && ltb e.override_max_ttl_secs e.override_min_ttl_secs
    then err min_exceeds_max
    else ok tt
