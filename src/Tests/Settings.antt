-- ===== src/Tests/Settings.antt =====
-- The DNS settings, at concrete inputs.
use ad_block.Base.{◌≡◌, false, [], ◌∷◌, none, some}
use ad_block.Dns.Settings.{
  UpstreamMode, DnsOverrides, EffectiveDnsSettings, merged_with, with_overrides,
}
use ad_block.Dns.Settings.Layers.{with_overrides-merged_with}
use ad_block.Text.{codes}

abbrev settings : EffectiveDnsSettings
settings = record {
  upstreams = codes "udp://10.0.0.1:53" ∷ [];
  upstream_mode = UpstreamMode.failover;
  bootstrap = [];
  cache_size = 512;
  override_min_ttl_secs = 0;
  override_max_ttl_secs = 0;
  ech_probe_domain = codes "a.test";
  ech_probe_mins = 60;
  strip_ech = false;
  log_ipv6 = false;
}

abbrev no_overrides : DnsOverrides
no_overrides = record {
  upstreams = none;
  upstream_mode = none;
  bootstrap = none;
  cache_size = none;
  override_min_ttl_secs = none;
  override_max_ttl_secs = none;
  ech_probe_domain = none;
  ech_probe_mins = none;
  strip_ech = none;
  log_ipv6 = none;
}

abbrev saved : DnsOverrides
saved = record no_overrides { upstreams = some (codes " tls://1.1.1.1 " ∷ []); cache_size = some 9 }

abbrev update : DnsOverrides
update = record no_overrides { cache_size = some 0; ech_probe_domain = some (codes " b.test ") }

with_overrides-merged_with_example :
    with_overrides (with_overrides settings saved) update
    ≡ with_overrides settings (merged_with saved update)
with_overrides-merged_with_example = with_overrides-merged_with settings saved update
