-- ===== src/Dns/Settings/Layers.antt =====
-- Overrides in layers: merged first, or applied one after the other.
use ad_block.Base.{◌≡◌, refl, List, [], ◌∷◌, map, Option, none, some}
use ad_block.Dns.Settings.{
  DnsOverrides, EffectiveDnsSettings, or_else, override, merged_with, normalized, with_overrides,
}
use ad_block.Text.{Text, trim, is_whitespace}
use ad_block.Text.Trim.{trim_matches_idem}

trim_idem : (t : Text) → trim (trim t) ≡ trim t
unfolding trim
trim_idem t = trim_matches_idem is_whitespace t

map-trim_idem : (ts : List Text) → map trim (map trim ts) ≡ map trim ts
map-trim_idem [] = refl
map-trim_idem (t ∷ ts) = λ i. trim_idem t i ∷ map-trim_idem ts i

override_twice :
    {A : Type 0} (b a : Option A) (x : A) → override b (override a x) ≡ override (or_else b a) x
override_twice none a x = refl
override_twice (some v) a x = refl

-- A value that was normalised in between is normalised all the same.
override_between :
    {A : Type 0} (f : A → A) (b a : Option A) (x : A)
    → ((y : A) → f (f y) ≡ f y)
    → f (override b (f (override a x))) ≡ f (override (or_else b a) x)
override_between f none a x idem = idem (override a x)
override_between f (some v) a x idem = refl

-- To apply saved overrides to settings and then an update gives the same settings as to apply the
-- two merged, where the update wins; the normalisation in between makes no difference.
pub with_overrides-merged_with :
    (e : EffectiveDnsSettings) (saved upd : DnsOverrides)
    → with_overrides (with_overrides e saved) upd ≡ with_overrides e (merged_with saved upd)
unfolding with_overrides normalized merged_with
with_overrides-merged_with e saved upd =
    let ups = override_between (map trim) upd.upstreams saved.upstreams e.upstreams map-trim_idem in
    let mode = override_twice upd.upstream_mode saved.upstream_mode e.upstream_mode in
    let boot =
      override_between (map trim) upd.bootstrap saved.bootstrap e.bootstrap map-trim_idem in
    let size = override_twice upd.cache_size saved.cache_size e.cache_size in
    let lo =
      override_twice upd.override_min_ttl_secs saved.override_min_ttl_secs
        e.override_min_ttl_secs in
    let hi =
      override_twice upd.override_max_ttl_secs saved.override_max_ttl_secs
        e.override_max_ttl_secs in
    let probe =
      override_between trim upd.ech_probe_domain saved.ech_probe_domain e.ech_probe_domain
        trim_idem in
    let mins = override_twice upd.ech_probe_mins saved.ech_probe_mins e.ech_probe_mins in
    let strip = override_twice upd.strip_ech saved.strip_ech e.strip_ech in
    let log = override_twice upd.log_ipv6 saved.log_ipv6 e.log_ipv6 in
    λ i. record {
      upstreams = ups i;
      upstream_mode = mode i;
      bootstrap = boot i;
      cache_size = size i;
      override_min_ttl_secs = lo i;
      override_max_ttl_secs = hi i;
      ech_probe_domain = probe i;
      ech_probe_mins = mins i;
      strip_ech = strip i;
      log_ipv6 = log i;
    }
