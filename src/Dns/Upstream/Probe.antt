-- ===== src/Dns/Upstream/Probe.antt =====
-- What `Resolver` tells of its servers, and how it learns whether they pass on encrypted client hello
-- (ECH) parameters.
use ad_block.Base.{
  ℕ, suc, Bool, ◌&&◌, List, [], ◌∷◌, ◌++◌, map, Option, none, some, ◌==◌, if◌then◌else◌, any, find,
}
use ad_block.Dns.Message.{Message}
use ad_block.Dns.Response.{record_has_ech}
use ad_block.Dns.Upstream.Addr.{scheme_text, label, hostname, address}
use ad_block.Dns.Upstream.Health.{EchSupport, supported, unsupported, from_u8, to_u8, avg_rtt_ms}
use ad_block.Dns.Upstream.Resolver.{
  Upstream, Resolver, Attempt, replied, timed_out, update_at, active,
}
use ad_block.Text.{Text, text_eq}

pub record UpstreamStat : Type 0 where
  pub spec : Text
  pub name : Text
  pub host : Text
  pub address : Text
  pub scheme : Text
  pub enabled : Bool
  pub queries : ℕ
  pub failures : ℕ
  pub avg_rtt_ms : Option ℕ
  pub ech : EchSupport

unfoldable pub upstream_stat : Upstream → UpstreamStat
upstream_stat u = record {
  spec = u.addr.spec;
  name = label u.addr;
  host = hostname u.addr;
  address = address u.addr;
  scheme = scheme_text u.addr.scheme;
  enabled = u.addr.enabled;
  queries = u.stats.queries;
  failures = u.stats.failures;
  avg_rtt_ms = avg_rtt_ms u.stats;
  ech = from_u8 u.ech;
}

unfoldable pub upstream_stats : Resolver → List UpstreamStat
upstream_stats r = map upstream_stat r.upstreams

unfoldable pub answer_has_ech : Message → Bool
answer_has_ech m = any record_has_ech (m.answers ++ m.additionals)

unfoldable pub set_ech : EchSupport → Upstream → Upstream
set_ech support u = record u { ech = to_u8 support }

-- What an attempt says of a server, if it is an answer to the query of the id.
unfoldable pub support_of : ℕ → Attempt → Option EchSupport
unfolding answer_has_ech
support_of id (replied rid m micros) =
    if rid == id then some (if answer_has_ech m then supported else unsupported) else none
support_of id (Attempt.refused e) = none
support_of id timed_out = none

unfoldable pub learn : Option EchSupport → ℕ → Resolver → Resolver
learn none i r = r
learn (some support) i r = record r { upstreams = update_at i (set_ech support) r.upstreams }

-- `probe_one`, of the server with an index.
unfoldable pub probe_one : (ℕ → Attempt) → ℕ → ℕ → Resolver → Option EchSupport × Resolver
unfolding support_of learn
probe_one net id i r = (support_of id (net i), learn (support_of id (net i)) i r)

unfoldable pub probe_each : (ℕ → Attempt) → ℕ → List ℕ → Resolver → ℕ × Resolver
unfolding probe_one
probe_each net id [] r = (0, r)
probe_each net id (i ∷ is) r =
    let (support, r) = probe_one net id i r in
    let (count, r) = probe_each net id is r in
    ((elim support [ none ↦ count | some s ↦ suc count ]), r)

-- `query` is the id of the probe, if the domain can be asked for.
unfoldable pub probe_ech : (ℕ → Attempt) → Option ℕ → Resolver → ℕ × Resolver
unfolding probe_each
probe_ech net none r = (0, r)
probe_ech net (some id) r = probe_each net id (active r) r

unfoldable pub find_spec : Text → ℕ → List Upstream → Option ℕ
find_spec spec i [] = none
find_spec spec i (u ∷ us) =
    let rest = find_spec spec (suc i) us in if text_eq u.addr.spec spec then some i else rest

unfoldable pub probe_ech_spec :
    (ℕ → Attempt) → Option ℕ → Text → Resolver → Option EchSupport × Resolver
unfolding find_spec probe_one
probe_ech_spec net query spec r = elim (find_spec spec 0 r.upstreams) [
  | none ↦ (none, r)
  | some i ↦ elim query [ none ↦ (none, r) | some id ↦ probe_one net id i r ]
]

unfoldable pub same_target : Upstream → Upstream → Bool
same_target u v =
    text_eq (scheme_text v.addr.scheme) (scheme_text u.addr.scheme)
    && (text_eq v.addr.host u.addr.host && (v.addr.port == u.addr.port))

unfoldable pub inherited : List Upstream → Upstream → Upstream
unfolding same_target
inherited old u = elim (find (same_target u) old) [
  | none ↦ u
  | some prev ↦ record u { ech = prev.ech }
]

unfoldable pub inherit_ech : Resolver → Resolver → Resolver
unfolding inherited
inherit_ech r old = record r { upstreams = map (inherited old.upstreams) r.upstreams }
