-- ===== src/Dns/Upstream/Resolver.antt =====
-- `Resolver`: the order in which servers are asked, and what is kept of the answers. `net i` is what
-- comes back when server `i` is asked, within the time that is allowed.
use ad_block.Base.{
  ℕ, zero, suc, ◌-◌, ◌*◌, ◌%◌, max, Bool, true, false, not, List, [], ◌∷◌, map, Option, none, some,
  ltb, leb, ◌==◌, if◌then◌else◌, is_empty, retain, length, get_elem?, get_or, sum, sort_by,
  round_from, Result, ok, err,
}
use ad_block.Dns.Message.{Message}
use ad_block.Dns.Settings.{UpstreamMode, failover, load_balance, parallel}
use ad_block.Dns.Upstream.Addr.{AddrError, UpstreamAddr, parse, label, split_host_port}
use ad_block.Dns.Upstream.Health.{Stats, no_stats, record_rtt, reset, weight}
use ad_block.Net.{Ipv4Addr, parse_ipv4}
use ad_block.Text.{Text, trim}

-- `ech` is the byte of the atomic.
pub record Upstream : Type 0 where
  pub addr : UpstreamAddr
  pub stats : Stats
  pub ech : ℕ

pub record Resolver : Type 0 where
  pub upstreams : List Upstream
  pub mode : UpstreamMode
  pub bootstrap : List (Ipv4Addr × ℕ)
  pub timeout_ms : ℕ
  pub preferred : ℕ

pub data ResolverError : Type 0 where
  bad_upstream bad_bootstrap : AddrError → ResolverError
  bootstrap_not_ipv4 : ResolverError

unfoldable pub parse_upstreams : List Text → Result ResolverError (List Upstream)
parse_upstreams [] = ok []
parse_upstreams (s ∷ ss) = elim (parse s) [
  | err e ↦ err (bad_upstream e)
  | ok addr ↦ elim (parse_upstreams ss) [
    | err e ↦ err e
    | ok us ↦ ok (record { addr = addr; stats = no_stats; ech = 0 } ∷ us)
  ]
]

unfoldable pub parse_bootstrap : List Text → Result ResolverError (List (Ipv4Addr × ℕ))
parse_bootstrap [] = ok []
parse_bootstrap (s ∷ ss) = elim (split_host_port (trim s) 53) [
  | err e ↦ err (bad_bootstrap e)
  | ok (host, port) ↦ elim (parse_ipv4 host) [
    | none ↦ err bootstrap_not_ipv4
    | some ip ↦ elim (parse_bootstrap ss) [ err e ↦ err e | ok servers ↦ ok ((ip, port) ∷ servers) ]
  ]
]

unfoldable pub new : List Text → UpstreamMode → List Text → ℕ → Result ResolverError Resolver
unfolding parse_upstreams parse_bootstrap
new upstreams mode bootstrap timeout_ms = elim (parse_upstreams upstreams) [
  | err e ↦ err e
  | ok us ↦ elim (parse_bootstrap bootstrap) [
    | err e ↦ err e
    | ok servers ↦ ok (record {
      upstreams = us;
      mode = mode;
      bootstrap = servers;
      timeout_ms = max timeout_ms 100;
      preferred = 0;
    })
  ]
]

unfoldable pub with_stats : Upstream → Stats → Upstream
with_stats u s = record u { stats = s }

unfoldable pub reset_stats : Resolver → Resolver
unfolding with_stats reset
reset_stats r = record r { upstreams = map (λ u. with_stats u (reset u.stats)) r.upstreams }

-- The indices of the enabled servers, from an index on.
unfoldable pub active_from : ℕ → List Upstream → List ℕ
active_from i [] = []
active_from i (u ∷ us) =
    if u.addr.enabled then i ∷ active_from (suc i) us else active_from (suc i) us

unfoldable pub active : Resolver → List ℕ
unfolding active_from
active r = active_from 0 r.upstreams

abbrev pub one_further : Option ℕ → Option ℕ
one_further none = none
one_further (some k) = some (suc k)

unfoldable pub position : ℕ → List ℕ → Option ℕ
position p [] = none
position p (i ∷ is) = if i == p then some 0 else one_further (position p is)

abbrev pub unwrap_or_zero : Option ℕ → ℕ
unwrap_or_zero none = 0
unwrap_or_zero (some k) = k

unfoldable pub start_of : ℕ → List ℕ → ℕ
unfolding position
start_of p is = unwrap_or_zero (position p is)

unfoldable pub failover_order : Resolver → List ℕ → List ℕ
unfolding start_of
failover_order r is = round_from is (start_of r.preferred is) (length is) 0

-- The loop of `pick_weighted`, from index `i` on; `last` is the index behind which none is left.
unfoldable pub pick_from : ℕ → ℕ → ℕ → List ℕ → ℕ
pick_from last i point [] = last
pick_from last i point (w ∷ ws) = if ltb point w then i else pick_from last (suc i) (point - w) ws

unfoldable pub pick_weighted : List ℕ → ℕ → ℕ
unfolding pick_from
pick_weighted weights r =
    if sum weights == 0 then 0 else pick_from (length weights - 1) 0 (r % sum weights) weights

-- The state of a server by its index; the indices come from `active`, so that it is there.
abbrev pub stats_of : Option Upstream → Stats
stats_of none = no_stats
stats_of (some u) = u.stats

unfoldable pub stats_at : Resolver → ℕ → Stats
stats_at r i = stats_of (get_elem? r.upstreams i)

unfoldable pub load_balanced_order : Resolver → List ℕ → ℕ → List ℕ
unfolding stats_at pick_weighted
load_balanced_order r is random =
    let picked = get_or is (pick_weighted (map (λ i. weight (stats_at r i)) is) random) 0 in
    let by_rtt = sort_by (λ i j. leb (stats_at r i).ewma_rtt_us (stats_at r j).ewma_rtt_us) is in
    picked ∷ retain (λ i. not (i == picked)) by_rtt

-- What comes back from a server: a message with its id, after so many microseconds; an error; nothing.
pub data Attempt : Type 0 where
  replied : ℕ → Message → ℕ → Attempt
  refused : Text → Attempt
  timed_out : Attempt

pub data ResolveError : Type 0 where
  no_upstreams all_disabled not_encoded nothing_asked : ResolveError
  id_mismatch failed no_reply : ℕ → ResolveError

-- Whether an attempt answers the query of the id, or why not.
unfoldable pub judge : ℕ → ℕ → Attempt → Result ResolveError (Message × ℕ)
judge id i (replied rid m micros) = if rid == id then ok (m, micros) else err (id_mismatch i)
judge id i (refused e) = err (failed i)
judge id i timed_out = err (no_reply i)

unfoldable pub update_at : {A : Type 0} → ℕ → (A → A) → List A → List A
update_at i f [] = []
update_at zero f (x ∷ xs) = f x ∷ xs
update_at (suc i) f (x ∷ xs) = x ∷ update_at i f xs

unfoldable pub note : ℕ → ℕ → Bool → Resolver → Resolver
unfolding update_at with_stats
note i micros bad r = record r {
  upstreams = update_at i (λ u. with_stats u (record_rtt micros bad u.stats)) r.upstreams;
}

-- `record(self.timeout * 2, true)`
unfoldable pub note_failure : ℕ → Resolver → Resolver
unfolding note
note_failure i r = note i (r.timeout_ms * 1000 * 2) true r

abbrev pub label_of : Option Upstream → Text
label_of none = []
label_of (some u) = label u.addr

unfoldable pub label_at : Resolver → ℕ → Text
label_at r i = label_of (get_elem? r.upstreams i)

-- One server after the other, until one answers.
unfoldable pub resolve_sequential :
    (ℕ → Attempt)
    → ℕ
    → List ℕ
    → ResolveError
    → Resolver
    → Result ResolveError (Message × Text) × Resolver
unfolding judge note note_failure label_at
resolve_sequential net id [] last r = (err last, r)
resolve_sequential net id (i ∷ is) last r = elim (judge id i (net i)) [
  | ok (m, micros) ↦ (ok (m, label_at r i), record (note i micros false r) { preferred = i })
  | err e ↦ resolve_sequential net id is e (note_failure i r)
]

-- All at once: the list has the servers in the order in which they come back. The rest is dropped
-- when one answers.
unfoldable pub resolve_parallel :
    (ℕ → Attempt)
    → ℕ
    → List ℕ
    → ResolveError
    → Resolver
    → Result ResolveError (Message × Text) × Resolver
unfolding judge note note_failure label_at
resolve_parallel net id [] last r = (err last, r)
resolve_parallel net id (i ∷ is) last r = elim (judge id i (net i)) [
  | ok (m, micros) ↦ (ok (m, label_at r i), note i micros false r)
  | err e ↦ resolve_parallel net id is e (note_failure i r)
]

-- `id` is that of the encoded query, if it can be encoded.
unfoldable pub resolve_active :
    (ℕ → Attempt)
    → ℕ
    → ℕ
    → List ℕ
    → List ℕ
    → Resolver
    → Result ResolveError (Message × Text) × Resolver
unfolding failover_order load_balanced_order resolve_sequential resolve_parallel
resolve_active net id random finish is r = elim r.mode [
  | parallel ↦
      if ltb 1 (length is)
      then resolve_parallel net id finish nothing_asked r
      else resolve_sequential net id (failover_order r is) nothing_asked r
  | load_balance ↦
      if ltb 1 (length is)
      then resolve_sequential net id (load_balanced_order r is random) nothing_asked r
      else resolve_sequential net id (failover_order r is) nothing_asked r
  | failover ↦ resolve_sequential net id (failover_order r is) nothing_asked r
]

unfoldable pub resolve :
    (ℕ → Attempt)
    → Option ℕ
    → ℕ
    → List ℕ
    → Resolver
    → Result ResolveError (Message × Text) × Resolver
unfolding active resolve_active
resolve net encoded random finish r =
    if is_empty (active r)
    then (err (if is_empty r.upstreams then no_upstreams else all_disabled), r)
    else (elim encoded [
      | none ↦ (err not_encoded, r)
      | some id ↦ resolve_active net id random finish (active r) r
    ])
