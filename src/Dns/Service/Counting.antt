-- ===== src/Dns/Service/Counting.antt =====
-- What the statistics are told of a request.
use ad_block.Base.{
  ℕ, ◌+◌, ◌≡◌, inl, inr, Bool, List, [], ◌∷◌, Option, none, some, if◌then◌else◌, Bool-cases, Result,
  ok, err, arith,
}
use ad_block.Dns.Cache.{LruCache, Key, Entry, DnsCache, get}
use ad_block.Dns.Message.{Message, Query}
use ad_block.Dns.Plan.{QueryPlan, invalid, answer, Verdict, nodata, rewrite, resolve, plan_query}
use ad_block.Dns.Service.{
  Packages, Network, StatEvent, counted, block_counted, error_counted, block_logged, error_logged,
  recorded, DnsService,
}
use ad_block.Stats.History.{requests, blocked, errors, dns_queries, dns_blocked, dns_cached}
use ad_block.Dns.Service.Answering.{
  tell, answered, came_back, went_upstream, looked, resolved_by, rewritten_as, rewrite_response,
  block_told, by_verdict, by_plan, handle_from,
}
use ad_block.Dns.Upstream.Resolver.{ResolveError}
use ad_block.Text.{Text}

-- How many requests an event counts: one of a query, and one of a block.
unfoldable pub requests_in : StatEvent → ℕ
requests_in (counted dns_queries domain) = 1
requests_in (counted requests domain) = 0
requests_in (counted blocked domain) = 0
requests_in (counted errors domain) = 0
requests_in (counted dns_blocked domain) = 0
requests_in (counted dns_cached domain) = 0
requests_in (block_counted metric domain) = 1
requests_in error_counted = 0
requests_in (block_logged qtype domain attribution) = 0
requests_in (error_logged domain e) = 0
requests_in (recorded r) = 0

unfoldable pub records_in : StatEvent → ℕ
records_in (recorded r) = 1
records_in (counted metric domain) = 0
records_in (block_counted metric domain) = 0
records_in error_counted = 0
records_in (block_logged qtype domain attribution) = 0
records_in (error_logged domain e) = 0

unfoldable pub total : (StatEvent → ℕ) → List StatEvent → ℕ
total f [] = 0
total f (e ∷ es) = f e + total f es

-- Whether a plan is recorded under settings: not one that is refused, nor one for AAAA when these are
-- not logged.
unfoldable pub recorded_for : Bool → QueryPlan → ℕ
recorded_for log_ipv6 (invalid code) = 0
recorded_for log_ipv6 (answer q domain nodata) = if log_ipv6 then 1 else 0
recorded_for log_ipv6 (answer q domain (rewrite answers)) = 1
recorded_for log_ipv6 (answer q domain (Verdict.blocked attribution)) = 1
recorded_for log_ipv6 (answer q domain (resolve key)) = 1

module _ (L : LruCache Key Entry) (P : Packages) (network : Query → Network)
    (request : Message) where
  -- So many requests and records more are told.
  abbrev Told : ℕ → ℕ → DnsService L → Message × DnsService L → Type 0
  Told n k s q =
      (total requests_in q.1.events ≡ n + total requests_in s.events)
      × (total records_in q.1.events ≡ k + total records_in s.events)

  came_back-Told :
      (later : ℕ) (q : Query) (domain : Text) (proxy : Bool) (key : Key)
      (reply : Result ResolveError (Message × Text)) (s : DnsService L)
      → Told 0 1 s (came_back L P later request q domain proxy key reply s)
  unfolding came_back answered tell total requests_in records_in
  came_back-Told later q domain proxy key (ok (m, label)) s = (omega arith, omega arith)
  came_back-Told later q domain proxy key (err e) s = (omega arith, omega arith)

  looked-Told :
      (later : ℕ) (q : Query) (domain : Text) (proxy : Bool) (key : Key)
      (hit : Option Message × DnsCache L) (s : DnsService L)
      → Told 0 1 s (looked L P network later request q domain proxy key hit s)
  unfolding looked answered tell went_upstream total requests_in records_in
  looked-Told later q domain proxy key (some m, c) s = (omega arith, omega arith)
  looked-Told later q domain proxy key (none, c) s = came_back-Told later q domain proxy key _ _

  by_verdict-Told :
      (now read later : ℕ) (q : Query) (domain : Text) (proxy : Bool) (v : Verdict)
      (s : DnsService L)
      → Told 1
          (recorded_for s.settings.log_ipv6 (answer q domain v))
          s
          (by_verdict L P network now read later request q domain proxy v s)
  unfolding by_verdict answered tell resolved_by rewritten_as rewrite_response block_told
      recorded_for total requests_in records_in
  by_verdict-Told now read later q domain proxy nodata s = elim (Bool-cases s.settings.log_ipv6) [
    | inl e ↦ rw (e, by_verdict, recorded_for) (omega arith, omega arith)
    | inr e ↦ rw (e, by_verdict, recorded_for) (omega arith, omega arith)
  ]
  by_verdict-Told now read later q domain proxy (rewrite answers) s = (omega arith, omega arith)
  by_verdict-Told now read later q domain proxy (Verdict.blocked attribution) s =
      elim (Bool-cases s.log_actions) [
        | inl e ↦ rw (e, by_verdict, block_told) (omega arith, omega arith)
        | inr e ↦ rw (e, by_verdict, block_told) (omega arith, omega arith)
      ]
  by_verdict-Told now read later q domain proxy (resolve key) s =
      let (a, b) =
        looked-Told later q domain proxy key (get L now read key s.cache)
          (tell L P (counted dns_queries domain) s) in
      (omega (arith, a), omega (arith, b))

  by_plan-Told :
      (now read later : ℕ) (proxy : Bool) (plan : QueryPlan) (s : DnsService L)
      → Told 1
          (recorded_for s.settings.log_ipv6 plan)
          s
          (by_plan L P network now read later request proxy plan s)
  unfolding by_plan tell recorded_for total requests_in records_in
  by_plan-Told now read later proxy (invalid code) s = (omega arith, omega arith)
  by_plan-Told now read later proxy (answer q domain v) s =
      by_verdict-Told now read later q domain proxy v s

  -- Each request is told to the statistics as exactly one query or one block, and exactly one
  -- record is made of it, except that there is none of a refused request and none of a query for
  -- AAAA when these are not logged.
  pub handle_from-counted :
      (now read later : ℕ) (proxy : Bool) (s : DnsService L)
      → (total requests_in (handle_from L P network now read later request proxy s).1.events
          ≡ 1 + total requests_in s.events)
        × (total records_in (handle_from L P network now read later request proxy s).1.events
            ≡ recorded_for s.settings.log_ipv6 (
                plan_query P.check_dns s.rewrites
                  (record { op_code = request.op_code; queries = request.queries }))
              + total records_in s.events)
  unfolding handle_from
  handle_from-counted now read later proxy s = by_plan-Told now read later proxy _ s
