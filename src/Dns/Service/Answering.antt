-- ===== src/Dns/Service/Answering.antt =====
-- `DnsService::handle_from`, and the answers and records that it makes.
use ad_block.Base.{
  ℕ, Bool, true, false, List, [], ◌∷◌, ◌++◌, Option, none, some, ◌==◌, if◌then◌else◌, Result, ok,
  err,
}
use ad_block.Dns.Cache.{LruCache, Key, Entry, DnsCache, get, put}
use ad_block.Dns.Message.{
  Message, Query, ResponseCode, nx_domain, serv_fail, a_record, cname_record, Rr,
}
use ad_block.Dns.Plan.{QueryPlan, invalid, answer, Verdict, nodata, rewrite, resolve, plan_query}
use ad_block.Dns.Response.{base_response, finish_response, error_response, strip_ech_params}
use ad_block.Dns.Rewrites.{RewriteAnswer, v4, cname}
use ad_block.Dns.Service.{
  Packages, Network, BlockingMode, null_ip, nxdomain, StatEvent, counted, block_counted,
  error_counted, block_logged, error_logged, recorded, RecordedAs, as_nodata, as_rewritten,
  as_cached, as_resolved, as_blocked, as_error, Base, DnsService,
}
use ad_block.Stats.History.{dns_queries, dns_blocked, dns_cached}
use ad_block.Dns.Service.Recording.{dns_record}
use ad_block.Dns.Upstream.Resolver.{Resolver, ResolveError}
use ad_block.Dns.Upstream.Resolver
use ad_block.Net.{Ipv4Addr}
use ad_block.Text.{Text}

-- The code of `RecordType::A`.
abbrev pub type_a : ℕ
type_a = 1

abbrev pub rewrite_ttl : ℕ
rewrite_ttl = 30

abbrev pub unspecified : Ipv4Addr
unspecified = record { a = 0; b = 0; c = 0; d = 0 }

-- `resp.add_answer`.
abbrev pub add_answers : List Rr → Message → Message
add_answers rs m = record m { answers = m.answers ++ rs }

module _ (L : LruCache Key Entry) (P : Packages) where
  unfoldable pub tell : StatEvent → DnsService L → DnsService L
  tell e s = record s { events = e ∷ s.events }

  unfoldable pub ask : Network → Resolver → Result ResolveError (Message × Text) × Resolver
  ask n r = ad_block.Dns.Upstream.Resolver.resolve n.net n.encoded n.random n.finish r

  unfoldable pub with_answers :
      Rr → Result ResolveError (Message × Text) × Resolver → List Rr × Resolver
  with_answers own (ok (m, label), r) = (own ∷ m.answers, r)
  with_answers own (err e, r) = (own ∷ [], r)

  -- What a CNAME adds: itself, and for an A query the answers of the name that it gives.
  unfoldable pub cname_answers : (Query → Network) → Query → Text → Resolver → List Rr × Resolver
  unfolding ask with_answers
  cname_answers network q target r =
      let own = P.from_rdata q.name_ascii rewrite_ttl (cname_record target) in
      if q.query_type == type_a
      then with_answers own (ask (network (P.query_for target type_a)) r)
      else (own ∷ [], r)

  -- The loop over the answers of the records; it ends at the first CNAME that is a name.
  unfoldable pub rewrite_answers :
      (Query → Network) → Query → List RewriteAnswer → Resolver → List Rr × Resolver
  unfolding cname_answers
  rewrite_answers network q [] r = ([], r)
  rewrite_answers network q (v4 ip ∷ others) r =
      let (more, r) = rewrite_answers network q others r in
      if q.query_type == type_a
      then (P.from_rdata q.name_ascii rewrite_ttl (a_record ip) ∷ more, r)
      else (more, r)
  rewrite_answers network q (cname target ∷ others) r =
      let rest = rewrite_answers network q others r in
      if P.is_name (target ++ (b'.' ∷ []))
      then cname_answers network q (target ++ (b'.' ∷ [])) r
      else rest

  unfoldable pub rewrite_response :
      (Query → Network) → Message → Query → List RewriteAnswer → Resolver → Message × Resolver
  unfolding base_response rewrite_answers
  rewrite_response network request q answers r =
      let (records, r) = rewrite_answers network q answers r in
      (add_answers records (base_response P.new_response request), r)

  unfoldable pub blocked_response : Base → Message → Query → Message
  unfolding base_response
  blocked_response base request q = elim base.blocking_mode [
    | BlockingMode.refused ↦ record (base_response P.new_response request) {
      response_code = ResponseCode.refused;
    }
    | nxdomain ↦ record (base_response P.new_response request) { response_code = nx_domain }
    | null_ip ↦
        if q.query_type == type_a
        then add_answers
            (P.from_rdata q.name_ascii base.blocked_ttl_secs (a_record unspecified) ∷ [])
            (base_response P.new_response request)
        else base_response P.new_response request
  ]

  -- The response, with what is recorded of it.
  unfoldable pub answered :
      Query → Text → Bool → RecordedAs → Message → DnsService L → Message × DnsService L
  unfolding tell dns_record
  answered q domain proxy how resp s =
      (resp, tell (recorded (dns_record q domain proxy resp how)) s)

  unfoldable pub stripped : Bool → Message → Message
  stripped strip_ech m = if strip_ech then (strip_ech_params m).1 else m

  -- What comes of a query that went upstream; `later` is the time at which it came back.
  unfoldable pub came_back :
      ℕ
      → Message
      → Query
      → Text
      → Bool
      → Key
      → Result ResolveError (Message × Text)
      → DnsService L
      → Message × DnsService L
  unfolding answered stripped tell
  came_back later request q domain proxy key (ok (m, label)) s =
      answered q domain proxy (as_resolved label)
        (finish_response (stripped s.settings.strip_ech m) request)
        (record s { cache = put L later key m s.cache })
  came_back later request q domain proxy key (err e) s =
      answered q domain proxy (as_error e) (error_response P.new_response request serv_fail)
        (tell (error_logged domain e) (tell error_counted s))

  unfoldable pub went_upstream :
      ℕ
      → Message
      → Query
      → Text
      → Bool
      → Key
      → Result ResolveError (Message × Text) × Resolver
      → DnsService L
      → Message × DnsService L
  unfolding came_back
  went_upstream later request q domain proxy key (reply, r) s =
      came_back later request q domain proxy key reply (record s { resolver = r })

  -- What comes of the lookup in the cache.
  unfoldable pub looked :
      (Query → Network)
      → ℕ
      → Message
      → Query
      → Text
      → Bool
      → Key
      → Option Message × DnsCache L
      → DnsService L
      → Message × DnsService L
  unfolding answered stripped tell went_upstream
  looked network later request q domain proxy key (some m, c) s =
      answered q domain proxy as_cached (finish_response (stripped s.settings.strip_ech m) request)
        (tell (counted dns_cached domain) (record s { cache = c }))
  looked network later request q domain proxy key (none, c) s =
      went_upstream later request q domain proxy key (ask (network q) s.resolver)
        (record s { cache = c })

  -- `now` and `read` are the times at which `get` reads the clock.
  unfoldable pub resolved_by :
      (Query → Network)
      → ℕ
      → ℕ
      → ℕ
      → Message
      → Query
      → Text
      → Bool
      → Key
      → DnsService L
      → Message × DnsService L
  unfolding looked
  resolved_by network now read later request q domain proxy key s =
      looked network later request q domain proxy key (get L now read key s.cache) s

  unfoldable pub rewritten_as :
      Query → Text → Bool → Message × Resolver → DnsService L → Message × DnsService L
  unfolding answered
  rewritten_as q domain proxy (resp, r) s =
      answered q domain proxy as_rewritten resp (record s { resolver = r })

  unfoldable pub block_told : Query → Text → Text → DnsService L → DnsService L
  unfolding tell
  block_told q domain attribution s =
      if s.log_actions
      then tell (block_logged q.query_type domain attribution)
          (tell (block_counted dns_blocked domain) s)
      else tell (block_counted dns_blocked domain) s

  unfoldable pub by_verdict :
      (Query → Network)
      → ℕ
      → ℕ
      → ℕ
      → Message
      → Query
      → Text
      → Bool
      → Verdict
      → DnsService L
      → Message × DnsService L
  unfolding tell answered rewritten_as rewrite_response block_told blocked_response resolved_by
  by_verdict network now read later request q domain proxy nodata s =
      if s.settings.log_ipv6
      then answered q domain proxy as_nodata (base_response P.new_response request)
          (tell (counted dns_queries domain) s)
      else (base_response P.new_response request, tell (counted dns_queries domain) s)
  by_verdict network now read later request q domain proxy (rewrite answers) s =
      rewritten_as q domain proxy (rewrite_response network request q answers s.resolver)
        (tell (counted dns_queries domain) s)
  by_verdict network now read later request q domain proxy (Verdict.blocked attribution) s =
      answered q domain proxy (as_blocked attribution) (blocked_response s.base request q)
        (block_told q domain attribution s)
  by_verdict network now read later request q domain proxy (resolve key) s =
      resolved_by network now read later request q domain proxy key
        (tell (counted dns_queries domain) s)

  unfoldable pub by_plan :
      (Query → Network)
      → ℕ
      → ℕ
      → ℕ
      → Message
      → Bool
      → QueryPlan
      → DnsService L
      → Message × DnsService L
  unfolding tell by_verdict
  by_plan network now read later request proxy (invalid code) s =
      (error_response P.new_response request code, tell (counted dns_queries []) s)
  by_plan network now read later request proxy (answer q domain verdict) s =
      by_verdict network now read later request q domain proxy verdict s

  unfoldable pub handle_from :
      (Query → Network) → ℕ → ℕ → ℕ → Message → Bool → DnsService L → Message × DnsService L
  unfolding by_plan
  handle_from network now read later request proxy s =
      by_plan network now read later request proxy
        (plan_query P.check_dns s.rewrites
          (record { op_code = request.op_code; queries = request.queries }))
        s

  unfoldable pub handle :
      (Query → Network) → ℕ → ℕ → ℕ → Message → DnsService L → Message × DnsService L
  unfolding handle_from
  handle network now read later request s = handle_from network now read later request false s

  unfoldable pub handle_proxy :
      (Query → Network) → ℕ → ℕ → ℕ → Message → DnsService L → Message × DnsService L
  unfolding handle_from
  handle_proxy network now read later request s = handle_from network now read later request true s
