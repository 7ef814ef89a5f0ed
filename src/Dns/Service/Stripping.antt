-- ===== src/Dns/Service/Stripping.antt =====
-- With `strip_ech` on, what the cache or an upstream server gives is passed on without ECH parameters.
use ad_block.Base.{
  ℕ, ◌≡◌, arith, sym, subst, Bool, true, false, Option, none, some, Result, ok, err,
}
use ad_block.Dns.Cache.{LruCache, Key, Entry, DnsCache, get}
use ad_block.Dns.Message.{Message, Query, serv_fail}
use ad_block.Dns.Plan.{answer, resolve, plan_query}
use ad_block.Dns.Response.{base_response, finish_response, error_response}
use ad_block.Dns.Response.Ech.{Clean, strip_ech_params_cases}
use ad_block.Dns.Service.{NewResponse, Packages, Network, counted, DnsService}
use ad_block.Stats.History.{dns_queries}
use ad_block.Dns.Service.Answering.{
  tell, answered, stripped, came_back, went_upstream, looked, resolved_by, by_verdict, by_plan,
  handle_from,
}
use ad_block.Dns.Upstream.Resolver.{ResolveError}
use ad_block.Text.{Text}

module _ (L : LruCache Key Entry) (P : Packages) (network : Query → Network)
    (request : Message) where
  abbrev Stripped : Message × DnsService L → Type 0
  Stripped q = Clean q.0.answers × Clean q.0.additionals

  finish_stripped :
      (strip_ech : Bool) (m : Message)
      → strip_ech ≡ true
      → Clean (finish_response (stripped L P strip_ech m) request).answers
        × Clean (finish_response (stripped L P strip_ech m) request).additionals
  unfolding finish_response stripped
  finish_stripped true m e = let (n, a, b, len, more, same) = strip_ech_params_cases m in (a, b)
  finish_stripped false m e = absurd (ground arith)

  module _ (H : NewResponse P.new_response) where
    error_Stripped :
        Clean (error_response P.new_response request serv_fail).answers
        × Clean (error_response P.new_response request serv_fail).additionals
    unfolding error_response base_response
    error_Stripped = (
      subst Clean (sym (H.has_no_answers request.id)) tt,
      subst Clean (sym (H.has_no_additionals request.id)) tt,
    )

    came_back-Stripped :
        (later : ℕ) (q : Query) (domain : Text) (proxy : Bool) (key : Key)
        (reply : Result ResolveError (Message × Text)) (s : DnsService L)
        → s.settings.strip_ech ≡ true
        → Stripped (came_back L P later request q domain proxy key reply s)
    unfolding came_back answered
    came_back-Stripped later q domain proxy key (ok (m, label)) s e =
        finish_stripped s.settings.strip_ech m e
    came_back-Stripped later q domain proxy key (err x) s e = error_Stripped

    looked-Stripped :
        (later : ℕ) (q : Query) (domain : Text) (proxy : Bool) (key : Key)
        (hit : Option Message × DnsCache L) (s : DnsService L)
        → s.settings.strip_ech ≡ true
        → Stripped (looked L P network later request q domain proxy key hit s)
    unfolding looked answered went_upstream
    looked-Stripped later q domain proxy key (some m, c) s e =
        finish_stripped s.settings.strip_ech m e
    looked-Stripped later q domain proxy key (none, c) s e =
        came_back-Stripped later q domain proxy key _ _ e

    by_plan-Stripped :
        (now read later : ℕ) (proxy : Bool) (q : Query) (domain : Text) (key : Key)
        (s : DnsService L)
        → s.settings.strip_ech ≡ true
        → Stripped
            (by_plan L P network now read later request proxy (answer q domain (resolve key)) s)
    unfolding by_plan by_verdict resolved_by tell
    by_plan-Stripped now read later proxy q domain key s e =
        looked-Stripped later q domain proxy key (get L now read key s.cache)
          (tell L P (counted dns_queries domain) s) e

    -- If strip_ech is on, the plan of a request is to resolve it, and Message::response makes a
    -- message without answers or additional records, then no record of the answers or the
    -- additional records of the response has an ECH parameter, whether it comes from the cache,
    -- from an upstream server, or is an error.
    pub handle_from-Clean :
        (now read later : ℕ) (proxy : Bool) (q : Query) (domain : Text) (key : Key)
        (s : DnsService L)
        → plan_query P.check_dns s.rewrites
            (record { op_code = request.op_code; queries = request.queries })
          ≡ answer q domain (resolve key)
        → s.settings.strip_ech ≡ true
        → Clean (handle_from L P network now read later request proxy s).0.answers
          × Clean (handle_from L P network now read later request proxy s).0.additionals
    unfolding handle_from tell
    handle_from-Clean now read later proxy q domain key s plan e =
        subst (λ p. Stripped (by_plan L P network now read later request proxy p s)) (sym plan)
          (by_plan-Stripped now read later proxy q domain key s e)
