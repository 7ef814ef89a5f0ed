-- ===== src/Dns/Service/Echoes.antt =====
-- Whatever becomes of a request, the response belongs to it.
use ad_block.Base.{
  ℕ, ◌≡◌, refl, ap, ◌⊎◌, inl, inr, Bool, true, false, List, ◌++◌, Option, none, some, ◌==◌,
  Bool-cases, Result, ok, err,
}
use ad_block.Dns.Cache.{LruCache, Key, Entry, DnsCache}
use ad_block.Dns.Message.{Message, Query, ResponseCode, nx_domain, serv_fail, Rr}
use ad_block.Dns.Plan.{QueryPlan, invalid, answer, Verdict, nodata, rewrite, resolve}
use ad_block.Dns.Response.{base_response, finish_response, error_response}
use ad_block.Dns.Service.{
  NewResponse, Packages, Network, Base, BlockingMode, null_ip, nxdomain, DnsService,
}
use ad_block.Dns.Rewrites.{RewriteAnswer}
use ad_block.Dns.Service.Answering.{
  type_a, answered, came_back, went_upstream, looked, resolved_by, rewritten_as, rewrite_response,
  blocked_response, by_verdict, by_plan, handle_from,
}
use ad_block.Dns.Upstream.Resolver.{Resolver, ResolveError}
use ad_block.Text.{Text}

-- A response to a request: with its id, its questions and its wish for recursion.
pub record Responds (request resp : Message) : Type 0 where
  pub same_id : resp.id ≡ request.id
  pub same_queries : resp.queries ≡ request.queries
  pub same_wish : resp.recursion_desired ≡ request.recursion_desired
  pub responds : resp.is_response ≡ true
  pub offers_recursion : resp.recursion_available ≡ true

module _ (L : LruCache Key Entry) (P : Packages) (H : NewResponse P.new_response)
    (network : Query → Network) (request : Message) where
  abbrev Fits : Message × DnsService L → Type 0
  Fits q = Responds request q.0

  base_response-Responds : Responds request (base_response P.new_response request)
  unfolding base_response
  base_response-Responds = record {
    same_id = H.has_id request.id;
    same_queries = ap (λ qs. qs ++ request.queries) (H.has_no_queries request.id);
    same_wish = refl;
    responds = H.is_a_response request.id;
    offers_recursion = refl;
  }

  finish_response-Responds : (m : Message) → Responds request (finish_response m request)
  unfolding finish_response
  finish_response-Responds m = record {
    same_id = refl;
    same_queries = refl;
    same_wish = refl;
    responds = refl;
    offers_recursion = refl;
  }

  amended-Responds :
      (m : Message) (rs : List Rr) (code : ResponseCode)
      → Responds request m
      → Responds request (record m { answers = rs; response_code = code })
  amended-Responds m rs code h = record {
    same_id = h.same_id;
    same_queries = h.same_queries;
    same_wish = h.same_wish;
    responds = h.responds;
    offers_recursion = h.offers_recursion;
  }

  blocked_response-Responds :
      (base : Base) (q : Query) → Responds request (blocked_response L P base request q)
  unfolding blocked_response
  blocked_response-Responds base q =
      by_mode base.blocking_mode (Bool-cases (q.query_type == type_a))
    where
      empty : Message
      empty = base_response P.new_response request

      by_mode :
          (mode : BlockingMode)
          → ((q.query_type == type_a) ≡ true) ⊎ ((q.query_type == type_a) ≡ false)
          → Responds request (blocked_response L P (record base { blocking_mode = mode }) request q)
      by_mode BlockingMode.refused c =
          amended-Responds empty empty.answers ResponseCode.refused base_response-Responds
      by_mode nxdomain c = amended-Responds empty empty.answers nx_domain base_response-Responds
      by_mode null_ip (inl c) =
          rw (c, blocked_response)
            (amended-Responds empty _ empty.response_code base_response-Responds)
      by_mode null_ip (inr c) = rw (c, blocked_response) base_response-Responds

  rewritten_as-Fits :
      (q : Query) (domain : Text) (proxy : Bool) (answers : List RewriteAnswer) (r : Resolver)
      (s : DnsService L)
      → Fits (rewritten_as L P q domain proxy (rewrite_response L P network request q answers r) s)
  unfolding rewritten_as rewrite_response answered
  rewritten_as-Fits q domain proxy answers r s =
      amended-Responds (base_response P.new_response request) _ _ base_response-Responds

  came_back-Fits :
      (later : ℕ) (q : Query) (domain : Text) (proxy : Bool) (key : Key)
      (reply : Result ResolveError (Message × Text)) (s : DnsService L)
      → Fits (came_back L P later request q domain proxy key reply s)
  unfolding came_back answered error_response
  came_back-Fits later q domain proxy key (ok (m, label)) s = finish_response-Responds _
  came_back-Fits later q domain proxy key (err e) s =
      amended-Responds (base_response P.new_response request) _ serv_fail base_response-Responds

  looked-Fits :
      (later : ℕ) (q : Query) (domain : Text) (proxy : Bool) (key : Key)
      (hit : Option Message × DnsCache L) (s : DnsService L)
      → Fits (looked L P network later request q domain proxy key hit s)
  unfolding looked answered went_upstream
  looked-Fits later q domain proxy key (some m, c) s = finish_response-Responds _
  looked-Fits later q domain proxy key (none, c) s = came_back-Fits later q domain proxy key _ _

  by_verdict-Fits :
      (now read later : ℕ) (q : Query) (domain : Text) (proxy : Bool) (v : Verdict)
      (s : DnsService L)
      → Fits (by_verdict L P network now read later request q domain proxy v s)
  unfolding by_verdict answered resolved_by
  by_verdict-Fits now read later q domain proxy nodata s = elim (Bool-cases s.settings.log_ipv6) [
    | inl e ↦ rw (e, by_verdict) base_response-Responds
    | inr e ↦ rw (e, by_verdict) base_response-Responds
  ]
  by_verdict-Fits now read later q domain proxy (rewrite answers) s =
      rewritten_as-Fits q domain proxy answers s.resolver s
  by_verdict-Fits now read later q domain proxy (Verdict.blocked attribution) s =
      blocked_response-Responds s.base q
  by_verdict-Fits now read later q domain proxy (resolve key) s =
      looked-Fits later q domain proxy key _ _

  by_plan-Fits :
      (now read later : ℕ) (proxy : Bool) (plan : QueryPlan) (s : DnsService L)
      → Fits (by_plan L P network now read later request proxy plan s)
  unfolding by_plan error_response
  by_plan-Fits now read later proxy (invalid code) s =
      amended-Responds (base_response P.new_response request) _ code base_response-Responds
  by_plan-Fits now read later proxy (answer q domain v) s =
      by_verdict-Fits now read later q domain proxy v s

  -- If the package's Message::response makes a response with the id and without questions, then
  -- whatever becomes of a request (refused, AAAA, answered by local records, blocked in any mode,
  -- cached, resolved, failed), the response has its id, its questions and its wish for recursion,
  -- is marked as a response and offers recursion.
  pub handle_from-Responds :
      (now read later : ℕ) (proxy : Bool) (s : DnsService L)
      → Responds request (handle_from L P network now read later request proxy s).0
  unfolding handle_from
  handle_from-Responds now read later proxy s = by_plan-Fits now read later proxy _ s
