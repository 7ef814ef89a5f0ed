-- ===== src/Dns/Service/Recording.antt =====
-- `DnsService::record`: what is recorded of an answer.
use ad_block.Base.{Bool, [], Result, ok, err}
use ad_block.Dns.Message.{Message, Query, ResponseCode}
use ad_block.Dns.Service.{
  DnsOutcome, DnsRecord, RecordedAs, as_nodata, as_rewritten, as_cached, as_resolved, as_blocked,
  as_error,
}
use ad_block.Dns.Upstream.Probe.{answer_has_ech}
use ad_block.Dns.Upstream.Resolver.{ResolveError}
use ad_block.Text.{Text, codes}

unfoldable pub outcome_of : RecordedAs → DnsOutcome
outcome_of as_nodata = DnsOutcome.resolved
outcome_of (as_resolved upstream) = DnsOutcome.resolved
outcome_of as_rewritten = DnsOutcome.rewritten
outcome_of as_cached = DnsOutcome.cached
outcome_of (as_blocked attribution) = DnsOutcome.blocked
outcome_of (as_error cause) = DnsOutcome.failed

unfoldable pub upstream_of : RecordedAs → Text
upstream_of (as_resolved upstream) = upstream
upstream_of as_rewritten = codes "rewrite"
upstream_of as_nodata = []
upstream_of as_cached = []
upstream_of (as_blocked attribution) = []
upstream_of (as_error cause) = []

unfoldable pub blocked_by_of : RecordedAs → Text
blocked_by_of (as_blocked attribution) = attribution
blocked_by_of (as_resolved upstream) = []
blocked_by_of as_rewritten = []
blocked_by_of as_nodata = []
blocked_by_of as_cached = []
blocked_by_of (as_error cause) = []

unfoldable pub rcode_of : RecordedAs → ResponseCode → Result ResolveError ResponseCode
rcode_of (as_error cause) code = err cause
rcode_of (as_blocked attribution) code = ok code
rcode_of (as_resolved upstream) code = ok code
rcode_of as_rewritten code = ok code
rcode_of as_nodata code = ok code
rcode_of as_cached code = ok code

unfoldable pub dns_record : Query → Text → Bool → Message → RecordedAs → DnsRecord
unfolding outcome_of upstream_of blocked_by_of rcode_of
dns_record q domain proxy resp how = record {
  domain = domain;
  qtype = q.query_type;
  outcome = outcome_of how;
  rcode = rcode_of how resp.response_code;
  upstream = upstream_of how;
  ech = answer_has_ech resp;
  blocked_by = blocked_by_of how;
  proxy = proxy;
}
