-- ===== src/Dns/Service.antt =====
-- `DnsService` of src/dns/mod.rs: what a query is answered, and what is recorded of it. The cache, the
-- resolver and the plan are those of the other modules; the statistics are the events that they are
-- told. The filter and the constructors of the hickory_proto package are parameters.
pub mod Recording
pub mod Answering
pub mod Echoes
pub mod Stripping
pub mod Counting
pub mod Changes
pub mod Servers
pub mod Made
pub mod Blocking
use ad_block.Base.{
  ℕ, ◌≡◌, Bool, true, false, not, List, [], ◌∷◌, ◌++◌, Option, none, some, any, ◌==◌, if◌then◌else◌,
  Result, ok, err,
}
use ad_block.Dns.Cache.{LruCache, Key, Entry, DnsCache}
use ad_block.Dns.Message.{Message, OpCode, Query, ResponseCode, RData, Rr}
use ad_block.Dns.Plan.{Decision}
use ad_block.Dns.Rewrites.{RewriteStore}
use ad_block.Dns.Settings.{EffectiveDnsSettings}
use ad_block.Dns.Upstream.Resolver.{Attempt, Resolver, ResolveError}
use ad_block.Stats.History.{Metric}
use ad_block.Text.{Text}

-- What the handler takes from outside: the filter; `Message::response`; `Name::from_utf8`, that is,
-- whether a text is a name; `Record::from_rdata` and `Query::query`, with the name as a text.
pub record Packages : Type 0 where
  pub check_dns : Text → Decision
  pub new_response : ℕ → Message
  pub is_name : Text → Bool
  pub from_rdata : Text → ℕ → RData → Rr
  pub query_for : Text → ℕ → Query

-- What the package promises of `Message::response`.
pub record NewResponse (new_response : ℕ → Message) : Type 0 where
  pub has_id : (n : ℕ) → (new_response n).id ≡ n
  pub has_no_queries : (n : ℕ) → (new_response n).queries ≡ []
  pub has_no_answers : (n : ℕ) → (new_response n).answers ≡ []
  pub has_no_additionals : (n : ℕ) → (new_response n).additionals ≡ []
  pub is_a_response : (n : ℕ) → (new_response n).is_response ≡ true

-- What becomes of a query that is sent upstream: the arguments of `Resolver::resolve`.
pub record Network : Type 0 where
  pub net : ℕ → Attempt
  pub encoded : Option ℕ
  pub random : ℕ
  pub finish : List ℕ

pub data BlockingMode : Type 0 where
  null_ip nxdomain refused : BlockingMode

pub data DnsOutcome : Type 0 where
  resolved rewritten cached blocked failed : DnsOutcome

-- `DnsRecord`, without its number, its times and the summary of the answers.
pub record DnsRecord : Type 0 where
  pub domain : Text
  pub qtype : ℕ
  pub outcome : DnsOutcome
  pub rcode : Result ResolveError ResponseCode
  pub upstream : Text
  pub ech : Bool
  pub blocked_by : Text
  pub proxy : Bool

pub data StatEvent : Type 0 where
  counted : Metric → Text → StatEvent
  block_counted : Metric → Text → StatEvent
  error_counted : StatEvent
  block_logged : ℕ → Text → Text → StatEvent
  error_logged : Text → ResolveError → StatEvent
  recorded : DnsRecord → StatEvent

pub data RecordedAs : Type 0 where
  as_nodata as_rewritten as_cached : RecordedAs
  as_resolved as_blocked : Text → RecordedAs
  as_error : ResolveError → RecordedAs

pub record Base : Type 0 where
  pub blocking_mode : BlockingMode
  pub blocked_ttl_secs : ℕ

-- `log_actions` is the setting of the statistics; `events` is what they were told, the last one first.
pub record DnsService (L : LruCache Key Entry) : Type 0 where
  pub cache : DnsCache L
  pub resolver : Resolver
  pub settings : EffectiveDnsSettings
  pub rewrites : RewriteStore
  pub base : Base
  pub log_actions : Bool
  pub events : List StatEvent
