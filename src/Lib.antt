-- ===== src/Lib.antt =====
-- A model of an ad-blocking HTTP proxy and DNS server (src/): the parts that decide, without the
-- sockets.
--
-- The program has a DNS server (src/dns), a filtering proxy (src/proxy), the filters (src/adblock),
-- the statistics of both (src/stats) and an admin interface (src/web) whose commands change their
-- settings. A DNS query is answered from the local records, refused by the filters, answered from
-- the cache, or sent upstream; what happens is counted in the statistics.
--
-- The files:
--   Base             numbers, lists, results, sorting: what the standard library is used for
--   Text             the functions on strings that the program calls; a text is the list of its
--                    Unicode scalar values
--   Net              IPv4 addresses, read and printed, and the test for IPv6, of the standard library
--   Json             serde_json::Value and its accessors; the parser is a parameter
--   Persist          src/dns/persist.rs: PersistedSet. The list that is served and the text of the
--                    file are one state; what becomes of a write is an argument of the call
--   Dns/Message      the fields of a DNS message that src/dns uses
--   Dns/Rewrites     src/dns/rewrites.rs: RewriteStore::{load, matching, add, remove, set_enabled}
--   Dns/Cache        src/dns/cache.rs: DnsCache::{new, set_config, get, put, clear, len, capacity,
--                    status}. The LruCache of the lru package is a record of operations and laws, a
--                    parameter of the section
--   Dns/Plan         src/dns/plan.rs: plan_query, over the local records and the cache key; the filter
--                    is a parameter
--   Dns/Response     src/dns/response.rs: record_has_ech, base_response, finish_response,
--                    error_response, strip_ech_params
--   Dns/Upstream     src/dns/upstream.rs: UpstreamAddr (Addr, Parking), Stats and EchSupport (Health),
--                    Resolver::{new, active, failover_order, load_balanced_order, resolve,
--                    resolve_sequential, resolve_parallel} (Resolver, with Order, Answers and Parked
--                    for what they promise), write_framed and read_framed (Framing), query_one,
--                    query_dot and query_doh (Connection), target_addr, bootstrap_lookup and
--                    resolve_host (Bootstrap, with Reached for what they keep), the ECH probes and
--                    upstream_stats (Probe). What the network gives is an argument of each call
--   Dns/Service      src/dns/mod.rs: DnsService::{handle, handle_proxy, handle_from,
--                    rewrite_response, blocked_response} (Answering), record (Recording), {realize,
--                    apply_settings, reset_settings, flush_cache, status, probe_ech_now} (Changes),
--                    edit_upstreams (Servers); what the handler promises is in Echoes, Stripping and
--                    Counting, what a change of settings keeps in Made. The statistics are the list
--                    of what they are told
--   Dns/Commands     src/dns/commands.rs: RewriteCommand, UpstreamCommand, DnsConfigCommand
--   Dns/Lookup       src/dns/lookup.rs: resolve, ech_config_list; Dns/Service/Blocking joins it to
--                    the handler
--   Dns/Settings     src/dns/settings.rs: DnsOverrides::{merged_with, from_effective} and
--                    EffectiveDnsSettings::{with, validate, normalized}
--   Proxy/Exclusions src/proxy/exclusions.rs: ExclusionStore::{load, matching, add, remove,
--                    set_enabled}
--   Proxy/Commands   src/proxy/exclusions.rs: ExclusionCommand
--   Proxy/Target     src/proxy/target.rs: split_host_port, HttpTarget::{parse, url}
--   Proxy/Pipeline   src/proxy/pipeline.rs: plan_request, plan_connect
--   Stats/Exclude    src/stats/exclude.rs: StatsExclusions::{load, excludes, add, remove}
--   Stats/Logs       src/stats/logs.rs: RotatingLog::{open, set_rotate_hours, page, find} and
--                    write_line; what becomes of each file call is an argument
--   Stats/Commands   src/stats/exclude.rs: StatsExclusionCommand
--   Stats/History    src/stats/history.rs: History::{record_at, snapshot_at, reset,
--                    set_retention_hours, retention_hours}
--   Adblock/Commands src/adblock/commands.rs: BlocklistCommand, RuleTest, CosmeticQuery, DnsRuleTest
--   Adblock/Lists    src/adblock/curation.rs: header, strip_source_header, entry_from_text, list_title,
--                    sanitize_name; src/adblock/mod.rs: count_rules. The pass that removes `.txt` takes
--                    the number of characters as fuel, more than the suffixes there can be
--   Adblock/Curation src/adblock/curation.rs: ListCuration::{list, add_list, apply_rules, append_rules,
--                    set_list_enabled, remove_list, install_downloaded}
--   Adblock/Classify src/adblock/classify.rs: request_type, source_url, is_beacon_shaped
--   Tests            runs at concrete inputs
-- The modules below a component hold its theorems and are named for what they prove.
--
-- Locks: each operation of the set files, the cache, the history and the log takes its lock once, so
-- a call is one step and the interleavings of threads are the sequences of calls. In DnsCache the
-- counters and the TTL bounds are atomics beside the lock: get counts after it has released it, and
-- put reads the bounds before it takes it. A call of status or set_config that falls in between is
-- not told apart here from one before or after. DnsService and ListCuration read, wait or write files,
-- and write under separate locks; the model runs one call at a time, so that what two calls do to
-- each other in between is left out. Resolver::resolve is one step as well, with all that the network
-- gives for it as an argument.
--
-- Clocks are arguments: seconds of the wall clock in the history, nanoseconds of the monotone clock in
-- the cache, which `get` reads twice, as `target_addr` reads its own before and behind the lookup. Unicode's lower case, str::to_lowercase, is a parameter. All loops
-- are structural, but for the decimal digits of a port, which take the number of digits (five are
-- enough below 65536), and the removal of `.txt` above.
--
-- Numbers are unbounded, except where the code cuts them: the age in the cache is cut to 32 bits.
-- Counters are taken not to reach 2^64. A subtraction that the code lets panic is `none`.
--
-- Not modelled: sockets, TLS, HTTP, the filter engine (the adblock package), the text of
-- the JSON settings files, the texts of error messages and the log output; the connections,
-- certificates and egress of the proxy, the bodies that it rewrites, the web interface, the tester and the start of the program.
-- Bytes on a connection are read whole: a read that comes in parts is not told apart.
-- A line of the log holds no line break, as the JSON of a record, and is written whole or not at all: what
-- a failed write leaves of a line is left out. Of a server of the resolver, the record Upstream has the
-- address, the statistics and the ECH support; the address it remembers and its two connections are
-- arguments and results of the operations that use them.
pub mod Base
pub mod Text
pub mod Json
pub mod Net
pub mod Persist
pub mod Dns
pub mod Stats
pub mod Proxy
pub mod Adblock
mod Tests
