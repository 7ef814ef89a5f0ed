-- ===== src/Tests/Service.antt =====
-- The DNS service, at concrete inputs.
use ad_block.Base.{◌≡◌, ◌+◌, refl, true, false, [], ◌∷◌, none, some, ok}
use ad_block.Dns.Cache.{Key, key_of, set_config}
use ad_block.Dns.Message.{Message, Query, query_code}
use ad_block.Dns.Plan.{plan_query, answer, resolve}
use ad_block.Dns.Response.Ech.{Clean}
use ad_block.Dns.Rewrites.{RewriteStore}
use ad_block.Dns.Service.{Packages, NewResponse, Network, null_ip, DnsService}
use ad_block.Dns.Service.Answering.{handle_from}
use ad_block.Dns.Lookup
use ad_block.Dns.Service.Changes.{
  Configured, apply_settings, no_overrides, realize, resolver_for, same_servers, texts_eq, mode_eq,
}
use ad_block.Dns.Service.Counting.{
  total, requests_in, records_in, recorded_for, handle_from-counted,
}
use ad_block.Dns.Service.Echoes.{Responds, handle_from-Responds}
use ad_block.Dns.Service.Made.{Made, apply_settings-Made}
use ad_block.Dns.Service.Stripping.{handle_from-Clean}
use ad_block.Dns.Settings.{
  DnsOverrides, load_balance, parallel, validate, with_overrides, normalized, merged_with,
}
use ad_block.Dns.Upstream.Resolver.{new, parse_upstreams, parse_bootstrap}
use ad_block.Dns.Upstream.Probe.{inherit_ech}
use ad_block.Tests.ResponseCache.{last_entry, cache}
use ad_block.Tests.Upstream.{resolver, message, network}
use ad_block.Text.{Text, codes, trim, trim_matches, trim_end_matches, trim_start_matches}

abbrev question : Query
question = record {
  name_utf8 = codes "a.test.";
  name_ascii = codes "a.test.";
  query_type = 65;
  query_class = 1;
}

abbrev request : Message
request = record message { id = 99; is_response = false; queries = question ∷ []; edns = some 4096 }

abbrev packages : Packages
packages = record {
  check_dns = λ d. record { blocked = false; attribution = [] };
  new_response =
      λ n. record message { id = n; recursion_desired = false; recursion_available = false };
  is_name = λ t. true;
  from_rdata = λ name ttl rdata. record { ttl = ttl; rdata = rdata; rest = name };
  query_for = λ name qtype. record {
    name_utf8 = name;
    name_ascii = name;
    query_type = qtype;
    query_class = 1;
  };
}

abbrev promised : NewResponse packages.new_response
promised = record {
  has_id = λ n. refl;
  has_no_queries = λ n. refl;
  has_no_answers = λ n. refl;
  has_no_additionals = λ n. refl;
  is_a_response = λ n. refl;
}

abbrev service : DnsService last_entry
service = record {
  cache = cache;
  resolver = resolver;
  settings = record {
    upstreams = [];
    upstream_mode = load_balance;
    bootstrap = [];
    cache_size = 2;
    override_min_ttl_secs = 0;
    override_max_ttl_secs = 120;
    ech_probe_domain = [];
    ech_probe_mins = 0;
    strip_ech = true;
    log_ipv6 = false;
  };
  rewrites = record { entries = []; header = []; file = none };
  base = record { blocking_mode = null_ip; blocked_ttl_secs = 60 };
  log_actions = true;
  events = [];
}

abbrev answering : Query → Network
answering q = record { net = network; encoded = some 7; random = 3; finish = 0 ∷ 2 ∷ [] }

handle_from-Responds_example :
    Responds request (handle_from last_entry packages answering 5 6 7 request false service).0
handle_from-Responds_example =
    handle_from-Responds last_entry packages promised answering request 5 6 7 false service

handle_from-counted_example :
    (total requests_in
        (handle_from last_entry packages answering 5 6 7 request false service).1.events
      ≡ 1 + total requests_in [])
    × (total records_in
          (handle_from last_entry packages answering 5 6 7 request false service).1.events
        ≡ recorded_for false (
            plan_query packages.check_dns service.rewrites
              (record { op_code = query_code; queries = question ∷ [] }))
          + total records_in [])
handle_from-counted_example =
    handle_from-counted last_entry packages answering request 5 6 7 false service

abbrev asked : Key
asked = record { name = codes "a.test."; qtype = 65; qclass = 1 }

planned :
    plan_query packages.check_dns service.rewrites
      (record { op_code = query_code; queries = question ∷ [] })
    ≡ answer question (codes "a.test") (resolve asked)
unfolding plan_query ad_block.Text.to_ascii_lowercase ad_block.Dns.Rewrites.matching
    ad_block.Text.trim_end_matches ad_block.Dns.Rewrites.max_by_specificity
    ad_block.Text.char_to_ascii_lowercase ad_block.Dns.Rewrites.candidates key_of
planned = refl

handle_from-Clean_example :
    Clean (handle_from last_entry packages answering 5 6 7 request false service).0.answers
    × Clean (handle_from last_entry packages answering 5 6 7 request false service).0.additionals
handle_from-Clean_example =
    handle_from-Clean last_entry packages answering request promised 5 6 7 false question
      (codes "a.test") asked service planned refl

abbrev configured : Configured last_entry
configured = record {
  service = record service { resolver = record resolver { upstreams = [] } };
  saved = no_overrides;
}

abbrev to_parallel : DnsOverrides
to_parallel = record no_overrides { upstream_mode = some parallel }

abbrev changed : Configured last_entry
changed = record {
  service = record service {
    resolver = record {
      upstreams = [];
      mode = parallel;
      bootstrap = [];
      timeout_ms = 2000;
      preferred = 0;
    };
    settings = record service.settings { upstream_mode = parallel };
  };
  saved = to_parallel;
}

made : Made configured.service.settings configured.service.resolver
unfolding parse_upstreams
made = ([], refl, refl, refl)

applied : apply_settings last_entry 2000 true to_parallel configured ≡ ok changed
unfolding apply_settings realize validate resolver_for same_servers texts_eq mode_eq with_overrides
    normalized merged_with set_config new inherit_ech parse_upstreams parse_bootstrap trim
    trim_matches trim_end_matches trim_start_matches
applied = refl

apply_settings-Made_example : Made changed.service.settings changed.service.resolver
apply_settings-Made_example =
    apply_settings-Made last_entry 2000 true to_parallel configured changed made applied

abbrev for_a : Query
for_a = record question { query_type = 1 }

abbrev request_a : Message
request_a = record request { queries = for_a ∷ [] }

abbrev blocking : Packages
blocking = record packages {
  check_dns = λ d. record { blocked = true; attribution = codes "rule" };
}
