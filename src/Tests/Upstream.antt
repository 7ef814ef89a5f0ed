-- ===== src/Tests/Upstream.antt =====
-- Upstream servers, at concrete inputs.
use ad_block.Base.{
  ℕ, ◌==◌, if◌then◌else◌, ◌≡◌, refl, true, false, Bool, [], ◌∷◌, none, some, arith, ok, err,
  get_elem?, any,
}
use mathlib.Core.List.Perm
use ad_block.Dns.Message.{query_code, Message, no_error}
use ad_block.Dns.Settings.{load_balance}
use ad_block.Dns.Upstream.Addr.{UpstreamAddr, udp, tls, parse}
use ad_block.Dns.Upstream.Answers.{answers, is_ok, failures, resolve_sequential-append}
use ad_block.Dns.Upstream.Bootstrap.{
  v4, not_resolved, target_addr, known, parse_ip, remembered, reach, keep_looked_up,
}
use ad_block.Dns.Upstream.Reached.{target_addr-again}
use ad_block.Dns.Upstream.Health.{no_stats}
use ad_block.Dns.Upstream.Parked.{resolve-ok, resolve-parked}
use ad_block.Dns.Upstream.Parking.{marked, parse-park}
use ad_block.Dns.Upstream.Resolver.{
  Upstream, Resolver, Attempt, replied, timed_out, active, active_from, judge, note, resolve,
  resolve_sequential, label_at, nothing_asked,
}
use ad_block.Net.{Ipv4Addr}
use ad_block.Text.{
  codes, trim, trim_matches, trim_start_matches, trim_end_matches, is_whitespace, strip_prefix,
}

abbrev pub message : Message
message = record {
  id = 7;
  is_response = true;
  op_code = query_code;
  recursion_desired = true;
  recursion_available = true;
  authoritative = false;
  queries = [];
  signed = false;
  edns = none;
  truncation = false;
  response_code = no_error;
  answers = [];
  authorities = [];
  additionals = [];
  rest = [];
}

abbrev server : ℕ → Bool → Upstream
server n on = record {
  addr = record {
    spec = codes "udp://192.0.2.1";
    name = codes "one";
    enabled = on;
    scheme = udp;
    host = codes "192.0.2.1";
    ip = none;
    port = n;
    path = [];
  };
  stats = no_stats;
  ech = 0;
}

-- The second server is switched off; the third is preferred.
abbrev pub resolver : Resolver
resolver = record {
  upstreams = server 53 true ∷ server 54 false ∷ server 55 true ∷ [];
  mode = load_balance;
  bootstrap = [];
  timeout_ms = 2000;
  preferred = 2;
}

abbrev pub network : ℕ → Attempt
network i = if i == 0 then replied 7 message 900 else timed_out

all_active : active resolver ≡ 0 ∷ 2 ∷ []
unfolding active active_from
all_active = refl

some_answer : any (answers network 7) (active resolver) ≡ true
unfolding active active_from judge
some_answer = refl

resolve-ok_example : is_ok (resolve network (some 7) 12 (0 ∷ 2 ∷ []) resolver).0 ≡ true
unfolding active
resolve-ok_example =
    resolve-ok network 7 12 (0 ∷ 2 ∷ []) resolver (Perm.refl (0 ∷ 2 ∷ [])) some_answer

resolve-parked_example :
    get_elem? (resolve network (some 7) 12 (2 ∷ 0 ∷ []) resolver).1.upstreams 1
    ≡ some (server 54 false)
unfolding active
resolve-parked_example =
    resolve-parked network (some 7) 12 (2 ∷ 0 ∷ []) resolver 1 (server 54 false) (Perm.swap 0 2 [])
      refl refl

failed_2 : answers network 7 2 ≡ false
unfolding judge
failed_2 = refl

answer_0 : judge 7 0 (network 0) ≡ ok (message, 900)
unfolding judge
answer_0 = refl

resolve_sequential-append_example :
    resolve_sequential network 7 (2 ∷ 0 ∷ []) nothing_asked resolver ≡ (
      ok (message, label_at resolver 0),
      record (note 0 900 false (failures (2 ∷ []) resolver)) { preferred = 0 },
    )
resolve_sequential-append_example =
    resolve_sequential-append network 7 (2 ∷ []) [] 0 900 message nothing_asked resolver
      (failed_2, tt) answer_0

trimmed : trim (codes "tls://9.9.9.9#Quad 9") ≡ codes "tls://9.9.9.9#Quad 9"
unfolding trim trim_matches trim_start_matches trim_end_matches is_whitespace
trimmed = refl

unparked : strip_prefix (b'!' ∷ []) (codes "tls://9.9.9.9#Quad 9") ≡ none
unfolding strip_prefix
unparked = refl

parse-park_example :
    parse (codes "!tls://9.9.9.9#Quad 9")
    ≡ marked (codes "!tls://9.9.9.9#Quad 9") false (parse (codes "tls://9.9.9.9#Quad 9"))
parse-park_example = parse-park (codes "tls://9.9.9.9#Quad 9") trimmed unparked

abbrev by_name : UpstreamAddr
by_name = record {
  spec = codes "tls://dns.test";
  name = [];
  enabled = true;
  scheme = tls;
  host = codes "dns.test";
  ip = none;
  port = 853;
  path = [];
}

abbrev quad : Ipv4Addr
quad = record { a = 9; b = 9; c = 9; d = 9 }

first_lookup :
    target_addr (ok (quad, 300)) by_name 900 1000 none
    ≡ (ok (v4 quad, 853), some (v4 quad, 301_000))
unfolding target_addr known parse_ip remembered reach keep_looked_up ad_block.Net.parse_ipv4
    ad_block.Text.byte_len ad_block.Text.len_utf8 ad_block.Net.read_ipv4 ad_block.Net.read_octet
    ad_block.Net.read_digits ad_block.Text.is_digit ad_block.Net.is_ipv6 ad_block.Net.read_char
first_lookup = refl

target_addr-again_example :
    target_addr (err not_resolved) by_name 60_000 60_500 (some (v4 quad, 301_000))
    ≡ (ok (v4 quad, 853), some (v4 quad, 301_000))
target_addr-again_example =
    target_addr-again (ok (quad, 300)) (err not_resolved) by_name 900 1000 60_000 60_500
      (v4 quad, 853) (some (v4 quad, 301_000)) first_lookup (omega arith)
