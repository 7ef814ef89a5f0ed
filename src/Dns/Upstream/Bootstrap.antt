-- ===== src/Dns/Upstream/Bootstrap.antt =====
-- The address at which `Resolver` reaches a server: pinned, written in its host, remembered, or looked
-- up at the bootstrap servers. Times are in milliseconds.
use ad_block.Base.{
  ℕ, ◌+◌, ◌*◌, min, max, Bool, ◌&&◌, List, [], ◌∷◌, Option, none, some, ltb, ◌==◌, if◌then◌else◌,
  is_empty, Result, ok, err,
}
use ad_block.Dns.Message.{
  Message, Rr, RData, a_record, aaaa_record, cname_record, https, svcb, other_data,
}
use ad_block.Dns.Upstream.Addr.{UpstreamAddr}
use ad_block.Net.{Ipv4Addr, parse_ipv4, is_ipv6}
use ad_block.Text.{Text}

-- An IPv6 address is kept in its text.
pub data IpAddr : Type 0 where
  v4 : Ipv4Addr → IpAddr
  v6 : Text → IpAddr

unfoldable pub parse_ip : Text → Option IpAddr
parse_ip host = elim (parse_ipv4 host) [
  | some ip ↦ some (v4 ip)
  | none ↦ if is_ipv6 host then some (v6 host) else none
]

unfoldable pub is_unspecified : Ipv4Addr → Bool
is_unspecified ip = (ip.a == 0) && ((ip.b == 0) && ((ip.c == 0) && (ip.d == 0)))

-- What asking a bootstrap server comes to: no socket, or no query; nothing sent, or nothing heard in
-- three seconds; no message; a message.
pub data Asked : Type 0 where
  no_socket silent not_a_message : Asked
  answered : Message → Asked

pub data BootstrapError : Type 0 where
  no_bootstrap bad_host no_way not_resolved : BootstrapError

unfoldable pub address_of : RData → ℕ → Option (Ipv4Addr × ℕ)
unfolding is_unspecified
address_of (a_record ip) ttl = if is_unspecified ip then none else some (ip, ttl)
address_of (aaaa_record t) ttl = none
address_of (cname_record t) ttl = none
address_of (https params) ttl = none
address_of (svcb params) ttl = none
address_of (other_data t) ttl = none

abbrev pub or_else : Option (Ipv4Addr × ℕ) → Option (Ipv4Addr × ℕ) → Option (Ipv4Addr × ℕ)
or_else (some found) rest = some found
or_else none rest = rest

unfoldable pub first_address : List Rr → Option (Ipv4Addr × ℕ)
unfolding address_of
first_address [] = none
first_address (r ∷ rs) = or_else (address_of r.rdata r.ttl) (first_address rs)

abbrev pub found_or :
    Option (Ipv4Addr × ℕ)
    → Result BootstrapError (Ipv4Addr × ℕ)
    → Result BootstrapError (Ipv4Addr × ℕ)
found_or (some found) rest = ok found
found_or none rest = rest

-- What a server's answer comes to; `rest` is what the servers behind it give.
unfoldable pub heard :
    Asked → Result BootstrapError (Ipv4Addr × ℕ) → Result BootstrapError (Ipv4Addr × ℕ)
unfolding first_address
heard no_socket rest = err no_way
heard silent rest = rest
heard not_a_message rest = rest
heard (answered m) rest = found_or (first_address m.answers) rest

unfoldable pub ask_servers :
    (Ipv4Addr × ℕ → Asked) → List (Ipv4Addr × ℕ) → Result BootstrapError (Ipv4Addr × ℕ)
unfolding heard
ask_servers ask [] = err not_resolved
ask_servers ask (server ∷ servers) = heard (ask server) (ask_servers ask servers)

-- `is_name`: whether the host can stand in a query.
unfoldable pub bootstrap_lookup :
    (Ipv4Addr × ℕ → Asked)
    → (Text → Bool)
    → List (Ipv4Addr × ℕ)
    → Text
    → Result BootstrapError (Ipv4Addr × ℕ)
unfolding ask_servers
bootstrap_lookup ask is_name servers host =
    if is_empty servers
    then err no_bootstrap
    else if is_name host
    then ask_servers ask servers
    else err bad_host

-- `Resolver::resolve_host`.
unfoldable pub resolve_host :
    (Ipv4Addr × ℕ → Asked)
    → (Text → Bool)
    → List (Ipv4Addr × ℕ)
    → Text
    → Result BootstrapError IpAddr
unfolding parse_ip bootstrap_lookup
resolve_host ask is_name servers host = elim (parse_ip host) [
  | some ip ↦ ok ip
  | none ↦ elim (bootstrap_lookup ask is_name servers host) [
    | ok (ip, ttl) ↦ ok (v4 ip)
    | err e ↦ err e
  ]
]

-- What a server remembers: an address, and when it is looked up again.
abbrev pub Resolved : Type 0
Resolved = Option (IpAddr × ℕ)

unfoldable pub remembered : Resolved → ℕ → Option IpAddr
remembered none now = none
remembered (some (ip, expires)) now = if ltb now expires then some ip else none

unfoldable pub keep_looked_up :
    Result BootstrapError (Ipv4Addr × ℕ)
    → ℕ
    → ℕ
    → Resolved
    → Result BootstrapError (IpAddr × ℕ) × Resolved
keep_looked_up (err e) port after resolved = (err e, resolved)
keep_looked_up (ok (ip, ttl)) port after resolved =
    (ok (v4 ip, port), some (v4 ip, after + min (max ttl 60) 3600 * 1000))

-- The address that needs no lookup.
unfoldable pub known : UpstreamAddr → Option IpAddr
unfolding parse_ip
known addr = elim addr.ip [ some ip ↦ some (v4 ip) | none ↦ parse_ip addr.host ]

unfoldable pub reach :
    Option IpAddr
    → Option IpAddr
    → Result BootstrapError (Ipv4Addr × ℕ)
    → ℕ
    → ℕ
    → Resolved
    → Result BootstrapError (IpAddr × ℕ) × Resolved
unfolding keep_looked_up
reach (some ip) memory looked_up port after resolved = (ok (ip, port), resolved)
reach none (some ip) looked_up port after resolved = (ok (ip, port), resolved)
reach none none looked_up port after resolved = keep_looked_up looked_up port after resolved

-- `looked_up` is what `bootstrap_lookup` gives for the host, if it is called, and `after` the clock
-- when it has.
unfoldable pub target_addr :
    Result BootstrapError (Ipv4Addr × ℕ)
    → UpstreamAddr
    → ℕ
    → ℕ
    → Resolved
    → Result BootstrapError (IpAddr × ℕ) × Resolved
unfolding known remembered reach
target_addr looked_up addr now after resolved =
    reach (known addr) (remembered resolved now) looked_up addr.port after resolved
