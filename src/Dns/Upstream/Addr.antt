-- ===== src/Dns/Upstream/Addr.antt =====
-- `UpstreamAddr`: how a server is written in the settings. The texts of errors are their kinds.
use ad_block.Base.{
  ℕ, Bool, true, false, List, [], ◌∷◌, ◌++◌, Option, none, some, ◌==◌, if◌then◌else◌, is_empty,
  Result, ok, err, ◌>>=◌,
}
use ad_block.Net.{Ipv4Addr, parse_ipv4, ipv4_text, is_ipv6}
use ad_block.Net.Ports.{parse_u16, port_text}
use ad_block.Text.{
  Text, codes, text_eq, is_char, trim, trim_start, strip_prefix, split_once, rsplit_once,
}
use ad_block.Text.Pieces.{trim_end, split_once_at, split}

pub data Scheme : Type 0 where
  udp tcp tls https : Scheme

unfoldable pub scheme_text : Scheme → Text
scheme_text udp = codes "udp"
scheme_text tcp = codes "tcp"
scheme_text tls = codes "tls"
scheme_text https = codes "https"

pub record UpstreamAddr : Type 0 where
  pub spec : Text
  pub name : Text
  pub enabled : Bool
  pub scheme : Scheme
  pub host : Text
  pub ip : Option Ipv4Addr
  pub port : ℕ
  pub path : Text

pub data AddrError : Type 0 where
  unknown_scheme bad_pin unclosed_bracket bad_port empty_host ipv6_host : AddrError

-- The label behind a `#`.
unfoldable pub split_name : Text → Text × Text
split_name spec = elim (split_once (is_char b'#') spec) [
  | some (a, n) ↦ (trim_end a, trim n)
  | none ↦ (spec, [])
]

unfoldable pub split_park : Text → Text × Bool
split_park addr = elim (strip_prefix (b'!' ∷ []) addr) [
  | some a ↦ (trim_start a, false)
  | none ↦ (addr, true)
]

unfoldable pub scheme_of : Text → Result AddrError Scheme
scheme_of s =
    if text_eq s (codes "https")
    then ok https
    else if text_eq s (codes "tls")
    then ok tls
    else if text_eq s (codes "udp")
    then ok udp
    else if text_eq s (codes "tcp")
    then ok tcp
    else err unknown_scheme

unfoldable pub split_scheme : Text → Result AddrError (Scheme × Text)
unfolding scheme_of
split_scheme addr = elim (split_once_at (codes "://") addr) [
  | none ↦ ok (udp, addr)
  | some (s, r) ↦ elim (scheme_of s) [ err e ↦ err e | ok scheme ↦ ok (scheme, r) ]
]

-- The first value of `ip=` in a query.
unfoldable pub find_pin : List Text → Option Text
find_pin [] = none
find_pin (kv ∷ kvs) = elim (strip_prefix (codes "ip=") (trim kv)) [
  | some v ↦ some v
  | none ↦ find_pin kvs
]

unfoldable pub parse_pinned_ip : Text → Result AddrError (Option Ipv4Addr)
unfolding find_pin
parse_pinned_ip query = elim (find_pin (split (is_char b'&') query)) [
  | none ↦ ok none
  | some v ↦ elim (parse_ipv4 v) [ none ↦ err bad_pin | some ip ↦ ok (some ip) ]
]

unfoldable pub split_pin : Text → Result AddrError (Text × Option Ipv4Addr)
unfolding parse_pinned_ip
split_pin rest = elim (split_once (is_char b'?') rest) [
  | none ↦ ok (rest, none)
  | some (r, q) ↦ elim (parse_pinned_ip q) [ err e ↦ err e | ok ip ↦ ok (r, ip) ]
]

unfoldable pub split_path : Text → Text × Text
split_path rest = elim (split_once (is_char b'/') rest) [
  | some (a, p) ↦ (a, b'/' ∷ p)
  | none ↦ (rest, codes "/dns-query")
]

unfoldable pub default_port : Scheme → ℕ
default_port https = 443
default_port tls = 853
default_port udp = 53
default_port tcp = 53

unfoldable pub port_of : Text → Text → Result AddrError (Text × ℕ)
port_of host p = elim (parse_u16 p) [ none ↦ err bad_port | some n ↦ ok (host, n) ]

unfoldable pub split_host_port : Text → ℕ → Result AddrError (Text × ℕ)
unfolding port_of
split_host_port s default = elim (strip_prefix (b'[' ∷ []) s) [
  | some rest ↦ elim (split_once (is_char b']') rest) [
    | none ↦ err unclosed_bracket
    | some (host, tail) ↦ elim (strip_prefix (b':' ∷ []) tail) [
      | some p ↦ port_of host p
      | none ↦ ok (host, default)
    ]
  ]
  | none ↦ if is_ipv6 s then ok (s, default) else (elim (rsplit_once (is_char b':') s) [
    | some (host, p) ↦ port_of host p
    | none ↦ ok (s, default)
  ])
]

-- The checks behind the splits.
unfoldable pub checked_host : Text × ℕ → Result AddrError (Text × ℕ)
checked_host (host, port) =
    if is_empty host
    then err empty_host
    else if is_ipv6 host
    then err ipv6_host
    else ok (host, port)

-- What an address says of its server.
pub record Server : Type 0 where
  pub scheme : Scheme
  pub host : Text
  pub ip : Option Ipv4Addr
  pub port : ℕ
  pub path : Text

unfoldable pub parse_server : Text → Result AddrError Server
unfolding split_scheme split_pin split_path default_port split_host_port checked_host
parse_server addr = do
  (scheme, rest) ← split_scheme addr
  (rest, ip) ← split_pin rest
  let (authority, path) = split_path rest
  found ← split_host_port authority (default_port scheme)
  (host, port) ← checked_host found
  ok (record { scheme = scheme; host = host; ip = ip; port = port; path = path })

unfoldable pub with_server :
    Text → Text → Bool → Result AddrError Server → Result AddrError UpstreamAddr
with_server spec name enabled (err e) = err e
with_server spec name enabled (ok s) = ok (record {
  spec = spec;
  name = name;
  enabled = enabled;
  scheme = s.scheme;
  host = s.host;
  ip = s.ip;
  port = s.port;
  path = s.path;
})

unfoldable pub parse_trimmed : Text → Result AddrError UpstreamAddr
unfolding split_name split_park parse_server with_server
parse_trimmed spec =
    let (labelled, name) = split_name spec in
    let (addr, enabled) = split_park labelled in with_server spec name enabled (parse_server addr)

unfoldable pub parse : Text → Result AddrError UpstreamAddr
unfolding parse_trimmed
parse spec = parse_trimmed (trim spec)

unfoldable pub label : UpstreamAddr → Text
label a = if is_empty a.name then a.spec else a.name

unfoldable pub hostname : UpstreamAddr → Text
hostname a = elim (parse_ipv4 a.host) [ some ip ↦ [] | none ↦ a.host ]

unfoldable pub address : UpstreamAddr → Text
address a = elim a.ip [
  | some ip ↦ ipv4_text ip ++ (b':' ∷ port_text a.port)
  | none ↦ a.host ++ (b':' ∷ port_text a.port)
]

unfoldable pub host_header : UpstreamAddr → Text
host_header a = if a.port == 443 then a.host else a.host ++ (b':' ∷ port_text a.port)
