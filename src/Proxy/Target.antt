-- ===== src/Proxy/Target.antt =====
-- src/proxy/target.rs: hosts and ports. `HttpTarget::parse` reads its URL with the hyper package; its
-- checks take the parts that the package finds.
pub mod Ports
use ad_block.Base.{
  ℕ, zero, suc, ◌+◌, ◌-◌, ◌*◌, ◌/◌, ◌%◌, ◌≡◌, Bool, true, false, not, ◌&&◌, List, [], ◌∷◌, ◌++◌,
  Option, none, some, leb, ltb, ◌==◌, if◌then◌else◌, is_empty, Result, ok, err,
}
use ad_block.Net.Ports.{parse_u16, port_text}
use ad_block.Text.{
  Text, codes, text_eq, is_char, is_digit, contains, strip_prefix, split_once, rsplit_once,
}

abbrev pub unwrap_or : Option ℕ → ℕ → ℕ
unwrap_or none d = d
unwrap_or (some n) d = n

unfoldable pub default_port : Text → ℕ
default_port scheme = if text_eq scheme (codes "https") then 443 else 80

-- The port behind a closing bracket.
unfoldable pub port_after : Text → ℕ → ℕ
unfolding parse_u16
port_after after default = elim (strip_prefix (b':' ∷ []) after) [
  | some p ↦ unwrap_or (parse_u16 p) default
  | none ↦ default
]

unfoldable pub split_plain : Text → ℕ → Text × ℕ
unfolding parse_u16
split_plain hostport default = elim (rsplit_once (is_char b':') hostport) [
  | none ↦ (hostport, default)
  | some (h, p) ↦
      if contains b':' h then (hostport, default) else (h, unwrap_or (parse_u16 p) default)
]

unfoldable pub split_host_port : Text → ℕ → Text × ℕ
unfolding port_after split_plain
split_host_port hostport default = elim (strip_prefix (b'[' ∷ []) hostport) [
  | none ↦ split_plain hostport default
  | some rest ↦ elim (split_once (is_char b']') rest) [
    | some (host, after) ↦ (b'[' ∷ (host ++ (b']' ∷ [])), port_after after default)
    | none ↦ split_plain hostport default
  ]
]

pub record HttpTarget : Type 0 where
  pub scheme : Text
  pub host : Text
  pub port : ℕ
  pub path : Text

pub data TargetError : Type 0 where
  bad_url unsupported_scheme no_host : TargetError

-- What hyper's `Uri` finds in a URL.
pub record Uri : Type 0 where
  pub scheme : Option Text
  pub host : Option Text
  pub port : Option ℕ
  pub path_and_query : Option Text

abbrev pub text_or : Option Text → Text → Text
text_or none d = d
text_or (some t) d = t

-- `HttpTarget::parse`, behind the parser, which answers `none` for a bad URL.
unfoldable pub target_of_uri : Option Uri → Result TargetError HttpTarget
unfolding default_port
target_of_uri none = err bad_url
target_of_uri (some uri) =
    let scheme = text_or uri.scheme [] in
    if not (text_eq scheme (codes "http")) && not (text_eq scheme (codes "https"))
    then err unsupported_scheme
    else (elim uri.host [
      | none ↦ err no_host
      | some host ↦ ok (record {
        scheme = scheme;
        host = host;
        port = unwrap_or uri.port (default_port scheme);
        path = text_or uri.path_and_query (codes "/");
      })
    ])

unfoldable pub url : HttpTarget → Text
unfolding default_port port_text
url t =
    if t.port == default_port t.scheme
    then t.scheme ++ (codes "://" ++ (t.host ++ t.path))
    else t.scheme ++ (codes "://" ++ (t.host ++ (b':' ∷ (port_text t.port ++ t.path))))
