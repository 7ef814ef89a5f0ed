-- ===== src/Proxy/Pipeline.antt =====
-- src/proxy/pipeline.rs: where a request goes. A request is what the accessors of the hyper package
-- answer for it.
pub mod Connect
use ad_block.Base.{
  ℕ, ◌≡◌, Bool, true, false, List, [], ◌∷◌, ◌++◌, Option, none, some, Result, ok, err,
  if◌then◌else◌,
}
use ad_block.Proxy.Target.{HttpTarget, default_port, split_host_port, text_or, unwrap_or, url}
use ad_block.Text.{Text, codes, is_char, before}

pub record Authority : Type 0 where
  pub host : Text
  pub port : Option ℕ

pub record Request : Type 0 where
  pub method : Text
  pub scheme : Option Text
  pub authority : Option Authority
  pub path_and_query : Option Text
  -- the Host header, if it is there and readable
  pub host_header : Option Text

pub record RequestPlan : Type 0 where
  pub scheme : Text
  pub host : Text
  pub port : ℕ
  pub url : Text
  pub method : Text

pub data RequestError : Type 0 where
  no_host_header : RequestError

unfoldable pub target_of : Request → Bool → Result RequestError HttpTarget
target_of req secure =
    let path = text_or req.path_and_query (codes "/") in
    elim req.authority [
      | some authority ↦
          let scheme = text_or req.scheme (codes "http") in
          ok (record {
            scheme = scheme;
            host = authority.host;
            port = unwrap_or authority.port (default_port scheme);
            path = path;
          })
      | none ↦ elim req.host_header [
        | none ↦ err no_host_header
        | some host_header ↦
            let scheme = if secure then codes "https" else codes "http" in
            let (host, port) = split_host_port host_header (default_port scheme) in
            ok (record { scheme = scheme; host = host; port = port; path = path })
      ]
    ]

unfoldable pub plan_request : Request → Bool → Result RequestError RequestPlan
unfolding target_of
plan_request req secure = elim (target_of req secure) [
  | err e ↦ err e
  | ok t ↦
      ok (record {
        scheme = t.scheme;
        host = t.host;
        port = t.port;
        url = url t;
        method = req.method;
      })
]

pub data ConnectVerdict : Type 0 where
  deny : Text → ConnectVerdict
  blind_tunnel : Text → ConnectVerdict
  mitm : ConnectVerdict

pub record ConnectPlan : Type 0 where
  pub host : Text
  pub url : Text
  pub verdict : ConnectVerdict

unfoldable pub record_label : ConnectPlan → Text
record_label p = elim p.verdict [
  | blind_tunnel excluded_by ↦ codes "tunnel-blind"
  | _ ↦ codes "tunnel-mitm"
]

unfoldable pub record_tag : ConnectPlan → Text
record_tag p = elim p.verdict [
  | blind_tunnel excluded_by ↦ codes "excluded: " ++ excluded_by
  | _ ↦ []
]

unfoldable pub connect_verdict : Option Text → Option Text → ConnectVerdict
connect_verdict (some blocked_by) excluded = deny blocked_by
connect_verdict none (some excluded_by) = blind_tunnel excluded_by
connect_verdict none none = mitm

-- `check` answers the rule that blocks a host, and `exclusion` the entry that covers it.
unfoldable pub plan_connect : Text → (Text → Option Text) → (Text → Option Text) → ConnectPlan
unfolding connect_verdict
plan_connect authority check exclusion =
    let host = before (is_char b':') authority in
    record {
      host = host;
      url = codes "https://" ++ (host ++ codes "/");
      verdict = connect_verdict (check host) (exclusion host);
    }
