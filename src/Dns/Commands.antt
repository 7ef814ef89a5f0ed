-- ===== src/Dns/Commands.antt =====
-- src/dns/commands.rs: the commands of the admin interface for the DNS server. `serde_json::from_slice`
-- is a parameter, and so is Unicode's lower case.
pub mod Checked
use ad_block.Base.{
  ℕ, ◌+◌, ◌%◌, ◌^◌, ◌≡◌, Bool, true, false, not, List, [], ◌∷◌, Option, none, some, map, retain,
  any, is_empty, if◌then◌else◌, Result, ok, err,
}
use ad_block.Dns.Service.Servers.{UpstreamCommand, add, delete, set_enabled}
use ad_block.Dns.Settings.{UpstreamMode, failover, load_balance, parallel, DnsOverrides}
use ad_block.Dns.Upstream.Addr.{Scheme, udp, tcp, tls, https}
use ad_block.Json.{
  Value, null, boolean, number, string, array, object, get, as_str, as_bool, as_u64, as_array,
  strings, is_true,
}
use ad_block.Text.{Text, codes, text_eq, is_char, trim}
use ad_block.Text.Pieces.{split_once_at}

pub data CommandError : Type 0 where
  not_json missing_fields no_spec no_name name_with_hash no_host unknown_transport unknown_mode :
      CommandError

pub data RewriteCommand : Type 0 where
  add_rewrite delete_rewrite : Text → Text → RewriteCommand
  enable_rewrite : Text → Text → Bool → RewriteCommand

abbrev pub rewrite_edit : Text → Text → Option Bool → RewriteCommand
rewrite_edit domain reply (some enabled) = enable_rewrite domain reply enabled
rewrite_edit domain reply none = add_rewrite domain reply

abbrev pub rewrite_of : Option Text → Option Text → Value → Result CommandError RewriteCommand
rewrite_of none reply v = err missing_fields
rewrite_of (some domain) none v = err missing_fields
rewrite_of (some domain) (some reply) v =
    if is_true (as_bool (get (codes "delete") v))
    then ok (delete_rewrite domain reply)
    else ok (rewrite_edit domain reply (as_bool (get (codes "enabled") v)))

unfoldable pub parse_rewrite_command : Option Value → Result CommandError RewriteCommand
parse_rewrite_command none = err not_json
parse_rewrite_command (some v) =
    rewrite_of (as_str (get (codes "domain") v)) (as_str (get (codes "answer") v)) v

abbrev pub non_empty : Text → Option Text
non_empty [] = none
non_empty (c ∷ t) = some (c ∷ t)

abbrev pub spec_or_error : {A : Type 0} → Option Text → (Text → A) → Result CommandError A
spec_or_error none f = err no_spec
spec_or_error (some t) f = elim (non_empty (trim t)) [
  | none ↦ err no_spec
  | some spec ↦ ok (f spec)
]

abbrev pub text_or : Text → Option Text → Text
text_or d none = d
text_or d (some t) = t

-- `field`: a text without white space at its ends, or none at all.
unfoldable pub field : Text → Value → Text
field key v = trim (text_or [] (as_str (get key v)))

unfoldable pub transport : Text → Result CommandError Scheme
transport t =
    if text_eq t (codes "https")
    then ok https
    else if text_eq t (codes "tls")
    then ok tls
    else if text_eq t (codes "dot")
    then ok tls
    else if text_eq t (codes "udp")
    then ok udp
    else if text_eq t (codes "tcp")
    then ok tcp
    else err unknown_transport

abbrev pub add_with : Text → Text → Result CommandError Scheme → Result CommandError UpstreamCommand
add_with name host (err e) = err e
add_with name host (ok scheme) = ok (add name host scheme)

module _ (to_lowercase : Text → Text) where
  -- The transport that is written in front of the host, and the host behind it.
  unfoldable pub typed_scheme : Text → Option Text × Text
  typed_scheme host = elim (split_once_at (codes "://") host) [
    | some (s, h) ↦ (some (to_lowercase (trim s)), trim h)
    | none ↦ (none, host)
  ]

  unfoldable pub parse_host :
      Text → Value → Option Text × Text → Result CommandError UpstreamCommand
  unfolding transport
  parse_host name v (typed, host) =
      if is_empty host
      then err no_host
      else add_with name host
          (transport (text_or (text_or (codes "https") (as_str (get (codes "scheme") v))) typed))

  unfoldable pub parse_add : Text → Text → Value → Result CommandError UpstreamCommand
  unfolding typed_scheme parse_host
  parse_add name host v =
      if is_empty name
      then err no_name
      else if any (is_char b'#') name
      then err name_with_hash
      else if is_empty host
      then err no_host
      else parse_host name v (typed_scheme host)

  abbrev pub edit_of : Option Bool → Option Bool → Value → Result CommandError UpstreamCommand
  edit_of (some true) enabled v =
      spec_or_error (as_str (get (codes "spec") v)) (λ spec. delete spec)
  edit_of (some false) (some b) v =
      spec_or_error (as_str (get (codes "spec") v)) (λ spec. set_enabled spec b)
  edit_of (some false) none v = parse_add (field (codes "name") v) (field (codes "host") v) v
  edit_of none (some b) v =
      spec_or_error (as_str (get (codes "spec") v)) (λ spec. set_enabled spec b)
  edit_of none none v = parse_add (field (codes "name") v) (field (codes "host") v) v

  unfoldable pub parse_upstream_command : Option Value → Result CommandError UpstreamCommand
  unfolding parse_add field
  parse_upstream_command none = err not_json
  parse_upstream_command (some v) =
      edit_of (as_bool (get (codes "delete") v)) (as_bool (get (codes "enabled") v)) v

pub data DnsConfigCommand : Type 0 where
  reset : DnsConfigCommand
  apply : DnsOverrides → DnsConfigCommand

-- The texts of a list, without white space at their ends and without those that are empty.
unfoldable pub str_list : Text → Value → Option (List Text)
unfolding strings
str_list key v = elim (as_array (get key v)) [
  | none ↦ none
  | some vs ↦ some (retain (λ t. not (is_empty t)) (map trim (strings vs)))
]

-- `n as u32`
abbrev pub as_u32 : Option ℕ → Option ℕ
as_u32 none = none
as_u32 (some n) = some (n % 2 ^ 32)

unfoldable pub mode_named : Text → Result CommandError (Option UpstreamMode)
mode_named t =
    if text_eq t (codes "failover")
    then ok (some failover)
    else if text_eq t (codes "load-balance")
    then ok (some load_balance)
    else if text_eq t (codes "parallel")
    then ok (some parallel)
    else err unknown_mode

abbrev pub mode_of : Option Value → Result CommandError (Option UpstreamMode)
mode_of none = ok none
mode_of (some null) = ok none
mode_of (some (string t)) = mode_named t
mode_of (some (boolean b)) = err unknown_mode
mode_of (some (number n)) = err unknown_mode
mode_of (some (array vs)) = err unknown_mode
mode_of (some (object fields)) = err unknown_mode

abbrev pub trimmed : Option Text → Option Text
trimmed none = none
trimmed (some t) = some (trim t)

abbrev pub with_mode :
    Value → Result CommandError (Option UpstreamMode) → Result CommandError DnsConfigCommand
with_mode v (err e) = err e
with_mode v (ok mode) = ok (
    apply (record {
      upstreams = str_list (codes "upstreams") v;
      upstream_mode = mode;
      bootstrap = str_list (codes "bootstrap") v;
      cache_size = as_u64 (get (codes "cache_size") v);
      override_min_ttl_secs = as_u32 (as_u64 (get (codes "override_min_ttl_secs") v));
      override_max_ttl_secs = as_u32 (as_u64 (get (codes "override_max_ttl_secs") v));
      ech_probe_domain = trimmed (as_str (get (codes "ech_probe_domain") v));
      ech_probe_mins = as_u32 (as_u64 (get (codes "ech_probe_mins") v));
      strip_ech = as_bool (get (codes "strip_ech") v);
      log_ipv6 = as_bool (get (codes "log_ipv6") v);
    }))

unfoldable pub parse_config_command : Option Value → Result CommandError DnsConfigCommand
unfolding mode_named str_list
parse_config_command none = err not_json
parse_config_command (some v) =
    if is_true (as_bool (get (codes "reset") v))
    then ok reset
    else with_mode v (mode_of (get (codes "upstream_mode") v))
