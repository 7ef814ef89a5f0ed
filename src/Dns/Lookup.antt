-- ===== src/Dns/Lookup.antt =====
-- src/dns/lookup.rs: the resolution of names for the process itself. The handler of queries,
-- `DnsService::handle_proxy`, is an argument: what it answers for a name and a type, or nothing where the
-- name is not one.
use ad_block.Base.{
  ℕ, Bool, not, List, [], ◌∷◌, ◌++◌, Option, none, some, any, retain, is_empty, if◌then◌else◌,
  Result, ok, err,
}
use ad_block.Dns.Message.{
  Message, ResponseCode, no_error, Rr, RData, a_record, aaaa_record, cname_record, https, svcb,
  other_data, ech_configs, other_value, SvcParams,
}
use ad_block.Dns.Service.Answering.{type_a}
use ad_block.Dns.Plan.{aaaa}
use ad_block.Dns.Upstream.Bootstrap.{IpAddr, v4, v6, is_unspecified}
use ad_block.Text.{Text, codes, text_eq}

-- One step of `filter_map`.
abbrev pub v4_then : RData → List IpAddr → List IpAddr
v4_then (a_record ip) rest = v4 ip ∷ rest
v4_then (aaaa_record t) rest = rest
v4_then (cname_record t) rest = rest
v4_then (https params) rest = rest
v4_then (svcb params) rest = rest
v4_then (other_data t) rest = rest

abbrev pub a_records : List Rr → List IpAddr
a_records [] = []
a_records (r ∷ rs) = v4_then r.rdata (a_records rs)

abbrev pub v6_then : RData → List IpAddr → List IpAddr
v6_then (aaaa_record t) rest = v6 t ∷ rest
v6_then (a_record ip) rest = rest
v6_then (cname_record t) rest = rest
v6_then (https params) rest = rest
v6_then (svcb params) rest = rest
v6_then (other_data t) rest = rest

abbrev pub aaaa_records : List Rr → List IpAddr
aaaa_records [] = []
aaaa_records (r ∷ rs) = v6_then r.rdata (aaaa_records rs)

-- The first list of ECH configurations among the values of a record, and of the answers and the additional records.
unfoldable pub ech_param : SvcParams → Option Text
ech_param [] = none
ech_param ((key, ech_configs t) ∷ ps) = some t
ech_param ((key, other_value t) ∷ ps) = ech_param ps

unfoldable pub ech_of : RData → Option Text
unfolding ech_param
ech_of (https params) = ech_param params
ech_of (svcb params) = ech_param params
ech_of (a_record ip) = none
ech_of (aaaa_record t) = none
ech_of (cname_record t) = none
ech_of (other_data t) = none

unfoldable pub ech_in : List Rr → Option Text
unfolding ech_of
ech_in [] = none
ech_in (r ∷ rs) = elim (ech_of r.rdata) [ some t ↦ some t | none ↦ ech_in rs ]

unfoldable pub ech_config : Message → Option Text
unfolding ech_in
ech_config m = ech_in (m.answers ++ m.additionals)

-- `IpAddr::is_unspecified`; that of an IPv6 address is written `::`.
unfoldable pub is_null : IpAddr → Bool
is_null (v4 ip) = is_unspecified ip
is_null (v6 t) = text_eq t (codes "::")

pub data LookupError : Type 0 where
  bad_host is_blocked no_address : LookupError
  failed : ResponseCode → LookupError

abbrev pub failed_with : ResponseCode → LookupError
failed_with no_error = no_address
failed_with ResponseCode.form_err = failed ResponseCode.form_err
failed_with ResponseCode.serv_fail = failed ResponseCode.serv_fail
failed_with ResponseCode.nx_domain = failed ResponseCode.nx_domain
failed_with ResponseCode.not_imp = failed ResponseCode.not_imp
failed_with ResponseCode.refused = failed ResponseCode.refused
failed_with ResponseCode.other_code = failed ResponseCode.other_code

unfoldable pub resolve_failure : Message → Bool → LookupError
resolve_failure m blocked = if blocked then is_blocked else failed_with m.response_code

abbrev pub more_answers : Option Message → List IpAddr
more_answers none = []
more_answers (some m) = aaaa_records m.answers

unfoldable pub addresses : Message → List IpAddr → Result LookupError (List IpAddr)
unfolding is_null resolve_failure
addresses a_resp ips =
    if is_empty (retain (λ ip. not (is_null ip)) ips)
    then err (resolve_failure a_resp (any is_null ips))
    else ok (retain (λ ip. not (is_null ip)) ips)

unfoldable pub resolve : (ℕ → Option Message) → Bool → Result LookupError (List IpAddr)
unfolding addresses
resolve lookup want_ipv6 = elim (lookup type_a) [
  | none ↦ err bad_host
  | some m ↦
      addresses m (a_records m.answers ++ (if want_ipv6 then more_answers (lookup aaaa) else []))
]

unfoldable pub ech_config_list_of : Option Message → Option Text
unfolding ech_config
ech_config_list_of none = none
ech_config_list_of (some m) = ech_config m
