-- ===== src/Dns/Response.antt =====
-- src/dns/response.rs: the parameters for encrypted client hello (ECH) in an answer.
pub mod Ech
use ad_block.Base.{
  ℕ, ◌+◌, ◌-◌, Bool, true, false, not, List, [], ◌∷◌, any, length, retain, ◌++◌, Option, none, some,
  if◌then◌else◌,
}
use ad_block.Dns.Message.{
  ResponseCode, query_code, SvcParamKey, SvcParamValue, ech_config_list, other_key, SvcParams,
  RData, https, svcb, a_record, aaaa_record, cname_record, other_data, Rr, Message,
}
use ad_block.Text.{Text}

abbrev pub is_ech : SvcParamKey × SvcParamValue → Bool
is_ech (ech_config_list, v) = true
is_ech (other_key k, v) = false

unfoldable pub data_has_ech : RData → Bool
data_has_ech (https params) = any is_ech params
data_has_ech (svcb params) = any is_ech params
data_has_ech (a_record ip) = false
data_has_ech (aaaa_record t) = false
data_has_ech (cname_record t) = false
data_has_ech (other_data t) = false

unfoldable pub record_has_ech : Rr → Bool
unfolding data_has_ech
record_has_ech r = data_has_ech r.rdata

unfoldable pub strip_params : SvcParams → SvcParams
strip_params = retain (λ p. not (is_ech p))

-- How many parameters go, and the data without them.
unfoldable pub strip_data : RData → ℕ × RData
unfolding strip_params
strip_data (https params) =
    (length params - length (strip_params params), https (strip_params params))
strip_data (svcb params) =
    (length params - length (strip_params params), svcb (strip_params params))
strip_data (a_record ip) = (0, a_record ip)
strip_data (aaaa_record t) = (0, aaaa_record t)
strip_data (cname_record t) = (0, cname_record t)
strip_data (other_data t) = (0, other_data t)

unfoldable pub strip_records : List Rr → ℕ × List Rr
unfolding strip_data
strip_records [] = (0, [])
strip_records (r ∷ rs) =
    let (stripped, rdata) = strip_data r.rdata in
    let (more, rest) = strip_records rs in (stripped + more, record r { rdata = rdata } ∷ rest)

unfoldable pub strip_ech_params : Message → ℕ × Message
unfolding strip_records
strip_ech_params m =
    let (in_answers, answers) = strip_records m.answers in
    let (in_additionals, additionals) = strip_records m.additionals in
    (in_answers + in_additionals, record m { answers = answers; additionals = additionals })

abbrev pub is_some : {A : Type 0} → Option A → Bool
is_some none = false
is_some (some a) = true

module _ (new_response : ℕ → Message) where
  -- `Message::response` of the package makes the message, with the id and for a query.
  unfoldable pub base_response : Message → Message
  base_response request = record (new_response request.id) {
    recursion_desired = request.recursion_desired;
    recursion_available = true;
    queries = (new_response request.id).queries ++ request.queries;
    edns = if is_some request.edns then some 1232 else (new_response request.id).edns;
  }

  unfoldable pub error_response : Message → ResponseCode → Message
  unfolding base_response
  error_response request code = record (base_response request) { response_code = code }

unfoldable pub finish_response : Message → Message → Message
finish_response resp request = record resp {
  id = request.id;
  is_response = true;
  op_code = query_code;
  recursion_desired = request.recursion_desired;
  recursion_available = true;
  authoritative = false;
  queries = request.queries;
  signed = false;
  edns = if is_some request.edns then some 1232 else none;
}
