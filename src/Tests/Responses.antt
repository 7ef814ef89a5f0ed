-- ===== src/Tests/Responses.antt =====
-- The removal of ECH parameters, at a concrete input.
use ad_block.Base.{true, none, ◌+◌, ◌≡◌, false, [], ◌∷◌, length}
use ad_block.Dns.Message.{query_code, Message, ResponseCode, RData, SvcParamKey, SvcParamValue}
use ad_block.Dns.Response.{strip_ech_params}
use ad_block.Dns.Response.Ech.{ech_in_records, Clean, strip_ech_params_cases}
use ad_block.Text.{codes}

abbrev message : Message
message = record {
  id = 7;
  is_response = true;
  op_code = query_code;
  recursion_desired = true;
  recursion_available = true;
  authoritative = false;
  queries = [];
  signed = false;
  edns = none;
  truncation = false;
  response_code = ResponseCode.no_error;
  answers =
      record {
        ttl = 60;
        rdata = RData.https (
            (SvcParamKey.other_key 1, SvcParamValue.other_value (codes "h2"))
            ∷ (SvcParamKey.ech_config_list, SvcParamValue.ech_configs (codes "x"))
            ∷ []);
        rest = [];
      }
      ∷ [];
  authorities = [];
  additionals = [];
  rest = [];
}

strip_ech_params_cases_example :
    ((strip_ech_params message).0
      ≡ ech_in_records message.answers + ech_in_records message.additionals)
    × Clean (strip_ech_params message).1.answers
    × Clean (strip_ech_params message).1.additionals
    × (length (strip_ech_params message).1.answers ≡ length message.answers)
    × (length (strip_ech_params message).1.additionals ≡ length message.additionals)
    × ((strip_ech_params message).1.authorities ≡ message.authorities)
strip_ech_params_cases_example = strip_ech_params_cases message
