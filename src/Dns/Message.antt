-- ===== src/Dns/Message.antt =====
-- The parts of a DNS message that src/dns reads or writes: public fields of the types `Message`,
-- `Record` and `ResponseCode` of the hickory_proto package. What the program only carries along is
-- one field, `rest`.
use ad_block.Base.{ℕ, Bool, List, map, ◌++◌, Option}
use ad_block.Net.{Ipv4Addr}
use ad_block.Text.{Text}

pub data ResponseCode : Type 0 where
  no_error form_err serv_fail nx_domain not_imp refused other_code : ResponseCode

pub data OpCode : Type 0 where
  query_code other_operation : OpCode

-- The name is there as `to_utf8` and as `to_ascii` write it; types and classes are their codes.
pub record Query : Type 0 where
  pub name_utf8 : Text
  pub name_ascii : Text
  pub query_type : ℕ
  pub query_class : ℕ

pub data SvcParamKey : Type 0 where
  ech_config_list : SvcParamKey
  other_key : ℕ → SvcParamKey

-- `SvcParamValue`, in which src/dns looks for the list of ECH configurations only.
pub data SvcParamValue : Type 0 where
  ech_configs other_value : Text → SvcParamValue

-- The key and the value come from the wire apart from each other.
abbrev pub SvcParams : Type 0
SvcParams = List (SvcParamKey × SvcParamValue)

-- The data of a record, where src/dns looks at it. An IPv6 address is kept in its text.
pub data RData : Type 0 where
  https svcb : SvcParams → RData
  a_record : Ipv4Addr → RData
  aaaa_record cname_record : Text → RData
  other_data : Text → RData

pub record Rr : Type 0 where
  pub ttl : ℕ
  pub rdata : RData
  -- the name and the class
  pub rest : Text

-- `signed` says whether there is a signature; `edns` is the maximal payload of the EDNS part.
pub record Message : Type 0 where
  pub id : ℕ
  pub is_response : Bool
  pub op_code : OpCode
  pub recursion_desired : Bool
  pub recursion_available : Bool
  pub authoritative : Bool
  pub queries : List Query
  pub signed : Bool
  pub edns : Option ℕ
  pub truncation : Bool
  pub response_code : ResponseCode
  pub answers : List Rr
  pub authorities : List Rr
  pub additionals : List Rr
  pub rest : Text

-- `records_mut` of src/dns/cache.rs: the records of a message, in its order.
unfoldable pub records : Message → List Rr
records m = m.answers ++ (m.authorities ++ m.additionals)

-- A loop over `records_mut` that writes each record.
unfoldable pub map_records : (Rr → Rr) → Message → Message
map_records f m = record m {
  answers = map f m.answers;
  authorities = map f m.authorities;
  additionals = map f m.additionals;
}
