-- ===== src/Dns/Response/Ech.antt =====
-- What `strip_ech_params` removes, and how much.
use ad_block.Base.{
  ℕ, suc, ◌+◌, ◌≡◌, refl, ap, false, List, [], ◌∷◌, arith, any, length, All, if◌then◌else◌,
}
use ad_block.Dns.Message.{
  ech_config_list, other_key, SvcParams, RData, https, svcb, a_record, aaaa_record, cname_record,
  other_data, Rr, Message,
}
use ad_block.Dns.Response.{
  is_ech, data_has_ech, record_has_ech, strip_params, strip_data, strip_records, strip_ech_params,
}

-- The number of ECH parameters.
unfoldable pub ech_params : SvcParams → ℕ
ech_params [] = 0
ech_params (p ∷ ps) = (if is_ech p then 1 else 0) + ech_params ps

unfoldable pub ech_in_data : RData → ℕ
unfolding ech_params
ech_in_data (https params) = ech_params params
ech_in_data (svcb params) = ech_params params
ech_in_data (a_record ip) = 0
ech_in_data (aaaa_record t) = 0
ech_in_data (cname_record t) = 0
ech_in_data (other_data t) = 0

unfoldable pub ech_in_records : List Rr → ℕ
unfolding ech_in_data
ech_in_records [] = 0
ech_in_records (r ∷ rs) = ech_in_data r.rdata + ech_in_records rs

length-strip_params : (ps : SvcParams) → length ps ≡ length (strip_params ps) + ech_params ps
unfolding strip_params ech_params
length-strip_params [] = refl
length-strip_params ((ech_config_list, v) ∷ ps) = omega (arith, length-strip_params ps)
length-strip_params ((other_key k, v) ∷ ps) = omega (arith, length-strip_params ps)

strip_params_clean : (ps : SvcParams) → any is_ech (strip_params ps) ≡ false
unfolding strip_params
strip_params_clean [] = refl
strip_params_clean ((ech_config_list, v) ∷ ps) = strip_params_clean ps
strip_params_clean ((other_key k, v) ∷ ps) = strip_params_clean ps

strip_data_cases :
    (d : RData) → ((strip_data d).0 ≡ ech_in_data d) × (data_has_ech (strip_data d).1 ≡ false)
unfolding strip_data ech_in_data data_has_ech
strip_data_cases (https ps) = (omega (arith, length-strip_params ps), strip_params_clean ps)
strip_data_cases (svcb ps) = (omega (arith, length-strip_params ps), strip_params_clean ps)
strip_data_cases (a_record ip) = (refl, refl)
strip_data_cases (aaaa_record t) = (refl, refl)
strip_data_cases (cname_record t) = (refl, refl)
strip_data_cases (other_data t) = (refl, refl)

abbrev pub Clean : List Rr → Type 0
Clean = All (λ r. record_has_ech r ≡ false)

strip_records_cases :
    (rs : List Rr)
    → ((strip_records rs).0 ≡ ech_in_records rs)
      × Clean (strip_records rs).1
      × (length (strip_records rs).1 ≡ length rs)
unfolding strip_records ech_in_records record_has_ech
strip_records_cases [] = (refl, tt, refl)
strip_records_cases (r ∷ rs) =
    let (n, clean) = strip_data_cases r.rdata in
    let (more, rest, len) = strip_records_cases rs in
    (omega (arith, n, more), (clean, rest), ap suc len)

-- strip_ech_params answers the number of ECH parameters in the answers and the additional records;
-- afterwards no record of either has one, both are as long as before, and the authorities are the
-- same.
pub strip_ech_params_cases :
    (m : Message)
    → ((strip_ech_params m).0 ≡ ech_in_records m.answers + ech_in_records m.additionals)
      × Clean (strip_ech_params m).1.answers
      × Clean (strip_ech_params m).1.additionals
      × (length (strip_ech_params m).1.answers ≡ length m.answers)
      × (length (strip_ech_params m).1.additionals ≡ length m.additionals)
      × ((strip_ech_params m).1.authorities ≡ m.authorities)
unfolding strip_ech_params
strip_ech_params_cases m =
    let (n, clean, len) = strip_records_cases m.answers in
    let (more, rest, len') = strip_records_cases m.additionals in
    (omega (arith, n, more), clean, rest, len, len', refl)
