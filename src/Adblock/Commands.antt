-- ===== src/Adblock/Commands.antt =====
-- src/adblock/commands.rs: the commands of the admin interface for the filter lists and their testers.
use ad_block.Base.{
  ℕ, Bool, not, List, [], ◌∷◌, ◌++◌, Option, none, some, retain, take, is_empty, if◌then◌else◌,
  Result, ok, err,
}
use ad_block.Json.{Value, Values, get, as_str, as_bool, as_array, strings, is_true}
use ad_block.Text.{
  Text, codes, is_char, trim, trim_end_matches, starts_with, strip_prefix, to_ascii_lowercase,
}

pub data RulesUpdate : Type 0 where
  append replace : RulesUpdate

pub data CommandError : Type 0 where
  not_json no_name no_url_or_rules no_url no_domain : CommandError

pub data BlocklistCommand : Type 0 where
  delete : Text → BlocklistCommand
  set_enabled : Text → Bool → BlocklistCommand
  add_url : Text → BlocklistCommand
  apply_rules : Option Text → Text → RulesUpdate → BlocklistCommand

-- A text that is more than white space, as it is.
abbrev pub some_text : Option Text → Option Text
some_text none = none
some_text (some t) = if is_empty (trim t) then none else some t

abbrev pub named : Option Text → (Text → BlocklistCommand) → Result CommandError BlocklistCommand
named none f = err no_name
named (some name) f = ok (f name)

abbrev pub rules_of : Option Text → Value → Result CommandError BlocklistCommand
rules_of none v = err no_url_or_rules
rules_of (some rules) v = ok (
    apply_rules (as_str (get (codes "name") v)) rules
      (if is_true (as_bool (get (codes "replace") v)) then replace else append))

abbrev pub url_or_rules : Option Text → Value → Result CommandError BlocklistCommand
url_or_rules (some url) v = ok (add_url (trim url))
url_or_rules none v = rules_of (as_str (get (codes "rules") v)) v

abbrev pub enabled_or : Option Bool → Value → Result CommandError BlocklistCommand
enabled_or (some enabled) v =
    named (some_text (as_str (get (codes "name") v))) (λ name. set_enabled name enabled)
enabled_or none v = url_or_rules (as_str (get (codes "url") v)) v

unfoldable pub parse_blocklist_command : Option Value → Result CommandError BlocklistCommand
parse_blocklist_command none = err not_json
parse_blocklist_command (some v) =
    if is_true (as_bool (get (codes "delete") v))
    then named (some_text (as_str (get (codes "name") v))) (λ name. delete name)
    else enabled_or (as_bool (get (codes "enabled") v)) v

-- src/adblock/mod.rs: the address that the tester checks, with a scheme and a host.
unfoldable pub with_scheme : Text → Text
with_scheme s =
    if starts_with (codes "http://") s
    then s
    else if starts_with (codes "https://") s
    then s
    else elim (strip_prefix (codes "//") s) [
      | some rest ↦ codes "https://" ++ rest
      | none ↦
          if starts_with (codes "/") s
          then codes "https://any-host.invalid" ++ s
          else codes "https://" ++ s
    ]

unfoldable pub normalize_test_url : Text → Text
unfolding with_scheme
normalize_test_url input = with_scheme (trim input)

pub record RuleTest : Type 0 where
  pub url : Text
  pub req_type : Text
  pub source : Text

abbrev pub text_or : Text → Option Text → Text
text_or d none = d
text_or d (some t) = t

abbrev pub rule_test : Option Text → Value → Result CommandError RuleTest
rule_test none v = err no_url
rule_test (some u) v = ok (record {
  url = normalize_test_url u;
  req_type = text_or (codes "other") (as_str (get (codes "type") v));
  source = text_or [] (as_str (get (codes "source") v));
})

unfoldable pub parse_rule_test : Option Value → Result CommandError RuleTest
parse_rule_test none = err not_json
parse_rule_test (some v) = rule_test (some_text (as_str (get (codes "url") v))) v

pub record CosmeticQuery : Type 0 where
  pub url : Text
  pub classes : List Text
  pub ids : List Text

abbrev pub max_cosmetic_names : ℕ
max_cosmetic_names = 1000

abbrev pub names_in : Option Values → List Text
names_in none = []
names_in (some vs) = take max_cosmetic_names (retain (λ t. not (is_empty t)) (strings vs))

abbrev pub cosmetic_query : Option Text → Value → Result CommandError CosmeticQuery
cosmetic_query none v = err no_url
cosmetic_query (some u) v = ok (record {
  url = trim u;
  classes = names_in (as_array (get (codes "classes") v));
  ids = names_in (as_array (get (codes "ids") v));
})

unfoldable pub parse_cosmetic_query : Option Value → Result CommandError CosmeticQuery
parse_cosmetic_query none = err not_json
parse_cosmetic_query (some v) = cosmetic_query (some_text (as_str (get (codes "url") v))) v

pub record DnsRuleTest : Type 0 where
  pub domain : Text

unfoldable pub parse_dns_rule_test : Option Value → Result CommandError DnsRuleTest
parse_dns_rule_test none = err not_json
parse_dns_rule_test (some v) = checked (
    to_ascii_lowercase
      (trim_end_matches (is_char b'.') (trim (text_or [] (as_str (get (codes "domain") v))))))
  where
    checked : Text → Result CommandError DnsRuleTest
    checked [] = err no_domain
    checked (c ∷ domain) = ok (record { domain = c ∷ domain })
