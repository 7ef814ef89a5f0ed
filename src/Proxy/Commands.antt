-- ===== src/Proxy/Commands.antt =====
-- src/proxy/exclusions.rs: the commands of the admin interface for the exclusions.
use ad_block.Base.{Bool, Option, none, some, if◌then◌else◌, Result, ok, err}
use ad_block.Json.{Value, get, as_str, as_bool, is_true}
use ad_block.Text.{Text, codes, trim}

pub data CommandError : Type 0 where
  not_json no_domain : CommandError

pub data ExclusionCommand : Type 0 where
  add delete : Text → ExclusionCommand
  set_enabled : Text → Bool → ExclusionCommand

abbrev pub edit_of : Text → Option Bool → ExclusionCommand
edit_of domain (some enabled) = set_enabled domain enabled
edit_of domain none = add domain

abbrev pub command_of : Option Text → Value → Result CommandError ExclusionCommand
command_of none v = err no_domain
command_of (some domain) v =
    if is_true (as_bool (get (codes "delete") v))
    then ok (delete (trim domain))
    else ok (edit_of (trim domain) (as_bool (get (codes "enabled") v)))

unfoldable pub parse : Option Value → Result CommandError ExclusionCommand
parse none = err not_json
parse (some v) = command_of (as_str (get (codes "domain") v)) v
