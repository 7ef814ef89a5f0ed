-- ===== src/Stats/Commands.antt =====
-- src/stats/exclude.rs: the commands of the admin interface for the statistics' exclusions.
use ad_block.Base.{Option, none, some, if◌then◌else◌, Result, ok, err}
use ad_block.Json.{Value, get, as_str, as_bool, is_true}
use ad_block.Text.{Text, codes, trim}

pub data CommandError : Type 0 where
  not_json no_domain : CommandError

pub data StatsExclusionCommand : Type 0 where
  add delete : Text → StatsExclusionCommand

abbrev pub command_of : Option Text → Value → Result CommandError StatsExclusionCommand
command_of none v = err no_domain
command_of (some domain) v =
    if is_true (as_bool (get (codes "delete") v))
    then ok (delete (trim domain))
    else ok (add (trim domain))

unfoldable pub parse : Option Value → Result CommandError StatsExclusionCommand
parse none = err not_json
parse (some v) = command_of (as_str (get (codes "domain") v)) v
