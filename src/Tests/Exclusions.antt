-- ===== src/Tests/Exclusions.antt =====
-- The exclusions of the proxy and of the statistics, at concrete inputs. The names have only small
-- ASCII letters, which `str::to_lowercase` keeps.
use ad_block.Base.{
  ◌≡◌, refl, ◌⊎◌, true, false, not, ◌&&◌, ◌||◌, List, [], ◌∷◌, Option, none, some, is_empty,
}
use ad_block.Persist.{Write, written, failed}
use ad_block.Proxy.Exclusions.{Exclusion, ExclusionStore, matching}
use ad_block.Proxy.Exclusions.Match.{Tunnels, matching_cases}
use ad_block.Proxy.Exclusions.Order
use ad_block.Proxy.Exclusions
use ad_block.Stats.Exclude.{StatsExclusions, normalize, strip_star, within, excludes, add}
use ad_block.Stats.Exclude.Order.{excludes-add}
use ad_block.Stats.Exclude.Order as StatsOrder
use ad_block.Stats.Exclude as Stats
use ad_block.Text.{
  Text, codes, to_ascii_lowercase, trim, trim_start, trim_start_matches, trim_end_matches,
  trim_matches, strip_prefix, is_whitespace, char_to_ascii_lowercase, is_ascii_uppercase,
}

abbrev file : Option Text
file = some (codes "# header\nb.test\na.test\nb.test # again\n!*.c.test\n")

abbrev commands : List (Order.Command × Write)
commands =
    (Order.Command.adds (codes " D.test. "), written)
    ∷ (Order.Command.sets_enabled (codes "a.test") false, written)
    ∷ (Order.Command.removes (codes "b.test"), failed none)
    ∷ []

run-Ordered_example :
    Order.Ordered
      (Order.run to_ascii_lowercase commands
        (Exclusions.load_exclusions to_ascii_lowercase file)).entries
run-Ordered_example = Order.run-Ordered to_ascii_lowercase file commands

abbrev store : ExclusionStore
store = record {
  entries =
      record { domain = codes "a.test"; enabled = true }
      ∷ record { domain = codes "b.test"; enabled = false }
      ∷ [];
  header = [];
  file = none;
}

matching_cases_example :
    ((e : Exclusion) × Tunnels store (codes "x.a.test") e
      × (matching store (codes "x.a.test") ≡ some e.domain))
    ⊎ (((e : Exclusion) → ¬ Tunnels store (codes "x.a.test") e)
        × (matching store (codes "x.a.test") ≡ none))
matching_cases_example = matching_cases store (codes "x.a.test")

abbrev hosts : StatsExclusions
hosts = record { entries = codes "a.test" ∷ []; header = []; file = none }

named : is_empty (normalize to_ascii_lowercase (codes "*.B.test")) ≡ false
unfolding normalize strip_star trim trim_start trim_start_matches trim_end_matches trim_matches
    strip_prefix is_whitespace to_ascii_lowercase char_to_ascii_lowercase is_ascii_uppercase
named = refl

excludes-add_example :
    excludes (add to_ascii_lowercase (codes "*.B.test") written hosts).1 (codes "x.b.test") ≡ (
      excludes hosts (codes "x.b.test")
      || (not (is_empty (codes "x.b.test"))
          && within (codes "x.b.test") (normalize to_ascii_lowercase (codes "*.B.test"))))
excludes-add_example =
    excludes-add to_ascii_lowercase (codes "x.b.test") (codes "*.B.test") hosts named

abbrev stats_commands : List (StatsOrder.Command × Write)
stats_commands =
    (StatsOrder.Command.adds (codes "b.test"), written)
    ∷ (StatsOrder.Command.removes (codes "a.test"), written)
    ∷ []

run-Ascending_example :
    StatsOrder.Ascending
      (StatsOrder.run to_ascii_lowercase stats_commands
        (Stats.load_exclusions to_ascii_lowercase file)).entries
run-Ascending_example = StatsOrder.run-Ascending to_ascii_lowercase file stats_commands
