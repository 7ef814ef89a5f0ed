-- ===== src/Stats/Exclude.antt =====
-- src/stats/exclude.rs: the domains that are kept out of the statistics, in a set file.
-- `str::to_lowercase`, which goes by the tables of Unicode, is a parameter. The texts of error
-- messages are left out, as is the JSON of `StatsExclusionCommand::parse`.
pub mod Order
use ad_block.Base.{
  ◌≡◌, Bool, true, false, not, ◌&&◌, ◌||◌, List, [], ◌∷◌, ◌++◌, Option, none, some, ◌==◌,
  if◌then◌else◌, is_empty, any, retain, length, sort_by, Result, ok, err,
}
use ad_block.Persist.{Entry, Error, config, Write, PersistedSet, load, mutate, join_lines}
use ad_block.Text.{Text, codes, text_eq, is_char, trim, trim_matches, strip_prefix, ends_with}
use ad_block.Text.Increasing.{key_le, dedup}

-- `FILE_HEADER`
unfoldable pub file_header : Text
file_header = join_lines (
    codes "# Domains excluded from statistics and logging. Managed by the admin UI;"
    ∷ codes "# one host per line. Matches the exact host or any subdomain (a leading"
    ∷ codes "# *. is accepted and means the same thing)."
    ∷ [])

abbrev pub StatsExclusions : Type 0
StatsExclusions = PersistedSet Text

unfoldable pub within : Text → Text → Bool
within host d = text_eq host d || ends_with (b'.' ∷ d) host

unfoldable pub excludes : StatsExclusions → Text → Bool
unfolding within
excludes s host = if is_empty host then false else any (within host) s.entries

-- The clone of the list is answered, and the list is written even if it is the same.
unfoldable pub add_entry : Text → List Text → List Text × Bool × List Text
add_entry domain domains =
    let next =
      if any (λ d. text_eq d domain) domains
      then domains
      else sort_by (key_le (λ d. d)) (domains ++ (domain ∷ [])) in
    (next, true, next)

unfoldable pub remove_entry : Text → List Text → Bool × Bool × List Text
remove_entry domain domains =
    let kept = retain (λ d. not (text_eq d domain)) domains in
    let removed = not (length kept == length domains) in (removed, removed, kept)

-- `strip_prefix("*.").unwrap_or(&d)`
unfoldable pub strip_star : Text → Text
strip_star d = elim (strip_prefix (b'*' ∷ b'.' ∷ []) d) [ some rest ↦ rest | none ↦ d ]

module _ (to_lowercase : Text → Text) where
  unfoldable pub normalize : Text → Text
  unfolding strip_star
  normalize domain = trim (trim_matches (is_char b'.') (strip_star (to_lowercase (trim domain))))

  unfoldable pub parse_domain : Text → Option Text
  unfolding normalize
  parse_domain line = let d = normalize line in if is_empty d then none else some d

  abbrev pub domain_entry : Entry Text
  domain_entry = record { parse = parse_domain; format = λ d. d }

  unfoldable pub load_exclusions : Option Text → StatsExclusions
  load_exclusions file =
      load domain_entry file file_header (λ ds. dedup (λ d. d) (sort_by (key_le (λ d. d)) ds))

  unfoldable pub add : Text → Write → StatsExclusions → Result Error (List Text) × StatsExclusions
  unfolding normalize add_entry
  add domain w s =
      if is_empty (normalize domain)
      then (err config, s)
      else mutate domain_entry (add_entry (normalize domain)) w s

  unfoldable pub remove : Text → Write → StatsExclusions → Result Error Bool × StatsExclusions
  unfolding normalize remove_entry
  remove domain w s = mutate domain_entry (remove_entry (normalize domain)) w s
