-- ===== src/Proxy/Exclusions.antt =====
-- src/proxy/exclusions.rs: the domains that are tunnelled without inspection, kept in a set file.
-- `str::to_lowercase`, which goes by the tables of Unicode, is a parameter. The texts of error
-- messages are left out, as is the JSON of `ExclusionCommand::parse`.
pub mod Order
pub mod Match
use ad_block.Base.{
  ◌≡◌, Bool, true, false, not, ◌&&◌, ◌||◌, List, [], ◌∷◌, ◌++◌, Option, none, some, ◌==◌,
  if◌then◌else◌, is_empty, any, find, retain, length, sort_by, Result, ok, err,
}
use ad_block.Persist.{Entry, Error, config, Write, PersistedSet, load, mutate, join_lines}
use ad_block.Text.{Text, codes, text_eq, is_char, trim, trim_matches, strip_prefix, ends_with}
use ad_block.Text.Increasing.{key_le, dedup}

-- `FILE_HEADER`
unfoldable pub file_header : Text
file_header = join_lines (
    codes "# Domains that bypass MITM inspection (blind tunnel). Managed by the"
    ∷ codes "# admin UI; one host per line. A bare domain (example.com) matches the"
    ∷ codes "# domain and every subdomain; a leading *. (*.example.com) matches only"
    ∷ codes "# subdomains, not the domain itself. A leading ! parks the entry: kept"
    ∷ codes "# and listed, but inspected like any other host."
    ∷ [])

pub record Exclusion : Type 0 where
  pub domain : Text
  pub enabled : Bool

abbrev pub star_dot : Text
star_dot = b'*' ∷ b'.' ∷ []

unfoldable pub split_wildcard : Text → Bool × Text
split_wildcard d = elim (strip_prefix star_dot d) [ some rest ↦ (true, rest) | none ↦ (false, d) ]

unfoldable pub split_mark : Text → Text × Bool
split_mark line = elim (strip_prefix (b'!' ∷ []) line) [
  | some rest ↦ (rest, false)
  | none ↦ (line, true)
]

unfoldable pub format_exclusion : Exclusion → Text
format_exclusion e = (if e.enabled then [] else b'!' ∷ []) ++ e.domain

abbrev pub ExclusionStore : Type 0
ExclusionStore = PersistedSet Exclusion

-- "*.example.com" covers subdomains only, "example.com" the domain itself as well.
unfoldable pub covers : Text → Exclusion → Bool
covers host e = elim (strip_prefix star_dot e.domain) [
  | some base ↦ ends_with (b'.' ∷ base) host
  | none ↦ text_eq host e.domain || ends_with (b'.' ∷ e.domain) host
]

unfoldable pub matching : ExclusionStore → Text → Option Text
unfolding covers
matching s host = elim (find (covers host) (retain (λ e. e.enabled) s.entries)) [
  | none ↦ none
  | some e ↦ some e.domain
]

unfoldable pub add_entry : Text → List Exclusion → Unit {0} × Bool × List Exclusion
add_entry domain domains =
    if any (λ e. text_eq e.domain domain) domains then (tt, false, domains) else (
      tt,
      true,
      sort_by (key_le (λ e. e.domain))
          (domains ++ (record { domain = domain; enabled = true } ∷ [])),
    )

unfoldable pub remove_entry : Text → List Exclusion → Bool × Bool × List Exclusion
remove_entry domain domains =
    let kept = retain (λ e. not (text_eq e.domain domain)) domains in
    let removed = not (length kept == length domains) in (removed, removed, kept)

-- The first entry of the domain gets the flag.
unfoldable pub set_first : Text → Bool → List Exclusion → List Exclusion
set_first domain enabled [] = []
set_first domain enabled (e ∷ es) =
    if text_eq e.domain domain
    then record e { enabled = enabled } ∷ es
    else e ∷ set_first domain enabled es

abbrev same_flag : Bool → Bool → Bool
same_flag true b = b
same_flag false b = not b

unfoldable pub set_enabled_entry : Text → Bool → List Exclusion → Bool × Bool × List Exclusion
unfolding set_first
set_enabled_entry domain enabled domains = elim (find (λ e. text_eq e.domain domain) domains) [
  | none ↦ (false, false, domains)
  | some e ↦
      if same_flag e.enabled enabled
      then (true, false, domains)
      else (true, true, set_first domain enabled domains)
]

module _ (to_lowercase : Text → Text) where
  unfoldable pub normalize : Text → Text
  unfolding split_wildcard
  normalize domain =
      let (wildcard, rest) = split_wildcard (to_lowercase (trim domain)) in
      let core = trim (trim_matches (is_char b'.') rest) in
      if is_empty core then [] else if wildcard then star_dot ++ core else core

  unfoldable pub parse_exclusion : Text → Option Exclusion
  unfolding split_mark normalize
  parse_exclusion text =
      let (line, enabled) = split_mark text in
      let d = normalize line in
      if is_empty d then none else some (record { domain = d; enabled = enabled })

  abbrev pub exclusion_entry : Entry Exclusion
  exclusion_entry = record { parse = parse_exclusion; format = format_exclusion }

  unfoldable pub load_exclusions : Option Text → ExclusionStore
  load_exclusions file =
      load exclusion_entry file file_header
        (λ es. dedup (λ e. e.domain) (sort_by (key_le (λ e. e.domain)) es))

  unfoldable pub add : Text → Write → ExclusionStore → Result Error (Unit {0}) × ExclusionStore
  unfolding normalize add_entry
  add domain w s =
      if is_empty (normalize domain)
      then (err config, s)
      else mutate exclusion_entry (add_entry (normalize domain)) w s

  unfoldable pub remove : Text → Write → ExclusionStore → Result Error Bool × ExclusionStore
  unfolding normalize remove_entry
  remove domain w s = mutate exclusion_entry (remove_entry (normalize domain)) w s

  unfoldable pub set_enabled :
      Text → Bool → Write → ExclusionStore → Result Error Bool × ExclusionStore
  unfolding normalize set_enabled_entry
  set_enabled domain enabled w s =
      mutate exclusion_entry (set_enabled_entry (normalize domain) enabled) w s
