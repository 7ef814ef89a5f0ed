-- ===== src/Adblock/Curation.antt =====
-- `ListCuration` of src/adblock/curation.rs, over a store that keeps texts by their ids. Whether a write
-- succeeds is an argument; `ListId::of` is Unicode's lower case, a parameter. The engine is rebuilt from
-- the lists after each change and is left out.
pub mod Unique
use ad_block.Base.{
  ℕ, zero, ◌≡◌, Bool, true, false, not, ◌&&◌, ◌||◌, List, [], ◌∷◌, ◌++◌, map, reverse, Option, none,
  some, retain, find, is_empty, any, ◌==◌, if◌then◌else◌, Result, ok, err,
}
use ad_block.Adblock.Commands.{RulesUpdate, append, replace}
use ad_block.Adblock.Lists.{
  ListEntry, count_rules, header, sanitize_name, list_title, trim_txt, unwrap_or,
}
use ad_block.Text.{Text, codes, text_eq, is_char, trim, trim_start, starts_with}
use ad_block.Text.Pieces.{split}

pub record Curation : Type 0 where
  pub lists : List ListEntry
  pub stored : List (Text × Text)

pub data CurationError : Type 0 where
  empty_name not_written html_page no_rules : CurationError

abbrev pub custom_list : Text
custom_list = codes "custom"

abbrev pub custom_source : Text
custom_source = codes "config + ui"

abbrev pub is_named : Text → ListEntry → Bool
is_named name l = text_eq l.name name

unfoldable pub list_named : Text → Curation → Option ListEntry
list_named name s = find (is_named name) s.lists

abbrev pub enabled_or : Option ListEntry → Bool
enabled_or none = true
enabled_or (some l) = l.enabled

unfoldable pub remove_stored : Text → List (Text × Text) → List (Text × Text)
remove_stored id = retain (λ e. not (text_eq e.0 id))

unfoldable pub persist : Text → Text → List (Text × Text) → List (Text × Text)
unfolding remove_stored
persist id text stored = (id, text) ∷ remove_stored id stored

unfoldable pub new_entry : Text → Text → Text → Bool → ListEntry
new_entry name source text enabled = record {
  name = name;
  source = source;
  rules = count_rules text;
  enabled = enabled;
  text = text;
}

-- The first list of the name, switched.
unfoldable pub switch_first : Text → Bool → List ListEntry → List ListEntry
switch_first name enabled [] = []
switch_first name enabled (l ∷ ls) =
    let rest = l ∷ switch_first name enabled ls in
    if is_named name l then record l { enabled = enabled } ∷ ls else rest

-- The part of an address behind its last slash that is not empty and has no colon.
unfoldable pub name_from_url : Text → Text
name_from_url url = trim_txt (
    unwrap_or (codes "list") (
      find (λ s. not (is_empty s) && not (any (is_char b':') s))
        (reverse (split (is_char b'/') url))))

abbrev pub custom_or : Option Text → Text
custom_or none = custom_list
custom_or (some n) = if is_empty (trim n) then custom_list else n

module _ (to_lowercase : Text → Text) where
  unfoldable pub put_entry : Bool → ListEntry → Curation → Result CurationError ListEntry × Curation
  unfolding persist
  put_entry false entry s = (err not_written, s)
  put_entry true entry s = (
    ok entry,
    record {
      lists = retain (λ l. not (is_named entry.name l)) s.lists ++ (entry ∷ []);
      stored =
          persist (to_lowercase entry.name) (header entry.source entry.enabled ++ entry.text)
            s.stored;
    },
  )

  unfoldable pub add_list :
      Bool → Text → Text → Text → Curation → Result CurationError ListEntry × Curation
  unfolding put_entry list_named new_entry
  add_list writes name source text s =
      if is_empty (sanitize_name name)
      then (err empty_name, s)
      else put_entry writes
          (new_entry (sanitize_name name) source text
            (enabled_or (list_named (sanitize_name name) s)))
          s

  abbrev pub joined : Text → Option ListEntry → Text
  joined rules none = rules
  joined rules (some l) = l.text ++ (10 ∷ rules)

  unfoldable pub append_rules :
      Bool → Text → Text → Text → Curation → Result CurationError ListEntry × Curation
  unfolding add_list
  append_rules writes name source rules s =
      add_list writes name source (joined rules (list_named (sanitize_name name) s)) s

  unfoldable pub apply_rules :
      Bool → Option Text → Text → RulesUpdate → Curation → Result CurationError ListEntry × Curation
  unfolding add_list append_rules
  apply_rules writes name rules replace s =
      add_list writes (custom_or name)
        (if text_eq (custom_or name) custom_list then custom_source else codes "web ui") rules s
  apply_rules writes name rules append s =
      append_rules writes (custom_or name)
        (if text_eq (custom_or name) custom_list then custom_source else codes "web ui") rules s

  abbrev pub switch_found :
      Bool → Text → Bool → Option ListEntry → Curation → Result CurationError Bool × Curation
  switch_found writes name enabled none s = (ok false, s)
  switch_found false name enabled (some l) s = (err not_written, s)
  switch_found true name enabled (some l) s = (
    ok true,
    record {
      lists = switch_first name enabled s.lists;
      stored =
          persist (to_lowercase (sanitize_name name)) (header l.source enabled ++ l.text) s.stored;
    },
  )

  unfoldable pub set_list_enabled :
      Bool → Text → Bool → Curation → Result CurationError Bool × Curation
  unfolding list_named
  set_list_enabled writes name enabled s = switch_found writes name enabled (list_named name s) s

  unfoldable pub remove_list : Text → Curation → Bool × Curation
  unfolding remove_stored
  remove_list name s = (
    any (is_named name) s.lists,
    record {
      lists = retain (λ l. not (is_named name l)) s.lists;
      stored =
          if is_empty (to_lowercase (sanitize_name name))
          then s.stored
          else remove_stored (to_lowercase (sanitize_name name)) s.stored;
    },
  )

  unfoldable pub remove_each : List Text → Curation → Curation
  unfolding remove_list
  remove_each [] s = s
  remove_each (name ∷ names) s = remove_each names (remove_list name s).1

  -- The lists of either address that have another name than the new one.
  unfoldable pub stale_names : Text → Text → Text → List ListEntry → List Text
  stale_names given_url url name ls =
      map (λ l. l.name)
        (retain
          (λ l. (text_eq l.source url || text_eq l.source given_url) && not (text_eq l.name name))
          ls)

  unfoldable pub download_name : Text → Text → Text
  unfolding name_from_url
  download_name url text = unwrap_or (name_from_url url) (list_title text)

  unfoldable pub install_downloaded :
      Bool → Text → Text → Text → Curation → Result CurationError ListEntry × Curation
  unfolding remove_each stale_names download_name add_list
  install_downloaded writes given_url url text s =
      if starts_with (codes "<") (trim_start text)
      then (err html_page, s)
      else if count_rules text == 0
      then (err no_rules, s)
      else add_list writes (download_name url text) url text (
          remove_each (stale_names given_url url (sanitize_name (download_name url text)) s.lists)
            s)
