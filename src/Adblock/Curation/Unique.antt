-- ===== src/Adblock/Curation/Unique.antt =====
-- No two lists have the same name.
use ad_block.Base.{
  ◌≡◌, ◌∙◌, inl, inr, Bool, true, false, not, List, [], ◌∷◌, ◌++◌, Option, none, some, All,
  All-retain, All-append, retain, is_empty, ◌==◌, if◌then◌else◌, Bool-cases, Result, err,
}
use ad_block.Adblock.Commands.{RulesUpdate, append, replace}
use ad_block.Adblock.Curation.{
  Curation, CurationError, html_page, no_rules, is_named, put_entry, add_list, append_rules,
  apply_rules, switch_first, switch_found, set_list_enabled, remove_list, remove_each,
  install_downloaded, stale_names, download_name,
}
use ad_block.Adblock.Lists.{ListEntry, sanitize_name, count_rules}
use ad_block.Text.{Text, codes, starts_with, trim_start}
use ad_block.Text.Laws.{text_eq_comm}

abbrev pub NamesDiffer : List ListEntry → Type 0
NamesDiffer [] = Unit {0}
NamesDiffer (l ∷ ls) = All (λ m. is_named l.name m ≡ false) ls × NamesDiffer ls

retain-NamesDiffer :
    (p : ListEntry → Bool) (ls : List ListEntry) → NamesDiffer ls → NamesDiffer (retain p ls)
retain-NamesDiffer p [] h = tt
retain-NamesDiffer p (l ∷ ls) h = elim (Bool-cases (p l)) [
  | inl e ↦ rw e (All-retain (λ m. is_named l.name m ≡ false) p ls h.0, retain-NamesDiffer p ls h.1)
  | inr e ↦ rw e (retain-NamesDiffer p ls h.1)
]

append-NamesDiffer :
    (e : ListEntry) (ls : List ListEntry)
    → All (λ m. is_named e.name m ≡ false) ls
    → NamesDiffer ls
    → NamesDiffer (ls ++ (e ∷ []))
append-NamesDiffer e [] a h = (tt, tt)
append-NamesDiffer e (l ∷ ls) a h = (
  All-append (λ m. is_named l.name m ≡ false) ls (e ∷ []) h.0
      (text_eq_comm e.name l.name ∙ a.0, tt),
  append-NamesDiffer e ls a.1 h.1,
)

All-others :
    (name : Text) (ls : List ListEntry)
    → All (λ m. is_named name m ≡ false) (retain (λ l. not (is_named name l)) ls)
All-others name [] = tt
All-others name (l ∷ ls) = elim (Bool-cases (is_named name l)) [
  | inl e ↦ rw e (All-others name ls)
  | inr e ↦ rw e (e, All-others name ls)
]

switch_first-All :
    (other name : Text) (enabled : Bool) (ls : List ListEntry)
    → All (λ m. is_named other m ≡ false) ls
    → All (λ m. is_named other m ≡ false) (switch_first name enabled ls)
unfolding switch_first
switch_first-All other name enabled [] h = tt
switch_first-All other name enabled (l ∷ ls) h = elim (Bool-cases (is_named name l)) [
  | inl e ↦ rw (e, switch_first) (h.0, h.1)
  | inr e ↦ rw (e, switch_first) (h.0, switch_first-All other name enabled ls h.1)
]

switch_first-NamesDiffer :
    (name : Text) (enabled : Bool) (ls : List ListEntry)
    → NamesDiffer ls
    → NamesDiffer (switch_first name enabled ls)
unfolding switch_first
switch_first-NamesDiffer name enabled [] h = tt
switch_first-NamesDiffer name enabled (l ∷ ls) h = elim (Bool-cases (is_named name l)) [
  | inl e ↦ rw (e, switch_first) (h.0, h.1)
  | inr e ↦
      rw (e, switch_first)
        (switch_first-All l.name name enabled ls h.0, switch_first-NamesDiffer name enabled ls h.1)
]

-- The calls that change the lists.
pub data Call : Type 0 where
  add : Bool → Text → Text → Text → Call
  apply : Bool → Option Text → Text → RulesUpdate → Call
  switch : Bool → Text → Bool → Call
  remove : Text → Call
  install : Bool → Text → Text → Text → Call

module _ (to_lowercase : Text → Text) where
  unfoldable pub step : Call → Curation → Curation
  step (add writes name source text) s = (add_list to_lowercase writes name source text s).1
  step (apply writes name rules update) s = (apply_rules to_lowercase writes name rules update s).1
  step (switch writes name enabled) s = (set_list_enabled to_lowercase writes name enabled s).1
  step (remove name) s = (remove_list to_lowercase name s).1
  step (install writes given_url url text) s =
      (install_downloaded to_lowercase writes given_url url text s).1

  unfoldable pub run : List Call → Curation → Curation
  unfolding step
  run [] s = s
  run (c ∷ cs) s = run cs (step c s)

  abbrev Unique : Curation → Type 0
  Unique s = NamesDiffer s.lists

  put_entry-Unique :
      (writes : Bool) (e : ListEntry) (s : Curation)
      → Unique s
      → Unique (put_entry to_lowercase writes e s).1
  unfolding put_entry
  put_entry-Unique false e s h = h
  put_entry-Unique true e s h =
      append-NamesDiffer e _ (All-others e.name s.lists) (retain-NamesDiffer _ s.lists h)

  add_list-Unique :
      (writes : Bool) (name source text : Text) (s : Curation)
      → Unique s
      → Unique (add_list to_lowercase writes name source text s).1
  unfolding add_list
  add_list-Unique writes name source text s h = elim (Bool-cases (is_empty (sanitize_name name))) [
    | inl e ↦ rw (e, add_list) h
    | inr e ↦ rw (e, add_list) (put_entry-Unique writes _ s h)
  ]

  remove_each-Unique :
      (names : List Text) (s : Curation) → Unique s → Unique (remove_each to_lowercase names s)
  unfolding remove_each remove_list
  remove_each-Unique [] s h = h
  remove_each-Unique (name ∷ names) s h =
      remove_each-Unique names _ (retain-NamesDiffer _ s.lists h)

  switch_found-Unique :
      (writes : Bool) (name : Text) (enabled : Bool) (o : Option ListEntry) (s : Curation)
      → Unique s
      → Unique (switch_found to_lowercase writes name enabled o s).1
  switch_found-Unique writes name enabled none s h = h
  switch_found-Unique false name enabled (some l) s h = h
  switch_found-Unique true name enabled (some l) s h =
      switch_first-NamesDiffer name enabled s.lists h

  install-Unique :
      (writes : Bool) (given_url url text : Text) (s : Curation)
      → Unique s
      → Unique (install_downloaded to_lowercase writes given_url url text s).1
  unfolding install_downloaded
  install-Unique writes given_url url text s h =
      by_tests (starts_with (codes "<") (trim_start text)) (count_rules text == 0)
    where
      stale : List Text
      stale =
          stale_names to_lowercase given_url url
            (sanitize_name (download_name to_lowercase url text)) s.lists

      added : Result CurationError ListEntry × Curation
      added =
          add_list to_lowercase writes (download_name to_lowercase url text) url text
            (remove_each to_lowercase stale s)

      by_tests :
          (a b : Bool)
          → Unique (if a then (err html_page, s) else if b then (err no_rules, s) else added).1
      by_tests true b = h
      by_tests false true = h
      by_tests false false =
          add_list-Unique writes (download_name to_lowercase url text) url text
            (remove_each to_lowercase stale s) (remove_each-Unique stale s h)

  step-Unique : (c : Call) (s : Curation) → Unique s → Unique (step c s)
  unfolding step append_rules apply_rules set_list_enabled remove_list
  step-Unique (add writes name source text) s h = add_list-Unique writes name source text s h
  step-Unique (apply writes name rules replace) s h = add_list-Unique writes _ _ _ s h
  step-Unique (apply writes name rules append) s h = add_list-Unique writes _ _ _ s h
  step-Unique (switch writes name enabled) s h = switch_found-Unique writes name enabled _ s h
  step-Unique (remove name) s h = retain-NamesDiffer _ s.lists h
  step-Unique (install writes given_url url text) s h = install-Unique writes given_url url text s h

  -- If no two lists have the same name, then so it is after any sequence of calls that add, apply
  -- rules to, switch, remove or install lists, whatever their names are, whether the writes
  -- succeed, and whatever to_lowercase does.
  pub run-NamesDiffer :
      (cs : List Call) (s : Curation) → NamesDiffer s.lists → NamesDiffer (run cs s).lists
  unfolding run
  run-NamesDiffer [] s h = h
  run-NamesDiffer (c ∷ cs) s h = run-NamesDiffer cs (step c s) (step-Unique c s h)
