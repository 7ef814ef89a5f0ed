-- ===== src/Adblock/Lists.antt =====
-- src/adblock/curation.rs: the texts of filter lists, with the header that is stored above them.
pub mod Stored
use ad_block.Base.{
  ℕ, zero, suc, ◌+◌, ◌≡◌, Bool, true, false, not, ◌&&◌, ◌||◌, List, [], ◌∷◌, ◌++◌, map, reverse,
  Option, none, some, take, retain, length, find, is_empty, any, ◌==◌, if◌then◌else◌,
}
use ad_block.Text.{
  Text, codes, is_char, is_ascii_alphanumeric, trim, trim_start, trim_start_matches, trim_matches,
  starts_with, strip_prefix, split_once,
}
use ad_block.Persist.{lines}

-- The entry, without the number of its rules, which is `count_rules` of the text.
pub record ListEntry : Type 0 where
  pub name : Text
  pub source : Text
  pub rules : ℕ
  pub enabled : Bool
  pub text : Text

abbrev pub newline : ℕ
newline = 10

abbrev pub disabled_mark : Text
disabled_mark = codes "! disabled" ++ (newline ∷ [])

unfoldable pub is_rule : Text → Bool
is_rule l = not (is_empty l) && (not (starts_with (codes "!") l) && not (starts_with (codes "[") l))

unfoldable pub count_rules : Text → ℕ
unfolding is_rule
count_rules text = length (retain is_rule (map trim (lines text)))

unfoldable pub header : Text → Bool → Text
header source enabled =
    codes "! source: " ++ (source ++ (newline ∷ (if enabled then [] else disabled_mark)))

abbrev pub after_line : Option (Text × Text) → Text
after_line none = []
after_line (some (line, rest)) = rest

unfoldable pub strip_source_header : Text → Text
strip_source_header text = elim (strip_prefix (codes "! source: ") text) [
  | none ↦ text
  | some rest ↦ after_line (split_once (is_char newline) rest)
]

-- `trim_end_matches(".txt")` of a text that is read backwards: a pass for each character is enough.
unfoldable pub drop_suffixes : ℕ → Text → Text
drop_suffixes zero t = t
drop_suffixes (suc k) t = elim (strip_prefix (codes "txt.") t) [
  | none ↦ t
  | some rest ↦ drop_suffixes k rest
]

unfoldable pub trim_txt : Text → Text
unfolding drop_suffixes
trim_txt t = reverse (drop_suffixes (length t) (reverse t))

unfoldable pub name_char : ℕ → Bool
name_char c = is_ascii_alphanumeric c || (c == b'-' || (c == b'_' || c == b'.'))

-- The loop of `sanitize_name`; the flag says whether the last character that was pushed is a dash.
unfoldable pub pushed : Bool → Text → Text
unfolding name_char
pushed dash [] = []
pushed dash (c ∷ s) =
    let kept = c ∷ pushed (c == b'-') s in
    let skipped = pushed dash s in
    let dashed = b'-' ∷ pushed true s in
    if name_char c then kept else if dash then skipped else dashed

unfoldable pub sanitize_name : Text → Text
unfolding trim_txt pushed
sanitize_name name = trim_matches (is_char b'-') (pushed false (trim_txt (trim name)))

abbrev pub or_else : Option Text → Option Text → Option Text
or_else none t = t
or_else (some s) t = some s

-- The title that a line gives.
unfoldable pub title_in : Text → Option Text
title_in l =
    let rest = trim_start (trim_start_matches (λ c. c == b'!' || c == b'#') l) in
    or_else (strip_prefix (codes "Title:") rest) (strip_prefix (codes "title:") rest)

unfoldable pub find_title : List Text → Option Text
unfolding title_in
find_title [] = none
find_title (l ∷ ls) = or_else (title_in l) (find_title ls)

abbrev pub non_empty : Text → Option Text
non_empty [] = none
non_empty (c ∷ t) = some (c ∷ t)

abbrev pub bind : Option Text → (Text → Option Text) → Option Text
bind none f = none
bind (some t) f = f t

unfoldable pub list_title : Text → Option Text
unfolding find_title
list_title text =
    bind
      (find_title (
        retain (λ l. starts_with (codes "!") l || starts_with (codes "#") l)
          (take 30 (lines text))))
      (λ t. non_empty (trim t))

abbrev pub unwrap_or : Text → Option Text → Text
unwrap_or d none = d
unwrap_or d (some t) = t

abbrev pub source_line : Text → Option (Text × Text) → Text × Text
source_line rest none = (rest, [])
source_line rest (some (src, body)) = (src, body)

-- The source and the text below the header.
abbrev pub read_source : Text → Text → Option Text → Text × Text
read_source fallback text none = (fallback, text)
read_source fallback text (some rest) = source_line rest (split_once (is_char newline) rest)

abbrev pub read_mark : Text → Option Text → Bool × Text
read_mark text none = (true, text)
read_mark text (some body) = (false, body)

unfoldable pub entry_of : Text → Text → Bool × Text → ListEntry
unfolding list_title sanitize_name count_rules
entry_of fallback_name source (enabled, text) = record {
  name = unwrap_or fallback_name (bind (list_title text) (λ t. non_empty (sanitize_name t)));
  source = source;
  rules = count_rules text;
  enabled = enabled;
  text = text;
}

unfoldable pub entry_below : Text → Text × Text → ListEntry
unfolding entry_of
entry_below fallback_name (source, text) =
    entry_of fallback_name source (read_mark text (strip_prefix disabled_mark text))

unfoldable pub entry_from_text : Text → Text → Text → ListEntry
unfolding entry_below
entry_from_text fallback_name fallback_source text =
    entry_below fallback_name
      (read_source fallback_source text (strip_prefix (codes "! source: ") text))
