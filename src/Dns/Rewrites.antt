-- ===== src/Dns/Rewrites.antt =====
-- src/dns/rewrites.rs: the local DNS records, kept in a set file. The texts of error messages are
-- left out: an error is its kind.
pub mod Match
pub mod Patterns
pub mod Exclusive
pub mod Single
use ad_block.Base.{
  ℕ, ◌+◌, ◌≡◌, Bool, true, false, not, ◌&&◌, ◌||◌, List, [], ◌∷◌, ◌++◌, map, Option, none, some,
  leb, ltb, ◌==◌, if◌then◌else◌, is_empty, any, all, find, retain, length, sort_by, Result, ok, err,
}
use ad_block.Net.{Ipv4Addr, parse_ipv4, ipv4_text, is_ipv6}
use ad_block.Persist.{Entry, Error, config, Write, PersistedSet, load, mutate, join_lines}
use ad_block.Text.{
  Text, codes, text_eq, is_whitespace, is_char, contains, trim, trim_start, trim_matches,
  trim_end_matches, to_ascii_lowercase, is_ascii_alphanumeric, strip_prefix, starts_with, ends_with,
  split_once, byte_len,
}
use ad_block.Text.Order.{text_le}

-- `FILE_HEADER`, by its lines.
abbrev pub header_lines : List Text
header_lines =
    codes "# DNS rewrites (local records). Managed by the admin UI; one"
    ∷ codes "# \"domain answer\" per line. *.domain covers the domain and subdomains."
    ∷ codes "# A leading ! parks the record: kept and listed, never answered."
    ∷ []

unfoldable pub file_header : Text
file_header = join_lines header_lines

pub data RewriteAnswer : Type 0 where
  v4 : Ipv4Addr → RewriteAnswer
  cname : Text → RewriteAnswer

pub data AnswerError : Type 0 where
  empty_answer ipv6_answer no_address_or_host : AnswerError

unfoldable pub is_host_char : ℕ → Bool
is_host_char c = is_ascii_alphanumeric c || c == b'.' || c == b'-' || c == b'_'

unfoldable pub parse_answer : Text → Result AnswerError RewriteAnswer
parse_answer text =
    let s = trim_end_matches (is_char b'.') (trim text) in
    let host = to_ascii_lowercase s in
    if is_empty s then err empty_answer else (elim (parse_ipv4 s) [
      | some ip ↦ ok (v4 ip)
      | none ↦
          if is_ipv6 s
          then err ipv6_answer
          else if all is_host_char host
          then ok (cname host)
          else err no_address_or_host
    ])

unfoldable pub answer_text : RewriteAnswer → Text
answer_text (v4 ip) = ipv4_text ip
answer_text (cname host) = host

pub record Rewrite : Type 0 where
  pub domain : Text
  pub answer : RewriteAnswer
  pub enabled : Bool

abbrev pub star_dot : Text
star_dot = b'*' ∷ b'.' ∷ []

-- The host of a pattern, and whether it is a wildcard.
unfoldable pub split_star : Text → Bool × Text
split_star raw = elim (strip_prefix star_dot raw) [ some h ↦ (true, h) | none ↦ (false, raw) ]

unfoldable pub is_bad_host : Text → Bool
is_bad_host host = is_empty host || contains b'*' host || not (all is_host_char host)

unfoldable pub normalize_pattern : Text → Result Error Text
unfolding split_star is_bad_host
normalize_pattern domain =
    let (wild, rest) =
      split_star (to_ascii_lowercase (trim_end_matches (is_char b'.') (trim domain))) in
    let host = trim_matches (is_char b'.') rest in
    if is_bad_host host then err config else ok (if wild then star_dot ++ host else host)

-- A leading `!` parks the record.
unfoldable pub split_mark : Text → Text × Bool
split_mark line = elim (strip_prefix (b'!' ∷ []) line) [
  | some rest ↦ (trim_start rest, false)
  | none ↦ (line, true)
]

unfoldable pub parse_rewrite : Text → Option Rewrite
unfolding split_mark
parse_rewrite text =
    let (line, enabled) = split_mark text in
    elim (split_once is_whitespace line) [
      | none ↦ none
      | some (domain, answer) ↦ elim (normalize_pattern domain) [
        | err _ ↦ none
        | ok d ↦ elim (parse_answer answer) [
          | err _ ↦ none
          | ok a ↦ some (record { domain = d; answer = a; enabled = enabled })
        ]
      ]
    ]

unfoldable pub format_rewrite : Rewrite → Text
format_rewrite r =
    (if r.enabled then [] else b'!' ∷ []) ++ (r.domain ++ (b' ' ∷ answer_text r.answer))

abbrev pub rewrite_entry : Entry Rewrite
rewrite_entry = record { parse = parse_rewrite; format = format_rewrite }

abbrev pub RewriteStore : Type 0
RewriteStore = PersistedSet Rewrite

unfoldable pub load_rewrites : Option Text → RewriteStore
load_rewrites file = load rewrite_entry file file_header (λ l. l)

unfoldable pub pattern_matches : Text → Text → Bool
pattern_matches pattern domain = elim (strip_prefix star_dot pattern) [
  | some suffix ↦ text_eq domain suffix || ends_with (b'.' ∷ suffix) domain
  | none ↦ text_eq domain pattern
]

unfoldable pub pattern_specificity : Text → Bool × ℕ
pattern_specificity pattern = (not (starts_with star_dot pattern), byte_len pattern)

-- The derived order of pairs: `false` is below `true`, and the length decides between equals.
unfoldable pub specificity_le : Bool × ℕ → Bool × ℕ → Bool
specificity_le (false, m) (true, n) = true
specificity_le (true, m) (false, n) = false
specificity_le (false, m) (false, n) = leb m n
specificity_le (true, m) (true, n) = leb m n

-- `max_by_key`: the last of the greatest. `best` is the greatest so far.
unfoldable pub max_from : Text → List Text → Text
max_from best [] = best
max_from best (p ∷ ps) =
    max_from (if specificity_le (pattern_specificity best) (pattern_specificity p) then p else best)
      ps

unfoldable pub max_by_specificity : List Text → Option Text
unfolding max_from
max_by_specificity [] = none
max_by_specificity (p ∷ ps) = some (max_from p ps)

abbrev pub live : List Rewrite → List Rewrite
live = retain (λ r. r.enabled)

-- The domains of the enabled records whose pattern covers the name.
unfoldable pub candidates : List Rewrite → Text → List Text
candidates rewrites domain =
    map (λ r. r.domain) (retain (λ r. pattern_matches r.domain domain) (live rewrites))

unfoldable pub answers_of : List Rewrite → Text → List RewriteAnswer
answers_of rewrites best = map (λ r. r.answer) (retain (λ r. text_eq r.domain best) (live rewrites))

unfoldable pub matching : RewriteStore → Text → List RewriteAnswer
matching s domain = elim (max_by_specificity (candidates s.entries domain)) [
  | none ↦ []
  | some best ↦ answers_of s.entries best
]

unfoldable pub ip_eq : Ipv4Addr → Ipv4Addr → Bool
ip_eq i j = i.a == j.a && i.b == j.b && i.c == j.c && i.d == j.d

unfoldable pub answer_eq : RewriteAnswer → RewriteAnswer → Bool
unfolding ip_eq
answer_eq (v4 i) (v4 j) = ip_eq i j
answer_eq (cname s) (cname t) = text_eq s t
answer_eq (v4 i) (cname t) = false
answer_eq (cname s) (v4 j) = false

unfoldable pub same_record : Rewrite → Text → RewriteAnswer → Bool
same_record r domain answer = text_eq r.domain domain && answer_eq r.answer answer

-- `trim_start_matches("*.")`
unfoldable pub strip_stars : Text → Text
strip_stars (c ∷ d ∷ s) = if c == b'*' && d == b'.' then strip_stars s else c ∷ d ∷ s
strip_stars s = s

unfoldable pub points_at_itself : RewriteAnswer → Text → Bool
unfolding strip_stars
points_at_itself (v4 ip) domain = false
points_at_itself (cname t) domain = text_eq t (strip_stars domain)

abbrev pub is_cname : RewriteAnswer → Bool
is_cname (v4 ip) = false
is_cname (cname t) = true

-- A CNAME excludes every other answer for its domain.
unfoldable pub conflicts : List Rewrite → Rewrite → Bool
conflicts rewrites entry =
    any (λ r. text_eq r.domain entry.domain && (is_cname entry.answer || is_cname r.answer))
      rewrites

-- The order of the file: by domain, then by the text of the answer.
unfoldable pub rewrite_le : Rewrite → Rewrite → Bool
rewrite_le r q =
    if text_eq r.domain q.domain
    then text_le (answer_text r.answer) (answer_text q.answer)
    else text_le r.domain q.domain

unfoldable pub add_entry : Rewrite → List Rewrite → Result Error (Unit {0}) × Bool × List Rewrite
add_entry entry rewrites =
    if any (λ r. same_record r entry.domain entry.answer) rewrites
    then (ok tt, false, rewrites)
    else if conflicts rewrites entry
    then (err config, false, rewrites)
    else (ok tt, true, sort_by rewrite_le (rewrites ++ (entry ∷ [])))

-- The `?` behind `mutate` in `add`.
abbrev pub flatten :
    Result Error (Result Error (Unit {0})) × RewriteStore → Result Error (Unit {0}) × RewriteStore
flatten (ok r, s) = (r, s)
flatten (err e, s) = (err e, s)

-- The arguments that `add`, `remove` and `set_enabled` read, or the error that they answer.
unfoldable pub read_arguments : Text → Text → Result Error (Text × RewriteAnswer)
read_arguments domain answer = elim (normalize_pattern domain) [
  | err e ↦ err e
  | ok d ↦ elim (parse_answer answer) [ err _ ↦ err config | ok a ↦ ok (d, a) ]
]

unfoldable pub add : Text → Text → Write → RewriteStore → Result Error (Unit {0}) × RewriteStore
unfolding read_arguments
add domain answer w s = elim (read_arguments domain answer) [
  | err e ↦ (err e, s)
  | ok (d, a) ↦
      if points_at_itself a d
      then (err config, s)
      else flatten
          (mutate rewrite_entry (add_entry (record { domain = d; answer = a; enabled = true })) w s)
]

unfoldable pub remove_entry : Text → RewriteAnswer → List Rewrite → Bool × Bool × List Rewrite
remove_entry d a rewrites =
    let kept = retain (λ r. not (same_record r d a)) rewrites in
    let removed = not (length kept == length rewrites) in (removed, removed, kept)

unfoldable pub remove : Text → Text → Write → RewriteStore → Result Error Bool × RewriteStore
unfolding read_arguments remove_entry
remove domain answer w s = elim (read_arguments domain answer) [
  | err e ↦ (err e, s)
  | ok (d, a) ↦ mutate rewrite_entry (remove_entry d a) w s
]

-- The first record of that identity gets the flag.
unfoldable pub set_first : Text → RewriteAnswer → Bool → List Rewrite → List Rewrite
set_first d a enabled [] = []
set_first d a enabled (r ∷ rs) =
    if same_record r d a then record r { enabled = enabled } ∷ rs else r ∷ set_first d a enabled rs

abbrev pub same_flag : Bool → Bool → Bool
same_flag true b = b
same_flag false b = not b

unfoldable pub set_enabled_entry :
    Text → RewriteAnswer → Bool → List Rewrite → Bool × Bool × List Rewrite
unfolding set_first
set_enabled_entry d a enabled rewrites = elim (find (λ r. same_record r d a) rewrites) [
  | none ↦ (false, false, rewrites)
  | some r ↦
      if same_flag r.enabled enabled
      then (true, false, rewrites)
      else (true, true, set_first d a enabled rewrites)
]

unfoldable pub set_enabled :
    Text → Text → Bool → Write → RewriteStore → Result Error Bool × RewriteStore
unfolding read_arguments set_enabled_entry
set_enabled domain answer enabled w s = elim (read_arguments domain answer) [
  | err e ↦ (err e, s)
  | ok (d, a) ↦ mutate rewrite_entry (set_enabled_entry d a enabled) w s
]
