-- ===== src/Persist.antt =====
-- The line-based set files: `PersistedSet` of src/dns/persist.rs, of which src/proxy/persist.rs and
-- src/stats/persist.rs hold the same text. The served list and the file are one state; what the
-- file system does with a write is an argument of the call.
pub mod Mutate
use ad_block.Base.{
  ℕ, ◌≡◌, Bool, true, false, not, ◌&&◌, List, [], ◌∷◌, ◌++◌, map, Option, none, some, ◌==◌,
  if◌then◌else◌, is_empty, retain, Result, ok, err,
}
use ad_block.Text.{Text, trim, before, is_char, starts_with}

-- How one entry is read from a line, and written to one.
pub record Entry (T : Type 0) : Type 0 where
  pub parse : Text → Option T
  pub format : T → Text

-- An argument that was refused, a directory that could not be created, a file not written.
pub data Error : Type 0 where
  config : Error

-- What became of a write: a failed one leaves whatever it leaves.
pub data Write : Type 0 where
  written : Write
  failed : Option Text → Write

pub record PersistedSet (T : Type 0) : Type 0 where
  pub entries : List T
  pub header : Text
  -- the text that can be read from the path
  pub file : Option Text

-- `push_char c s ls`: the lines of `c ∷ s`, if those of `s` are `ls`. A carriage return belongs to
-- the line feed behind it.
unfoldable pub push_char : ℕ → Text → List Text → List Text
push_char c s ls =
    if c == 0xd && starts_with (0xa ∷ []) s
    then ls
    else (elim ls [ [] ↦ (c ∷ []) ∷ [] | l ∷ rest ↦ (c ∷ l) ∷ rest ])

-- `str::lines`
unfoldable pub lines : Text → List Text
unfolding push_char
lines [] = []
lines (c ∷ s) = let rest = lines s in if c == 0xa then [] ∷ rest else push_char c s rest

-- `join("\n")`
unfoldable pub join_lines : List Text → Text
join_lines [] = []
join_lines (l ∷ []) = l
join_lines (l ∷ m ∷ ls) = l ++ (0xa ∷ join_lines (m ∷ ls))

-- `filter_map(f)`
unfoldable pub filter_map : {A B : Type 0} → (A → Option B) → List A → List B
filter_map f [] = []
filter_map f (x ∷ xs) = elim (f x) [ none ↦ filter_map f xs | some y ↦ y ∷ filter_map f xs ]

-- A line without its comment and the space around it.
unfoldable pub strip_comment : Text → Text
strip_comment l = trim (before (is_char b'#') l)

module _ {T : Type 0} (e : Entry T) where
  unfoldable pub parse_lines : Text → List T
  unfolding filter_map strip_comment
  parse_lines text =
      filter_map e.parse (retain (λ l. not (is_empty l)) (map strip_comment (lines text)))

  unfoldable pub load : Option Text → Text → (List T → List T) → PersistedSet T
  unfolding parse_lines
  load file header normalize = record {
    entries = normalize (elim file [ none ↦ [] | some text ↦ parse_lines text ]);
    header = header;
    file = file;
  }

  -- The text that `persist` writes.
  unfoldable pub body : Text → List T → Text
  unfolding join_lines
  body header entries = header ++ (0xa ∷ (join_lines (map e.format entries) ++ (0xa ∷ [])))

  unfoldable pub persist : Write → List T → PersistedSet T → Result Error (Unit {0}) × Option Text
  unfolding body
  persist written next s = (ok tt, some (body s.header next))
  persist (failed left) next s = (err config, left)

  -- `f` answers its result, whether it changed the list, and the list.
  unfoldable pub mutate :
      {R : Type 0}
      → (List T → R × Bool × List T)
      → Write
      → PersistedSet T
      → Result Error R × PersistedSet T
  unfolding persist
  mutate f w s =
      let (out, changed, next) = f s.entries in
      if changed
      then (elim (persist w next s).0 [
        | ok _ ↦ (ok out, record s { entries = next; file = (persist w next s).1 })
        | err x ↦ (err x, record s { file = (persist w next s).1 })
      ])
      else (ok out, s)
