-- ===== src/Stats/Logs.antt =====
-- src/stats/logs.rs: RotatingLog, the log of requests and of queries. A file is the list of its lines, the
-- oldest first. What becomes of the calls of the file system is an argument. The writer takes the lines in
-- the order in which they were sent.
pub mod Paging
use ad_block.Base.{
  ℕ, zero, suc, ◌+◌, ◌-◌, ◌*◌, Bool, true, false, not, ◌&&◌, List, [], ◌∷◌, ◌++◌, reverse, Option,
  none, some, ltb, leb, ◌==◌, if◌then◌else◌, find, length,
}
use ad_block.Text.{Text}

-- `is_open` says whether the current file is held open; `started_ms` is the time of its first line.
pub record RotatingLog : Type 0 where
  pub current : List Text
  pub old : List Text
  pub is_open : Bool
  pub started_ms : Option ℕ
  pub rotate_ms : ℕ

unfoldable pub hours_ms : ℕ → ℕ
hours_ms hours = hours * 3_600_000

-- `open`: the files that are there, and the time that the first line of the current one has.
unfoldable pub open_log : List Text → List Text → Option ℕ → ℕ → RotatingLog
unfolding hours_ms
open_log current old first_ts hours = record {
  current = current;
  old = old;
  is_open = false;
  started_ms = first_ts;
  rotate_ms = hours_ms hours;
}

unfoldable pub set_rotate_hours : ℕ → RotatingLog → RotatingLog
unfolding hours_ms
set_rotate_hours hours log = record log { rotate_ms = hours_ms hours }

-- Whether the calls to rename, to open and to write succeed. A current file that is missing counts as one
-- that cannot be renamed.
pub record Disk : Type 0 where
  pub renames : Bool
  pub opens : Bool
  pub writes : Bool

unfoldable pub is_due : ℕ → RotatingLog → Bool
is_due ts log = elim log.started_ms [ none ↦ false | some s ↦ leb log.rotate_ms (ts - s) ]

unfoldable pub rotated : Bool → RotatingLog → RotatingLog
rotated true log = record log {
  current = [];
  old = log.current;
  is_open = false;
  started_ms = none;
}
rotated false log = record log { is_open = false; started_ms = none }

abbrev pub get_or_insert : ℕ → Option ℕ → Option ℕ
get_or_insert ts none = some ts
get_or_insert ts (some s) = some s

unfoldable pub written : Bool → ℕ → Text → RotatingLog → RotatingLog
written true ts line log = record log {
  current = log.current ++ (line ∷ []);
  is_open = true;
  started_ms = get_or_insert ts log.started_ms;
}
written false ts line log = record log {
  is_open = false;
  started_ms = get_or_insert ts log.started_ms;
}

unfoldable pub opened : Disk → ℕ → Text → RotatingLog → RotatingLog
unfolding written
opened d ts line log =
    if log.is_open
    then written d.writes ts line log
    else if d.opens
    then written d.writes ts line log
    else log

unfoldable pub write_line : Disk → ℕ → Text → RotatingLog → RotatingLog
unfolding is_due rotated opened
write_line d ts line log =
    if is_due ts log then opened d ts line (rotated d.renames log) else opened d ts line log

abbrev pub then_old : ℕ → List Text → (ℕ → List Text) → List Text
then_old limit out more = if leb limit (length out) then out else out ++ more (limit - length out)

module _ (seq_of : Text → Option ℕ) where
  -- Whether a line stands before the cursor.
  unfoldable pub eligible : Option ℕ → Text → Bool
  eligible before line = elim (seq_of line) [
    | none ↦ false
    | some seq ↦ elim before [ none ↦ true | some b ↦ not (leb b seq) ]
  ]

  -- The loop over the lines of a file, until so many more are there.
  unfoldable pub walk : Option ℕ → ℕ → List Text → List Text
  walk before n [] = []
  walk before zero (line ∷ lines) = []
  walk before (suc n) (line ∷ lines) =
      let with_it = line ∷ walk before n lines in
      let without = walk before (suc n) lines in if eligible before line then with_it else without

  unfoldable pub page : Option ℕ → ℕ → RotatingLog → List Text
  unfolding walk
  page before zero log = []
  page before (suc n) log =
      then_old (suc n) (walk before (suc n) (reverse log.current))
        (λ k. walk before k (reverse log.old))

unfoldable pub find_line : (Text → Bool) → RotatingLog → Option Text
find_line pred log = elim (find pred (reverse log.current)) [
  | some line ↦ some line
  | none ↦ find pred (reverse log.old)
]
