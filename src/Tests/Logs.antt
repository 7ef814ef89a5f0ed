-- ===== src/Tests/Logs.antt =====
-- The rotating log, at concrete inputs.
use ad_block.Base.{ℕ, ◌≡◌, refl, true, [], ◌∷◌, Option, none, some}
use ad_block.Stats.Logs.{RotatingLog, Disk, is_due, eligible, write_line, page}
use ad_block.Stats.Logs.Paging.{kept, page-write_line}
use ad_block.Text.{Text, codes}

-- A number is a line by itself.
abbrev seq_of : Text → Option ℕ
seq_of [] = none
seq_of (c ∷ line) = some c

abbrev log : RotatingLog
log = record {
  current = codes "3" ∷ codes "4" ∷ [];
  old = codes "1" ∷ codes "2" ∷ [];
  is_open = true;
  started_ms = some 0;
  rotate_ms = 3_600_000;
}

abbrev disk : Disk
disk = record { renames = true; opens = true; writes = true }

eligible_5 : eligible seq_of none (codes "5") ≡ true
unfolding eligible
eligible_5 = refl

page-write_line_example :
    page seq_of none 3 (write_line disk 3_600_000 (codes "5") log)
    ≡ codes "5" ∷ page seq_of none 2 (kept (is_due 3_600_000 log) log)
page-write_line_example =
    page-write_line seq_of none 2 3_600_000 disk (codes "5") log refl refl refl eligible_5
