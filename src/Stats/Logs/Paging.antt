-- ===== src/Stats/Logs/Paging.antt =====
-- A page has the newest lines, across a rotation.
use ad_block.Base.{
  ℕ, zero, suc, ◌-◌, ◌≡◌, refl, sym, ap, ◌∙◌, inl, inr, arith, Bool, true, false, List, [], ◌∷◌,
  ◌++◌, reverse, Option, leb, if◌then◌else◌, Bool-cases, length, take, retain,
}
use mathlib.Core.List.{reverse-append}
use ad_block.Stats.Logs.{
  RotatingLog, Disk, is_due, rotated, written, opened, write_line, eligible, walk, then_old, page,
}
use ad_block.Text.{Text}

module _ (seq_of : Text → Option ℕ) (before : Option ℕ) where
  walk_lem :
      (n : ℕ) (lines : List Text)
      → walk seq_of before n lines ≡ take n (retain (eligible seq_of before) lines)
  unfolding walk
  walk_lem zero [] = refl
  walk_lem (suc n) [] = refl
  walk_lem zero (line ∷ lines) = refl
  walk_lem (suc n) (line ∷ lines) = elim (Bool-cases (eligible seq_of before line)) [
    | inl e ↦ rw (e, walk) (ap (◌∷◌ line) (walk_lem n lines))
    | inr e ↦ rw (e, walk) (walk_lem (suc n) lines)
  ]

take-append :
    (n : ℕ) (xs ys : List Text) → take n (xs ++ ys) ≡ take n xs ++ take (n - length (take n xs)) ys
take-append zero xs ys = sym (ap (λ k. take k ys) zero_minus)
  where
    zero_minus : 0 - 0 ≡ 0
    zero_minus = omega arith
take-append (suc n) [] ys = ap (λ k. take k ys) (minus_zero n)
  where
    minus_zero : (n : ℕ) → suc n ≡ suc n - 0
    minus_zero n = omega arith
take-append (suc n) (x ∷ xs) ys =
    ap (◌∷◌ x)
      (take-append n xs ys ∙ ap (λ k. take n xs ++ take k ys) (less n (length (take n xs))))
  where
    less : (a b : ℕ) → a - b ≡ suc a - suc b
    less a b = omega arith

append_nil : (xs : List Text) → xs ++ [] ≡ xs
append_nil [] = refl
append_nil (x ∷ xs) = ap (◌∷◌ x) (append_nil xs)

retain-append :
    (p : Text → Bool) (xs ys : List Text) → retain p (xs ++ ys) ≡ retain p xs ++ retain p ys
retain-append p [] ys = refl
retain-append p (x ∷ xs) ys = elim (Bool-cases (p x)) [
  | inl e ↦ rw e (ap (◌∷◌ x) (retain-append p xs ys))
  | inr e ↦ rw e (retain-append p xs ys)
]

then_old_lem :
    (limit : ℕ) (out rest : List Text)
    → then_old limit out (λ n. take n rest) ≡ out ++ take (limit - length out) rest
then_old_lem limit out rest = elim (Bool-cases (leb limit (length out))) [
  | inl e ↦
      let none_left : limit - length out ≡ 0 = ground arith in
      rw e (sym (ap (λ k. out ++ take k rest) none_left ∙ append_nil out))
  | inr e ↦ rw e refl
]

-- All the lines, the newest first.
abbrev pub newest_first : RotatingLog → List Text
newest_first log = reverse log.current ++ reverse log.old

module _ (seq_of : Text → Option ℕ) (before : Option ℕ) where
  pub page_lem :
      (limit : ℕ) (log : RotatingLog)
      → page seq_of before limit log
        ≡ take limit (retain (eligible seq_of before) (newest_first log))
  unfolding page
  page_lem zero log = refl
  page_lem (suc n) log =
      let p = eligible seq_of before in
      let cur = retain p (reverse log.current) in
      let old = retain p (reverse log.old) in
      ap (λ o. then_old (suc n) o (λ k. walk seq_of before k (reverse log.old)))
        (walk_lem seq_of before (suc n) (reverse log.current))
      ∙ ap (then_old (suc n) (take (suc n) cur))
          (λ i k. walk_lem seq_of before k (reverse log.old) i)
      ∙ then_old_lem (suc n) (take (suc n) cur) old
      ∙ sym (take-append (suc n) cur old)
      ∙ ap (take (suc n)) (sym (retain-append p (reverse log.current) (reverse log.old)))

newest-written :
    (b : Bool) (ts : ℕ) (line : Text) (log : RotatingLog)
    → b ≡ true
    → newest_first (written b ts line log) ≡ line ∷ newest_first log
unfolding written
newest-written true ts line log h =
    ap (λ ls. ls ++ reverse log.old) (reverse-append log.current (line ∷ []))
newest-written false ts line log h = absurd (ground arith)

newest-opened :
    (d : Disk) (ts : ℕ) (line : Text) (log : RotatingLog)
    → d.opens ≡ true
    → d.writes ≡ true
    → newest_first (opened d ts line log) ≡ line ∷ newest_first log
unfolding opened
newest-opened d ts line log o w = elim (Bool-cases log.is_open) [
  | inl e ↦ rw (e, opened) (newest-written d.writes ts line (record log { is_open = true }) w)
  | inr e ↦ rw (e, o, opened) (newest-written d.writes ts line (record log { is_open = false }) w)
]

-- What a rotation keeps of a log.
abbrev pub kept : Bool → RotatingLog → RotatingLog
kept due log = if due then record log { old = [] } else log

newest-rotated :
    (b : Bool) (log : RotatingLog)
    → b ≡ true
    → newest_first (rotated b log) ≡ newest_first (record log { old = [] })
unfolding rotated
newest-rotated true log h = sym (append_nil (reverse log.current))
newest-rotated false log h = absurd (ground arith)

newest-write_line :
    (d : Disk) (ts : ℕ) (line : Text) (log : RotatingLog)
    → d.renames ≡ true
    → d.opens ≡ true
    → d.writes ≡ true
    → newest_first (write_line d ts line log) ≡ line ∷ newest_first (kept (is_due ts log) log)
unfolding write_line
newest-write_line d ts line log r o w = elim (Bool-cases (is_due ts log)) [
  | inl e ↦
      rw (e, write_line)
        (newest-opened d ts line (rotated d.renames log) o w
          ∙ ap (◌∷◌ line) (newest-rotated d.renames log r))
  | inr e ↦ rw (e, write_line) (newest-opened d ts line log o w)
]

-- When the file calls succeed and the written line stands before the cursor, a page of one more
-- line after the write is that line and the page as it was before, from both files, the newest
-- first; when the write rotates, the lines of the file that was old until then are gone.
pub page-write_line :
    (seq_of : Text → Option ℕ) (before : Option ℕ) (n ts : ℕ) (d : Disk) (line : Text)
    (log : RotatingLog)
    → d.renames ≡ true
    → d.opens ≡ true
    → d.writes ≡ true
    → eligible seq_of before line ≡ true
    → page seq_of before (suc n) (write_line d ts line log)
      ≡ line ∷ page seq_of before n (kept (is_due ts log) log)
page-write_line seq_of before n ts d line log r o w h =
    page_lem seq_of before (suc n) (write_line d ts line log)
    ∙ ap (λ ls. take (suc n) (retain (eligible seq_of before) ls))
        (newest-write_line d ts line log r o w)
    ∙ first
    ∙ ap (◌∷◌ line) (sym (page_lem seq_of before n (kept (is_due ts log) log)))
  where
    rest : List Text
    rest = newest_first (kept (is_due ts log) log)

    first :
        take (suc n) (retain (eligible seq_of before) (line ∷ rest))
        ≡ line ∷ take n (retain (eligible seq_of before) rest)
    first = rw h refl
