-- ===== src/Text/Pieces.antt =====
-- More functions of `str`: splits at a text, and all the pieces of a split.
use ad_block.Base.{ℕ, Bool, List, [], ◌∷◌, Option, none, some, if◌then◌else◌}
use ad_block.Text.{Text, is_whitespace, strip_prefix, trim_end_matches}

unfoldable pub trim_end : Text → Text
trim_end = trim_end_matches is_whitespace

-- `split_once` at a text: what stands before and after its first occurrence.
unfoldable pub split_once_at : Text → Text → Option (Text × Text)
split_once_at p [] = elim (strip_prefix p []) [ none ↦ none | some r ↦ some ([], r) ]
split_once_at p (c ∷ s) =
    let rest = split_once_at p s in
    elim (strip_prefix p (c ∷ s)) [
      | some r ↦ some ([], r)
      | none ↦ elim rest [ none ↦ none | some (a, b) ↦ some (c ∷ a, b) ]
    ]

unfoldable pub push_first : ℕ → List Text → List Text
push_first c [] = (c ∷ []) ∷ []
push_first c (l ∷ ls) = (c ∷ l) ∷ ls

-- `split(p)`: the pieces between the characters that the pattern accepts.
unfoldable pub split : (ℕ → Bool) → Text → List Text
unfolding push_first
split p [] = [] ∷ []
split p (c ∷ s) = let rest = split p s in if p c then [] ∷ rest else push_first c rest
