-- ===== src/Text/Laws.antt =====
-- Equality, prefixes, splits and trimming of texts.
use ad_block.Base.{
  ℕ, ◌≡◌, refl, ◌↔◌, Bool, true, false, [], ◌∷◌, ◌++◌, none, some, arith, ==_refl, is_empty, any,
}
use ad_block.Text.{
  Text, text_eq, trim_start_matches, trim_end_matches, trim_matches, strip_prefix, split_once,
  rsplit_once, is_char, before,
}

pub text_eq_refl : (s : Text) → text_eq s s ≡ true
unfolding text_eq
text_eq_refl [] = refl
text_eq_refl (c ∷ s) = rw (==_refl c) (text_eq_refl s)

pub eq_of_text_eq : (s t : Text) → text_eq s t ≡ true → s ≡ t
unfolding text_eq
eq_of_text_eq [] [] h = refl
eq_of_text_eq [] (d ∷ t) h = cc
eq_of_text_eq (c ∷ s) [] h = cc
eq_of_text_eq (c ∷ s) (d ∷ t) h = ground (arith, eq_of_text_eq s t)

pub text_eq_of_eq : (s t : Text) → s ≡ t → text_eq s t ≡ true
text_eq_of_eq s t h = rw h (text_eq_refl t)

-- The test decides equality.
pub text_eq_iff : (s t : Text) → (text_eq s t ≡ true) ↔ (s ≡ t)
text_eq_iff s t = (eq_of_text_eq s t, text_eq_of_eq s t)

pub text_eq_comm : (s t : Text) → text_eq s t ≡ text_eq t s
unfolding text_eq
text_eq_comm [] [] = refl
text_eq_comm [] (d ∷ t) = refl
text_eq_comm (c ∷ s) [] = refl
text_eq_comm (c ∷ s) (d ∷ t) = ground (arith, text_eq_comm s t)

pub strip_prefix-append : (p s : Text) → strip_prefix p (p ++ s) ≡ some s
unfolding strip_prefix
strip_prefix-append [] s = refl
strip_prefix-append (c ∷ p) s = rw (==_refl c) (strip_prefix-append p s)

pub append_of_strip_prefix : (p s r : Text) → strip_prefix p s ≡ some r → s ≡ p ++ r
unfolding strip_prefix
append_of_strip_prefix [] s r h = ground arith
append_of_strip_prefix (c ∷ p) [] r h = cc
append_of_strip_prefix (c ∷ p) (d ∷ s) r h = ground (arith, append_of_strip_prefix p s r)

module _ (p : ℕ → Bool) where
  pub trim_start_matches_none : (s : Text) → any p s ≡ false → trim_start_matches p s ≡ s
  unfolding trim_start_matches
  trim_start_matches_none [] h = refl
  trim_start_matches_none (c ∷ s) h = ground arith

  pub trim_end_matches_none : (s : Text) → any p s ≡ false → trim_end_matches p s ≡ s
  unfolding trim_end_matches
  trim_end_matches_none [] h = refl
  trim_end_matches_none (c ∷ s) h = ground (arith, trim_end_matches_none s)

  pub trim_matches_none : (s : Text) → any p s ≡ false → trim_matches p s ≡ s
  unfolding trim_matches
  trim_matches_none s h = rw (trim_start_matches_none s h) (trim_end_matches_none s h)

  -- What is left by `trim_end_matches` after a text that keeps its last character.
  pub trim_end_matches-append :
      (s t : Text) → is_empty t ≡ false → any p t ≡ false → trim_end_matches p (s ++ t) ≡ s ++ t
  unfolding trim_end_matches
  trim_end_matches-append [] t e h = trim_end_matches_none t h
  trim_end_matches-append (c ∷ s) t e h =
      rw (trim_end_matches-append s t e h) (ground (arith, nonempty s t e))
    where
      nonempty : (u v : Text) → is_empty v ≡ false → is_empty (u ++ v) ≡ false
      nonempty [] v k = k
      nonempty (x ∷ u) v k = refl

  pub any-append : (s t : Text) → any p s ≡ false → any p t ≡ false → any p (s ++ t) ≡ false
  any-append [] t h k = k
  any-append (c ∷ s) t h k = ground (arith, any-append s t)

  pub any-trim_start_matches :
      (q : ℕ → Bool) (s : Text) → any q s ≡ false → any q (trim_start_matches p s) ≡ false
  unfolding trim_start_matches
  any-trim_start_matches q [] h = refl
  any-trim_start_matches q (c ∷ s) h = ground (arith, any-trim_start_matches q s)

  pub any-trim_end_matches :
      (q : ℕ → Bool) (s : Text) → any q s ≡ false → any q (trim_end_matches p s) ≡ false
  unfolding trim_end_matches
  any-trim_end_matches q [] h = refl
  any-trim_end_matches q (c ∷ s) h = ground (arith, any-trim_end_matches q s)

  -- A text with none of the characters before the first one that is accepted.
  pub split_once-append :
      (s t : Text) (c : ℕ) → any p s ≡ false → p c ≡ true → split_once p (s ++ c ∷ t) ≡ some (s, t)
  unfolding split_once
  split_once-append [] t c h k = rw k
  split_once-append (d ∷ s) t c h k = ground (arith, split_once-append s t c)

  pub before_none : (s : Text) → any p s ≡ false → before p s ≡ s
  unfolding before
  before_none [] h = refl
  before_none (c ∷ s) h = ground (arith, before_none s)

module _ (p : ℕ → Bool) where
  pub rsplit_once-none : (s : Text) → any p s ≡ false → rsplit_once p s ≡ none
  unfolding rsplit_once
  rsplit_once-none [] h = refl
  rsplit_once-none (c ∷ s) h = rw (rsplit_once-none s (ground arith)) (ground arith)

  pub rsplit_once-append :
      (s : Text) (c : ℕ) (t : Text)
      → p c ≡ true
      → any p t ≡ false
      → rsplit_once p (s ++ (c ∷ t)) ≡ some (s, t)
  unfolding rsplit_once
  rsplit_once-append [] c t h k = rw (rsplit_once-none t k) (rw h)
  rsplit_once-append (d ∷ s) c t h k = rw (rsplit_once-append s c t h k)

pub strip_prefix-none :
    (c : ℕ) (s : Text) → any (is_char c) s ≡ false → strip_prefix (c ∷ []) s ≡ none
unfolding strip_prefix
strip_prefix-none c [] h = refl
strip_prefix-none c (d ∷ s) h = ground arith
