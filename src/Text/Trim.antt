-- ===== src/Text/Trim.antt =====
-- Trimming twice is trimming once.
use ad_block.Base.{
  arith, sym, ℕ, ◌≡◌, refl, ap, ◌∙◌, ◌⊎◌, inl, inr, Bool, false, ◌&&◌, [], ◌∷◌, Bool-cases,
  is_empty,
}
use ad_block.Text.{Text, trim_start_matches, trim_end_matches, trim_matches}

module _ (p : ℕ → Bool) where
  trim_end_matches_idem :
      (s : Text) → trim_end_matches p (trim_end_matches p s) ≡ trim_end_matches p s
  unfolding trim_end_matches
  trim_end_matches_idem [] = refl
  trim_end_matches_idem (c ∷ s) = elim (Bool-cases (is_empty (trim_end_matches p s) && p c)) [
    | inl e ↦ rw e refl
    | inr e ↦ rw e (rw (trim_end_matches_idem s) (rw e))
  ]

  trim_start_cases :
      (s : Text)
      → (trim_start_matches p s ≡ [])
        ⊎ ((c : ℕ) × (t : Text) × (trim_start_matches p s ≡ c ∷ t) × (p c ≡ false))
  unfolding trim_start_matches
  trim_start_cases [] = inl refl
  trim_start_cases (c ∷ s) = elim (Bool-cases (p c)) [
    | inl e ↦ rw e (trim_start_cases s)
    | inr e ↦ inr (c, s, rw e, e)
  ]

  kept_start :
      (c : ℕ) (t : Text)
      → p c ≡ false
      → trim_start_matches p (trim_end_matches p (c ∷ t)) ≡ trim_end_matches p (c ∷ t)
  unfolding trim_start_matches trim_end_matches
  kept_start c t h = elim (Bool-cases (is_empty (trim_end_matches p t) && p c)) [
    | inl e ↦ rw e
    | inr e ↦ rw e (rw h)
  ]

  pub trim_matches_idem : (s : Text) → trim_matches p (trim_matches p s) ≡ trim_matches p s
  unfolding trim_matches
  trim_matches_idem s = elim (trim_start_cases s) [
    | inl e ↦ rw e (unfold trim_start_matches trim_end_matches in refl)
    | inr (c, t, e, h) ↦
        rw e (ap (trim_end_matches p) (kept_start c t h) ∙ trim_end_matches_idem (c ∷ t))
  ]

  -- A trimmed text does not begin with what is trimmed, and has nothing to trim at its end.
  pub trim_matches_start : (s t : Text) (c : ℕ) → trim_matches p s ≡ c ∷ t → p c ≡ false
  unfolding trim_matches trim_end_matches
  trim_matches_start s t c h = elim (trim_start_cases s) [
    | inl e ↦ absurd (cc (ap (trim_end_matches p) e, h))
    | inr (d, u, e, k) ↦ go d u k (sym (ap (trim_end_matches p) e) ∙ h)
  ]
    where
      go : (d : ℕ) (u : Text) → p d ≡ false → trim_end_matches p (d ∷ u) ≡ c ∷ t → p c ≡ false
      go d u k e = elim (Bool-cases (is_empty (trim_end_matches p u) && p d)) [
        | inl b ↦ absurd (ground arith)
        | inr b ↦ ground (arith, rw b at e)
      ]

  pub trim_matches_end : (s : Text) → trim_matches p s ≡ s → trim_end_matches p s ≡ s
  unfolding trim_matches
  trim_matches_end s h =
      ap (trim_end_matches p) (sym h) ∙ trim_end_matches_idem (trim_start_matches p s) ∙ h

  pub trim_end_matches_cons :
      (c : ℕ) (s : Text) → p c ≡ false → trim_end_matches p (c ∷ s) ≡ c ∷ trim_end_matches p s
  unfolding trim_end_matches
  trim_end_matches_cons c s h = ground arith
