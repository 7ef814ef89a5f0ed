-- ===== src/Dns/Rewrites/Patterns.antt =====
-- What a pattern covers, and how patterns are ranked.
use mathlib.Core.List.{append_assoc}
use ad_block.Base.{
  ℕ, ◌≡◌, sym, ap, ◌∙◌, ◌⊎◌, inl, inr, Bool, true, false, ◌||◌, [], ◌∷◌, ◌++◌, none, some, arith,
  Bool-cases, Option-cases,
}
use ad_block.Dns.Rewrites.{star_dot, pattern_matches, pattern_specificity, specificity_le}
use ad_block.Text.{Text, text_eq, strip_prefix, ends_with, byte_len}
use ad_block.Text.Laws.{eq_of_text_eq, append_of_strip_prefix}
use ad_block.Text.Suffix.{append_of_ends_with, byte_len-append, suffix_unique}

-- An exact pattern covers its own name; a wildcard covers names that end in its host.
abbrev pub Covers : Text → Text → Type 0
Covers pattern domain =
    ((strip_prefix star_dot pattern ≡ none) × (domain ≡ pattern))
    ⊎ ((suffix : Text) × (front : Text) × (strip_prefix star_dot pattern ≡ some suffix)
        × (domain ≡ front ++ suffix))

pub Covers-of_pattern_matches : (p d : Text) → pattern_matches p d ≡ true → Covers p d
unfolding pattern_matches
Covers-of_pattern_matches p d h = elim (Option-cases (strip_prefix star_dot p)) [
  | inl e ↦ inl (e, eq_of_text_eq d p (rw (e, pattern_matches) at h))
  | inr (suffix, e) ↦
      let k : (text_eq d suffix || ends_with (b'.' ∷ suffix) d) ≡ true =
        rw (e, pattern_matches) at h in
      elim (Bool-cases (text_eq d suffix)) [
        | inl same ↦ inr (suffix, [], e, eq_of_text_eq d suffix same)
        | inr other ↦
            let (front, eq) = append_of_ends_with (b'.' ∷ suffix) d (ground arith) in
            inr (suffix, front ++ (b'.' ∷ []), e, eq ∙ sym (append_assoc front (b'.' ∷ []) suffix))
      ]
]

-- Two patterns that cover the same name and have the same rank are the same pattern.
pub specificity_injective :
    (p q d : Text)
    → pattern_matches p d ≡ true
    → pattern_matches q d ≡ true
    → pattern_specificity p ≡ pattern_specificity q
    → p ≡ q
unfolding pattern_specificity
specificity_injective p q d hp hq e = elim (Covers-of_pattern_matches p d hp) [
  | inl (np, dp) ↦ elim (Covers-of_pattern_matches q d hq) [
    | inl (nq, dq) ↦ sym dp ∙ dq
    | inr (t, g, sq, dq) ↦ absurd (ground arith)
  ]
  | inr (s, f, sp, dp) ↦ elim (Covers-of_pattern_matches q d hq) [
    | inl (nq, dq) ↦ absurd (ground arith)
    | inr (t, g, sq, dq) ↦
        let ps = append_of_strip_prefix star_dot p s sp in
        let qs = append_of_strip_prefix star_dot q t sq in
        ps
        ∙ ap (◌++◌ star_dot) (
            suffix_unique f g s t (sym dp ∙ dq) (
              omega (
                arith,
                ap (λ k. k.1) e,
                ap byte_len ps,
                ap byte_len qs,
                byte_len-append star_dot s,
                byte_len-append star_dot t,
              )))
        ∙ sym qs
  ]
]

pub specificity_le_refl : (k : Bool × ℕ) → specificity_le k k ≡ true
unfolding specificity_le
specificity_le_refl (true, n) = ground arith
specificity_le_refl (false, n) = ground arith

pub specificity_le_trans :
    (i j k : Bool × ℕ)
    → specificity_le i j ≡ true
    → specificity_le j k ≡ true
    → specificity_le i k ≡ true
unfolding specificity_le
specificity_le_trans (a, l) (b, m) (c, n) h k = ground arith

pub specificity_le-total : (i j : Bool × ℕ) → specificity_le i j ≡ false → specificity_le j i ≡ true
unfolding specificity_le
specificity_le-total (a, l) (b, m) h = ground arith

pub specificity_le_antisymm :
    (i j : Bool × ℕ) → specificity_le i j ≡ true → specificity_le j i ≡ true → i ≡ j
unfolding specificity_le
specificity_le_antisymm (a, l) (b, m) h k = ground arith
