-- ===== src/Dns/Rewrites/Match.antt =====
-- `RewriteStore::matching`: which records answer a name.
use ad_block.Base.{
  ◌≡◌, refl, ap, subst, ◌∙◌, ◌⊎◌, inl, inr, Bool, true, false, List, [], ◌∷◌, none, some,
  if◌then◌else◌, In, In-map, In-of_In-map, In-retain, In-of_In-retain,
}
use ad_block.Dns.Rewrites.{
  Rewrite, RewriteStore, RewriteAnswer, live, candidates, answers_of, matching, max_from,
  max_by_specificity, pattern_matches, pattern_specificity, specificity_le,
}
use ad_block.Dns.Rewrites.Patterns.{
  specificity_le_refl, specificity_le_trans, specificity_le-total, specificity_injective,
  specificity_le_antisymm,
}
use ad_block.Text.{Text}

abbrev pub Le : Text → Text → Type 0
Le p q = specificity_le (pattern_specificity p) (pattern_specificity q) ≡ true

abbrev better : Bool → Text → Text → Text
better b p best = if b then p else best

max_from-In_step :
    (best p : Text) (ps : List Text) (b : Bool)
    → ((x : Text) → In (max_from x ps) (x ∷ ps))
    → In (max_from (better b p best) ps) (best ∷ p ∷ ps)
max_from-In_step best p ps true h = inr (h p)
max_from-In_step best p ps false h = elim (h best) [ inl k ↦ inl k | inr k ↦ inr (inr k) ]

max_from-In : (best : Text) (ps : List Text) → In (max_from best ps) (best ∷ ps)
unfolding max_from
max_from-In best [] = inl refl
max_from-In best (p ∷ ps) = max_from-In_step best p ps _ (λ x. max_from-In x ps)

abbrev AboveAll : Text → List Text → Type 0
AboveAll m ps = (q : Text) → In q ps → Le q m

le-max_from_step :
    (best p : Text) (ps : List Text) (b : Bool)
    → specificity_le (pattern_specificity best) (pattern_specificity p) ≡ b
    → ((x : Text) → AboveAll (max_from x ps) (x ∷ ps))
    → AboveAll (max_from (better b p best) ps) (best ∷ p ∷ ps)
le-max_from_step best p ps true e h q (inl k) =
    specificity_le_trans _ (pattern_specificity p) _ (rw k e) (h p p (inl refl))
le-max_from_step best p ps true e h q (inr i) = h p q i
le-max_from_step best p ps false e h q (inl k) = h best q (inl k)
le-max_from_step best p ps false e h q (inr (inl k)) =
    specificity_le_trans _ (pattern_specificity best) _
      (rw k (specificity_le-total (pattern_specificity best) _ e)) (h best best (inl refl))
le-max_from_step best p ps false e h q (inr (inr i)) = h best q (inr i)

le-max_from : (best : Text) (ps : List Text) → AboveAll (max_from best ps) (best ∷ ps)
unfolding max_from
le-max_from best [] q (inl e) = rw e (specificity_le_refl _)
le-max_from best [] q (inr i) = absurd i
le-max_from best (p ∷ ps) q i = le-max_from_step best p ps _ refl (λ x. le-max_from x ps) q i

-- A record answers for a name if it is enabled and its pattern covers the name.
abbrev pub Applies : RewriteStore → Text → Rewrite → Type 0
Applies s domain r = In r s.entries × (r.enabled ≡ true) × (pattern_matches r.domain domain ≡ true)

candidates-In :
    (s : RewriteStore) (d : Text) (r : Rewrite)
    → Applies s d r
    → In r.domain (candidates s.entries d)
unfolding candidates
candidates-In s d r (i, e, m) =
    In-map (λ q. q.domain) _ r (In-retain _ (live s.entries) r (In-retain _ s.entries r i e) m)

Applies-of_candidates :
    (s : RewriteStore) (d p : Text)
    → In p (candidates s.entries d)
    → (r : Rewrite) × Applies s d r × (p ≡ r.domain)
unfolding candidates
Applies-of_candidates s d p i =
    let (r, j, e) = In-of_In-map (λ q. q.domain) _ p i in
    let (k, m) = In-of_In-retain _ (live s.entries) r j in
    let (l, on) = In-of_In-retain _ s.entries r k in (r, (l, on, m), e)

abbrev pub IsBest : RewriteStore → Text → Rewrite → Type 0
IsBest s d best = Applies s d best × ((r : Rewrite) → Applies s d r → Le r.domain best.domain)

abbrev pub Outcome : RewriteStore → Text → List RewriteAnswer → Type 0
Outcome s d answers =
    (((r : Rewrite) → ¬ Applies s d r) × (answers ≡ []))
    ⊎ ((best : Rewrite) × IsBest s d best × (answers ≡ answers_of s.entries best.domain))

IsBest-of_candidates :
    (s : RewriteStore) (d p : Text) (ps : List Text)
    → candidates s.entries d ≡ p ∷ ps
    → (best : Rewrite) × IsBest s d best × (max_from p ps ≡ best.domain)
IsBest-of_candidates s d p ps e =
    let m = max_from p ps in
    let (best, applies, eq) = Applies-of_candidates s d m (rw e (max_from-In p ps)) in
    (
      best,
      (
        applies,
        λ r a.
            rw (← eq) (le-max_from p ps r.domain (subst (In r.domain) e (candidates-In s d r a))),
      ),
      eq,
    )

Outcome-of_candidates :
    (s : RewriteStore) (d : Text) (ps : List Text)
    → candidates s.entries d ≡ ps
    → Outcome s d (elim (max_by_specificity ps) [ none ↦ [] | some b ↦ answers_of s.entries b ])
unfolding max_by_specificity
Outcome-of_candidates s d [] e = inl (λ r a. rw e at (candidates-In s d r a), refl)
Outcome-of_candidates s d (p ∷ ps) e =
    let (best, is_best, eq) = IsBest-of_candidates s d p ps e in
    inr (best, is_best, ap (answers_of s.entries) eq)

-- Either no enabled record covers the name and matching answers nothing, or some enabled record
-- that covers the name ranks at least as high as every such record and matching answers with the
-- answers of the enabled records of its domain.
pub matching_best : (s : RewriteStore) (d : Text) → Outcome s d (matching s d)
unfolding matching
matching_best s d = Outcome-of_candidates s d (candidates s.entries d) refl

-- If a record is enabled, covers the name, and ranks at least as high as every enabled record that
-- covers it, then matching answers with the answers of the enabled records of that record's domain.
pub matching_of_best :
    (s : RewriteStore) (d : Text) (best : Rewrite)
    → IsBest s d best
    → matching s d ≡ answers_of s.entries best.domain
matching_of_best s d best b = elim (matching_best s d) [
  | inl (nobody, _) ↦ absurd (nobody best b.0)
  | inr (other, o, eq) ↦
      eq
      ∙ ap (answers_of s.entries) (
          specificity_injective other.domain best.domain d o.0.2 b.0.2
            (specificity_le_antisymm _ _ (b.1 other o.0) (o.1 best b.0)))
]
