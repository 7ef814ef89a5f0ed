-- ===== src/Dns/Rewrites/Single.antt =====
-- In an exclusive store a CNAME answer stands alone.
use ad_block.Base.{
  ◌≡◌, refl, sym, ap, ◌∙◌, inl, inr, true, false, ◌&&◌, List, [], ◌∷◌, arith, if◌then◌else◌,
  Bool-cases, All, In,
}
use ad_block.Dns.Rewrites.{Rewrite, cname, RewriteStore, is_cname, answer_eq, answers_of, matching}
use ad_block.Dns.Rewrites.Match.{matching_best}
use ad_block.Text.{Text, text_eq}
use ad_block.Text.Laws.{eq_of_text_eq, text_eq_of_eq}
use ad_block.Dns.Rewrites.Exclusive.{Compat, Exclusive}

-- One record, in the answers for a domain.
answers_of-cons :
    (r : Rewrite) (rs : List Rewrite) (best : Text)
    → answers_of (r ∷ rs) best ≡ (
        if r.enabled && text_eq r.domain best
        then r.answer ∷ answers_of rs best
        else answers_of rs best)
unfolding answers_of
answers_of-cons r rs best = elim (Bool-cases r.enabled) [
  | inl on ↦ elim (Bool-cases (text_eq r.domain best)) [
    | inl same ↦ rw (on, same)
    | inr other ↦ rw (on, other)
  ]
  | inr off ↦ rw off
]

Compat-answer :
    (r q : Rewrite) (best : Text)
    → Compat r q
    → text_eq r.domain best ≡ true
    → text_eq q.domain best ≡ true
    → (is_cname r.answer ≡ false)
      × (is_cname q.answer ≡ false)
      × (answer_eq r.answer q.answer ≡ false)
Compat-answer r q best h e f = h (
    text_eq_of_eq r.domain q.domain
      (eq_of_text_eq r.domain best e ∙ sym (eq_of_text_eq q.domain best f)))

alone :
    (r : Rewrite) (rs : List Rewrite) (best : Text)
    → All (Compat r) rs
    → text_eq r.domain best ≡ true
    → is_cname r.answer ≡ true
    → answers_of rs best ≡ []
alone r [] best h e c = unfold answers_of in refl
alone r (q ∷ rs) best h e c =
    rw (answers_of-cons q rs best)
      (ground (arith, Compat-answer r q best h.0 e, alone r rs best h.1 e c))

no_cname_behind :
    (r : Rewrite) (rs : List Rewrite) (best t : Text)
    → All (Compat r) rs
    → text_eq r.domain best ≡ true
    → ¬ In (cname t) (answers_of rs best)
no_cname_behind r [] best t h e i = unfold answers_of in i
no_cname_behind r (q ∷ rs) best t h e i = elim (Bool-cases (q.enabled && text_eq q.domain best)) [
  | inl c ↦ elim (rw (answers_of-cons q rs best, c) at i) [
    | inl k ↦ ground (arith, Compat-answer r q best h.0 e, ap is_cname k)
    | inr j ↦ no_cname_behind r rs best t h.1 e j
  ]
  | inr c ↦ no_cname_behind r rs best t h.1 e (rw (answers_of-cons q rs best, c) at i)
]

-- In such a store a CNAME among the answers for a domain is the only one.
answers_of_single :
    (rs : List Rewrite) (best t : Text)
    → Exclusive rs
    → In (cname t) (answers_of rs best)
    → answers_of rs best ≡ cname t ∷ []
answers_of_single [] best t x i = absurd (unfold answers_of in i)
answers_of_single (r ∷ rs) best t x i = elim (Bool-cases (r.enabled && text_eq r.domain best)) [
  | inl c ↦ elim (rw (answers_of-cons r rs best, c) at i) [
    | inl k ↦
        rw (answers_of-cons r rs best, c, ← k)
          (ap (◌∷◌ (cname t)) (alone r rs best x.0 (ground arith) (ground (arith, ap is_cname k))))
    | inr j ↦ absurd (no_cname_behind r rs best t x.0 (ground arith) j)
  ]
  | inr c ↦
      rw (answers_of-cons r rs best, c)
        (answers_of_single rs best t x.1 (rw (answers_of-cons r rs best, c) at i))
]

-- In a store where no record is there twice and no CNAME shares its domain with another record, if
-- a name is answered with a CNAME then that CNAME is the only answer.
pub matching_cname :
    (s : RewriteStore) (domain t : Text)
    → Exclusive s.entries
    → In (cname t) (matching s domain)
    → matching s domain ≡ cname t ∷ []
matching_cname s domain t x i = elim (matching_best s domain) [
  | inl (_, e) ↦ absurd (rw e at i)
  | inr (best, _, e) ↦ e ∙ answers_of_single s.entries best.domain t x (rw e at i)
]
