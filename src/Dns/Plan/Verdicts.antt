-- ===== src/Dns/Plan/Verdicts.antt =====
-- The order of precedence: AAAA, the local records, the filter, the cache.
use ad_block.Base.{
  ◌≡◌, refl, sym, ap, subst, ◌∙◌, ◌⊎◌, inl, inr, true, false, List, [], ◌∷◌, arith, ◌==◌,
  Bool-cases, In, In-map, In-retain,
}
use ad_block.Dns.Cache.{key_of}
use ad_block.Dns.Message.{Query, query_code}
use ad_block.Dns.Plan.{
  Decision, Verdict, nodata, rewrite, blocked, resolve, answer, aaaa, canonical, filtered,
  verdict_of, plan_queries, plan_query,
}
use ad_block.Dns.Rewrites.{Rewrite, RewriteAnswer, RewriteStore, live, answers_of, matching}
use ad_block.Dns.Rewrites.Match.{Applies, IsBest, matching_best}
use ad_block.Text.{Text}
use ad_block.Text.Laws.{text_eq_refl}

-- The record that applies answers itself.
answers_of-In :
    (s : RewriteStore) (d : Text) (r : Rewrite)
    → Applies s d r
    → In r.answer (answers_of s.entries r.domain)
unfolding answers_of
answers_of-In s d r (i, on, _) =
    In-map (λ q. q.answer) _ r
      (In-retain _ (live s.entries) r (In-retain _ s.entries r i on) (text_eq_refl r.domain))

module _ (check_dns : Text → Decision) (s : RewriteStore) (q : Query) where
  abbrev pub Unfiltered : Text → Verdict → Type 0
  Unfiltered d v =
      (((check_dns d).blocked ≡ true) × (v ≡ blocked (check_dns d).attribution))
      ⊎ (((check_dns d).blocked ≡ false)
          × (v ≡ resolve (key_of q.name_ascii q.query_type q.query_class)))

  abbrev pub Decided : Text → Verdict → Type 0
  Decided d v =
      ((q.query_type ≡ aaaa) × (v ≡ nodata))
      ⊎ ((q.query_type == aaaa ≡ false)
          × (((best : Rewrite) × IsBest s d best × (v ≡ rewrite (answers_of s.entries best.domain)))
              ⊎ (((r : Rewrite) → ¬ Applies s d r) × Unfiltered d v)))

  filtered_cases : (d : Text) → Unfiltered d (filtered check_dns s q d)
  unfolding filtered
  filtered_cases d = elim (Bool-cases (check_dns d).blocked) [
    | inl b ↦ inl (b, rw b)
    | inr b ↦ inr (b, rw b)
  ]

  pick : Text → List RewriteAnswer → Verdict
  pick d answers = elim answers [ [] ↦ filtered check_dns s q d | r ∷ rs ↦ rewrite (r ∷ rs) ]

  pick_some :
      (d : Text) (answers : List RewriteAnswer) (a : RewriteAnswer)
      → In a answers
      → pick d answers ≡ rewrite answers
  unfolding pick
  pick_some d [] a i = absurd i
  pick_some d (b ∷ answers) a i = refl

  verdict_of_cases : (d : Text) → Decided d (verdict_of check_dns s q d)
  unfolding verdict_of pick
  verdict_of_cases d = elim (Bool-cases (q.query_type == aaaa)) [
    | inl e ↦ inl (ground arith, rw e)
    | inr e ↦ inr (
      e,
      (elim (matching_best s d) [
        | inl (nobody, none_left) ↦ inr (
          nobody,
          subst (Unfiltered d) (sym (first e ∙ ap (pick d) none_left)) (filtered_cases d),
        )
        | inr (best, is_best, found) ↦ inl (
          best,
          is_best,
          first e
              ∙ ap (pick d) found
              ∙ pick_some d (answers_of s.entries best.domain) best.answer
                  (answers_of-In s d best is_best.0),
        )
      ]),
    )
  ]
    where
      first : q.query_type == aaaa ≡ false → verdict_of check_dns s q d ≡ pick d (matching s d)
      first e = rw e

  -- A request that is a query and has a question is answered for the canonical domain of the first
  -- one, with one of these verdicts: it asks for AAAA, and the answer is empty; or it does not and
  -- some enabled record that covers the domain ranks at least as high as every such record, and the
  -- answers of its domain are given; or it does not, no enabled record covers the domain, and the
  -- filter blocks it, which is attributed; or else it is resolved under the cache key of the
  -- question.
  pub plan_query_cases :
      (qs : List Query)
      → (v : Verdict) × (plan_query check_dns s (record { op_code = query_code; queries = q ∷ qs })
          ≡ answer q (canonical q) v)
        × Decided (canonical q) v
  unfolding plan_query plan_queries
  plan_query_cases qs =
      (verdict_of check_dns s q (canonical q), refl, verdict_of_cases (canonical q))
