-- ===== src/Dns/Upstream/Answers.antt =====
-- What `Resolver::resolve` returns and keeps, whichever order it asks in.
use ad_block.Base.{
  ℕ, zero, suc, ◌*◌, ◌<◌, ◌≡◌, refl, ap, ◌∙◌, ◌⊎◌, inl, inr, Bool, true, false, List, [], ◌∷◌, ◌++◌,
  some, arith, ltb, Bool-cases, length, get_elem?, any, All, Result, ok, err,
}
use ad_block.Dns.Message.{Message}
use ad_block.Dns.Settings.{UpstreamMode, failover, load_balance, parallel}
use ad_block.Dns.Upstream.Health.{record_rtt}
use ad_block.Dns.Upstream.Resolver.{
  Upstream, Resolver, with_stats, Attempt, ResolveError, judge, update_at, note, note_failure,
  label_of, label_at, resolve_sequential, resolve_parallel, resolve_active, nothing_asked,
  failover_order, load_balanced_order,
}
use ad_block.Text.{Text}

abbrev pub is_ok : {E A : Type 0} → Result E A → Bool
is_ok (ok a) = true
is_ok (err e) = false

-- A server answers a query.
abbrev pub answers : (ℕ → Attempt) → ℕ → ℕ → Bool
answers net id i = is_ok (judge id i (net i))

-- What is kept when servers fail, one after the other.
unfoldable pub failures : List ℕ → Resolver → Resolver
failures [] r = r
failures (i ∷ is) r = failures is (note_failure i r)

update_at-label :
    (j i : ℕ) (f : Upstream → Upstream) (us : List Upstream)
    → ((u : Upstream) → label_of (some (f u)) ≡ label_of (some u))
    → label_of (get_elem? (update_at j f us) i) ≡ label_of (get_elem? us i)
unfolding update_at
update_at-label j i f [] h = refl
update_at-label zero zero f (u ∷ us) h = h u
update_at-label zero (suc i) f (u ∷ us) h = refl
update_at-label (suc j) zero f (u ∷ us) h = refl
update_at-label (suc j) (suc i) f (u ∷ us) h = update_at-label j i f us h

label_at-failures : (is : List ℕ) (r : Resolver) (i : ℕ) → label_at (failures is r) i ≡ label_at r i
unfolding failures note_failure note label_at with_stats
label_at-failures [] r i = refl
label_at-failures (j ∷ is) r i =
    label_at-failures is (note_failure j r) i
    ∙ update_at-label j i (λ u. with_stats u (record_rtt (r.timeout_ms * 1000 * 2) true u.stats))
        r.upstreams (λ u. refl)

err-of_is_ok : {E A : Type 0} (o : Result E A) → is_ok o ≡ false → (e : E) × (o ≡ err e)
err-of_is_ok (ok a) h = absurd (ground arith)
err-of_is_ok (err e) h = (e, refl)

pub Result-cases :
    {E A : Type 0} (o : Result E A) → ((a : A) × (o ≡ ok a)) ⊎ ((e : E) × (o ≡ err e))
Result-cases (ok a) = inl (a, refl)
Result-cases (err e) = inr (e, refl)

mode-cases : (m : UpstreamMode) → (m ≡ failover) ⊎ ((m ≡ load_balance) ⊎ (m ≡ parallel))
mode-cases failover = inl refl
mode-cases load_balance = inr (inl refl)
mode-cases parallel = inr (inr refl)

module _ (net : ℕ → Attempt) (id : ℕ) where
  -- If the first server in the order that answers the query of the id is a given one, then
  -- resolve_sequential returns its reply with its label, makes it the preferred one, counts its
  -- round trip, and has counted a failure for each server before it and nothing for those behind
  -- it.
  pub resolve_sequential-append :
      (before after : List ℕ) (i micros : ℕ) (m : Message) (last : ResolveError) (r : Resolver)
      → All (λ j. answers net id j ≡ false) before
      → judge id i (net i) ≡ ok (m, micros)
      → resolve_sequential net id (before ++ i ∷ after) last r
        ≡ (ok (m, label_at r i), record (note i micros false (failures before r)) { preferred = i })
  unfolding resolve_sequential failures
  resolve_sequential-append [] after i micros m last r h e = rw (e, resolve_sequential) refl
  resolve_sequential-append (j ∷ before) after i micros m last r h e =
      let (x, k) = err-of_is_ok (judge id j (net j)) h.0 in
      rw (k, resolve_sequential)
        (resolve_sequential-append before after i micros m x (note_failure j r) h.1 e
          ∙ ap
              (λ t. (
                ok (m, t),
                record (note i micros false (failures before (note_failure j r))) { preferred = i },
              ))
              (label_at-failures (j ∷ []) r i))

  -- When all are asked at once, the first one that comes back with an answer gives the result.
  pub resolve_parallel-append :
      (before after : List ℕ) (i micros : ℕ) (m : Message) (last : ResolveError) (r : Resolver)
      → All (λ j. answers net id j ≡ false) before
      → judge id i (net i) ≡ ok (m, micros)
      → resolve_parallel net id (before ++ i ∷ after) last r
        ≡ (ok (m, label_at r i), note i micros false (failures before r))
  unfolding resolve_parallel failures
  resolve_parallel-append [] after i micros m last r h e = rw (e, resolve_parallel) refl
  resolve_parallel-append (j ∷ before) after i micros m last r h e =
      let (x, k) = err-of_is_ok (judge id j (net j)) h.0 in
      rw (k, resolve_parallel)
        (resolve_parallel-append before after i micros m x (note_failure j r) h.1 e
          ∙ ap (λ t. (ok (m, t), note i micros false (failures before (note_failure j r))))
              (label_at-failures (j ∷ []) r i))

  -- An order in which some server answers has a first one.
  abbrev Answered : List ℕ → Type 0
  Answered is =
      (before : List ℕ) × (i : ℕ) × (after : List ℕ) × (m : Message) × (micros : ℕ) × (is
        ≡ before ++ i ∷ after)
      × All (λ j. answers net id j ≡ false) before
      × (judge id i (net i) ≡ ok (m, micros))

  answered : (is : List ℕ) → any (answers net id) is ≡ true → Answered is
  answered [] h = absurd (ground arith)
  answered (i ∷ is) h = elim (Result-cases (judge id i (net i))) [
    | inl (a, e) ↦ ([], i, is, a.0, a.1, refl, tt, e)
    | inr (x, e) ↦
        let (before, j, after, m, micros, p, q, k) = answered is (rw e at h) in
        (i ∷ before, j, after, m, micros, ap (◌∷◌ i) p, (rw e refl, q), k)
  ]

  pub resolve_sequential-ok :
      (is : List ℕ) (last : ResolveError) (r : Resolver)
      → any (answers net id) is ≡ true
      → is_ok (resolve_sequential net id is last r).0 ≡ true
  resolve_sequential-ok is last r h =
      let (before, i, after, m, micros, p, q, e) = answered is h in
      rw (p, resolve_sequential-append before after i micros m last r q e) refl

  pub resolve_parallel-ok :
      (is : List ℕ) (last : ResolveError) (r : Resolver)
      → any (answers net id) is ≡ true
      → is_ok (resolve_parallel net id is last r).0 ≡ true
  resolve_parallel-ok is last r h =
      let (before, i, after, m, micros, p, q, e) = answered is h in
      rw (p, resolve_parallel-append before after i micros m last r q e) refl

  -- What holds of each way of asking holds of `resolve_active`.
  pub resolve_active-cases :
      (Good : Result ResolveError (Message × Text) × Resolver → Type 0) (random : ℕ)
      (finish is : List ℕ) (r : Resolver)
      → Good (resolve_sequential net id (failover_order r is) nothing_asked r)
      → (0 < length is
          → Good (resolve_sequential net id (load_balanced_order r is random) nothing_asked r))
      → Good (resolve_parallel net id finish nothing_asked r)
      → Good (resolve_active net id random finish is r)
  unfolding resolve_active
  resolve_active-cases Good random finish is r f b p = elim (mode-cases r.mode) [
    | inl e ↦ rw (e, resolve_active) f
    | inr (inl e) ↦ elim (Bool-cases (ltb 1 (length is))) [
      | inl c ↦ rw (e, c, resolve_active) (b (ground arith))
      | inr c ↦ rw (e, c, resolve_active) f
    ]
    | inr (inr e) ↦ elim (Bool-cases (ltb 1 (length is))) [
      | inl c ↦ rw (e, c, resolve_active) p
      | inr c ↦ rw (e, c, resolve_active) f
    ]
  ]
