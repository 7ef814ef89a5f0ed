-- ===== src/Dns/Upstream/Parked.antt =====
-- `Resolver::resolve` and the servers that are switched off.
use ad_block.Base.{
  ℕ, zero, suc, ◌+◌, ◌<◌, ◌≤◌, ◌≡◌, refl, ap, ◌∙◌, inl, inr, Bool, true, false, List, [], ◌∷◌,
  Option, none, some, arith, ◌==◌, Bool-cases, is_empty, length, get_elem?, any, any-perm, All,
  Result,
}
use mathlib.Core.Option.{some-injective}
use mathlib.Core.List.{Perm}
use ad_block.Dns.Message.{Message}
use ad_block.Text.{Text}
use ad_block.Dns.Upstream.Answers.{
  answers, is_ok, Result-cases, resolve_active-cases, resolve_sequential-ok, resolve_parallel-ok,
}
use ad_block.Dns.Upstream.Order.{failover_order-perm, load_balanced_order-perm, active_from-Rising}
use ad_block.Dns.Upstream.Resolver.{
  Upstream, Resolver, Attempt, ResolveError, nothing_asked, judge, update_at, note, note_failure,
  resolve_sequential, resolve_parallel, resolve_active, resolve, active, active_from,
  load_balanced_order, failover_order,
}

some_active :
    (p : ℕ → Bool) (is : List ℕ) → any p is ≡ true → (is_empty is ≡ false) × (0 < length is)
some_active p [] h = absurd (ground arith)
some_active p (i ∷ is) h = (refl, omega arith)

module _ (net : ℕ → Attempt) (id random : ℕ) (finish : List ℕ) (r : Resolver) where
  -- If the query is encoded and some enabled server answers it within the time allowed, then
  -- resolve returns an answer, in every mode, whatever the random number and whatever the order in
  -- which the enabled servers come back.
  pub resolve-ok :
      Perm finish (active r)
      → any (answers net id) (active r) ≡ true
      → is_ok (resolve net (some id) random finish r).0 ≡ true
  unfolding resolve
  resolve-ok p h =
      let (there, long) = some_active (answers net id) (active r) h in
      rw (there, resolve)
        (resolve_active-cases net id (λ q. is_ok q.0 ≡ true) random finish (active r) r
          (resolve_sequential-ok net id _ _ r
            (any-perm (answers net id) _ _ (failover_order-perm r (active r)) ∙ h))
          (λ k.
            resolve_sequential-ok net id (load_balanced_order r (active r) random) nothing_asked r (
              any-perm (answers net id) (load_balanced_order r (active r) random) _
                (load_balanced_order-perm r random k)
              ∙ h))
          (resolve_parallel-ok net id _ _ r (any-perm (answers net id) _ _ p ∙ h)))

update_at-other :
    {A : Type 0} (i j : ℕ) (f : A → A) (xs : List A)
    → (i == j) ≡ false
    → get_elem? (update_at i f xs) j ≡ get_elem? xs j
unfolding update_at
update_at-other i j f [] h = refl
update_at-other zero zero f (x ∷ xs) h = absurd (ground arith)
update_at-other zero (suc j) f (x ∷ xs) h = refl
update_at-other (suc i) zero f (x ∷ xs) h = refl
update_at-other (suc i) (suc j) f (x ∷ xs) h = update_at-other i j f xs (ground arith)

module _ (j : ℕ) where
  note-other :
      (i micros : ℕ) (bad : Bool) (r : Resolver)
      → (i == j) ≡ false
      → get_elem? (note i micros bad r).upstreams j ≡ get_elem? r.upstreams j
  unfolding note
  note-other i micros bad r h = update_at-other i j _ r.upstreams h

  abbrev Kept : Resolver → Result ResolveError (Message × Text) × Resolver → Type 0
  Kept r q = get_elem? q.1.upstreams j ≡ get_elem? r.upstreams j

  module _ (net : ℕ → Attempt) (id : ℕ) where
    resolve_sequential-Kept :
        (is : List ℕ) (last : ResolveError) (r : Resolver)
        → any (λ i. i == j) is ≡ false
        → Kept r (resolve_sequential net id is last r)
    unfolding resolve_sequential note_failure
    resolve_sequential-Kept [] last r h = refl
    resolve_sequential-Kept (i ∷ is) last r h = elim (Result-cases (judge id i (net i))) [
      | inl (a, e) ↦ rw (e, resolve_sequential) (note-other i a.1 false r (ground arith))
      | inr (x, e) ↦
          rw (e, resolve_sequential)
            (resolve_sequential-Kept is x (note_failure i r) (ground arith)
              ∙ note-other i _ true r (ground arith))
    ]

    resolve_parallel-Kept :
        (is : List ℕ) (last : ResolveError) (r : Resolver)
        → any (λ i. i == j) is ≡ false
        → Kept r (resolve_parallel net id is last r)
    unfolding resolve_parallel note_failure
    resolve_parallel-Kept [] last r h = refl
    resolve_parallel-Kept (i ∷ is) last r h = elim (Result-cases (judge id i (net i))) [
      | inl (a, e) ↦ rw (e, resolve_parallel) (note-other i a.1 false r (ground arith))
      | inr (x, e) ↦
          rw (e, resolve_parallel)
            (resolve_parallel-Kept is x (note_failure i r) (ground arith)
              ∙ note-other i _ true r (ground arith))
    ]

All-above : (k j : ℕ) (is : List ℕ) → j < k → All (λ i. k ≤ i) is → any (λ i. i == j) is ≡ false
All-above k j [] h a = refl
All-above k j (i ∷ is) h a = ground (arith, All-above k j is h a.1, a.0)

parked-active_from :
    (k j : ℕ) (us : List Upstream) (u : Upstream)
    → get_elem? us j ≡ some u
    → u.addr.enabled ≡ false
    → any (λ i. i == k + j) (active_from k us) ≡ false
unfolding active_from
parked-active_from k j [] u h d = cc
parked-active_from k zero (v ∷ us) u h d =
    let off : v.addr.enabled ≡ false = ap (λ w. w.addr.enabled) (some-injective v u h) ∙ d in
    rw off (
      All-above (suc k) (k + 0) (active_from (suc k) us) (omega arith)
        (active_from-Rising (suc k) us))
parked-active_from k (suc j) (v ∷ us) u h d =
    let rest : any (λ i. i == k + suc j) (active_from (suc k) us) ≡ false =
      ap (λ n. any (λ i. i == n) (active_from (suc k) us)) place
      ∙ parked-active_from (suc k) j us u h d in
    elim (Bool-cases v.addr.enabled) [ inl e ↦ rw e (ground arith) | inr e ↦ rw e rest ]
  where
    place : k + suc j ≡ suc k + j
    place = omega arith

parked-active :
    (r : Resolver) (j : ℕ) (u : Upstream)
    → get_elem? r.upstreams j ≡ some u
    → u.addr.enabled ≡ false
    → any (λ i. i == j) (active r) ≡ false
unfolding active
parked-active r j u h d =
    ap (λ n. any (λ i. i == n) (active_from 0 r.upstreams)) place
    ∙ parked-active_from 0 j r.upstreams u h d
  where
    place : j ≡ 0 + j
    place = omega arith

resolve_active-parked :
    (net : ℕ → Attempt) (id random : ℕ) (finish : List ℕ) (r : Resolver) (j : ℕ)
    → Perm finish (active r)
    → any (λ i. i == j) (active r) ≡ false
    → Kept j r (resolve_active net id random finish (active r) r)
resolve_active-parked net id random finish r j p h =
    resolve_active-cases net id (Kept j r) random finish (active r) r
      (resolve_sequential-Kept j net id (failover_order r (active r)) nothing_asked r
        (any-perm (λ i. i == j) _ _ (failover_order-perm r (active r)) ∙ h))
      (λ k.
        resolve_sequential-Kept j net id (load_balanced_order r (active r) random) nothing_asked r (
          any-perm (λ i. i == j) (load_balanced_order r (active r) random) _
            (load_balanced_order-perm r random k)
          ∙ h))
      (resolve_parallel-Kept j net id finish nothing_asked r (any-perm (λ i. i == j) _ _ p ∙ h))

-- When the servers that come back are the enabled ones in some order, resolve leaves a server that
-- is switched off as it was, its statistics and its slot included, in every mode and whether it
-- succeeds or not.
pub resolve-parked :
    (net : ℕ → Attempt) (encoded : Option ℕ) (random : ℕ) (finish : List ℕ) (r : Resolver) (j : ℕ)
    (u : Upstream)
    → Perm finish (active r)
    → get_elem? r.upstreams j ≡ some u
    → u.addr.enabled ≡ false
    → get_elem? (resolve net encoded random finish r).1.upstreams j ≡ some u
unfolding resolve
resolve-parked net none random finish r j u p h d = elim (Bool-cases (is_empty (active r))) [
  | inl e ↦ rw (e, resolve) h
  | inr e ↦ rw (e, resolve) h
]
resolve-parked net (some id) random finish r j u p h d = elim (Bool-cases (is_empty (active r))) [
  | inl e ↦ rw (e, resolve) h
  | inr e ↦
      rw (e, resolve)
        (resolve_active-parked net id random finish r j p (parked-active r j u h d) ∙ h)
]
