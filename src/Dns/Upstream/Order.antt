-- ===== src/Dns/Upstream/Order.antt =====
-- The orders in which `Resolver` asks: each is a reordering of the enabled servers.
use ad_block.Base.{
  ℕ, zero, suc, ◌+◌, ◌-◌, ◌%◌, ◌≤◌, ◌<◌, ◌≡◌, refl, sym, ap, subst, ◌∙◌, inl, inr, Bool, false,
  List, [], ◌∷◌, ◌++◌, map, Option, none, some, arith, ltb, leb, ◌==◌, ==_refl, Bool-cases, length,
  take, drop, get_or, get_elem?, any-perm, any_of_In, In-of_any, All, In, sum, sort_by,
  sort_by-perm, Other, Distinct, sort_by-Distinct, move_front-perm, rotation-perm, round_from_lem,
}
use mathlib.Core.List.{Perm}
use mathlib.Core.List.Perm
use native.Mathlib.Nat.{mod-lt}
use ad_block.Dns.Upstream.Health.{weight, weight_bounds}
use ad_block.Dns.Upstream.Resolver.{
  Upstream, Resolver, active_from, active, position, one_further, unwrap_or_zero, start_of,
  failover_order, pick_from, pick_weighted, stats_at, load_balanced_order,
}

one_further_le :
    (o : Option ℕ) {n : ℕ} → unwrap_or_zero o ≤ n → unwrap_or_zero (one_further o) ≤ suc n
one_further_le none h = omega arith
one_further_le (some k) h = omega arith

start_of_le : (p : ℕ) (is : List ℕ) → start_of p is ≤ length is
unfolding start_of position
start_of_le p [] = omega arith
start_of_le p (i ∷ is) = elim (Bool-cases (i == p)) [
  | inl e ↦ rw e (omega arith)
  | inr e ↦ rw e (one_further_le (position p is) (start_of_le p is))
]

-- The fail-over order is a rotation.
failover_order_lem :
    (r : Resolver) (is : List ℕ)
    → failover_order r is ≡ drop (start_of r.preferred is) is ++ take (start_of r.preferred is) is
unfolding failover_order
failover_order_lem r is = round_from_lem is (start_of r.preferred is) (start_of_le r.preferred is)

pub failover_order-perm : (r : Resolver) (is : List ℕ) → Perm (failover_order r is) is
failover_order-perm r is =
    subst (λ xs. Perm xs is) (sym (failover_order_lem r is))
      (rotation-perm (start_of r.preferred is) is)

position_of_In :
    (p : ℕ) (is : List ℕ) → In p is → (k : ℕ) × (position p is ≡ some k) × (get_elem? is k ≡ some p)
unfolding position
position_of_In p [] i = absurd i
position_of_In p (x ∷ xs) i = elim (Bool-cases (x == p)) [
  | inl e ↦ rw e (0, refl, ap some (ground arith))
  | inr e ↦ elim i [
    | inl k ↦ absurd (ground arith)
    | inr j ↦ let (k, h, g) = position_of_In p xs j in rw (e, h) (suc k, refl, g)
  ]
]

head_of_drop :
    (k : ℕ) (xs ys : List ℕ) (p : ℕ)
    → get_elem? xs k ≡ some p
    → get_elem? (drop k xs ++ ys) 0 ≡ some p
head_of_drop k [] ys p h = cc
head_of_drop zero (x ∷ xs) ys p h = h
head_of_drop (suc k) (x ∷ xs) ys p h = head_of_drop k xs ys p h

-- The preferred server is asked first, if it is enabled.
pub failover_order-preferred :
    (r : Resolver) (is : List ℕ)
    → In r.preferred is
    → get_elem? (failover_order r is) 0 ≡ some r.preferred
unfolding start_of
failover_order-preferred r is i =
    let (k, h, g) = position_of_In r.preferred is i in
    rw (failover_order_lem r is, h) (head_of_drop k is (take k is) r.preferred g)

-- The interval of the sums in which a point falls.
pick_from_lem :
    (last i point : ℕ) (ws : List ℕ)
    → point < sum ws
    → (j : ℕ) × (j < length ws)
      × (pick_from last i point ws ≡ i + j)
      × (sum (take j ws) ≤ point)
      × (point < sum (take (suc j) ws))
unfolding pick_from sum
pick_from_lem last i point [] h = absurd (omega arith)
pick_from_lem last i point (w ∷ ws) h = elim (Bool-cases (ltb point w)) [
  | inl e ↦ rw e (0, omega arith, omega arith, omega arith, ground arith)
  | inr e ↦
      let over : w ≤ point = ground arith in
      let (j, a, b, c, d) = pick_from_lem last (suc i) (point - w) ws (omega arith) in
      rw e (suc j, omega arith, omega arith, omega arith, omega arith)
]

-- If the sum of the weights is positive, pick_weighted answers an index below their number, and the
-- random number modulo the sum lies in the interval of that index: not below the sum of the weights
-- before it, and below that sum and its own weight.
pub pick_weighted_lem :
    (ws : List ℕ) (random : ℕ)
    → 0 < sum ws
    → (pick_weighted ws random < length ws)
      × (sum (take (pick_weighted ws random) ws) ≤ random % sum ws)
      × (random % sum ws < sum (take (suc (pick_weighted ws random)) ws))
unfolding pick_weighted
pick_weighted_lem ws random h =
    let (j, a, b, c, d) = pick_from_lem (length ws - 1) 0 (random % sum ws) ws (mod-lt random h) in
    let some_weight : (sum ws == 0) ≡ false = ground arith in
    let picked : pick_from (length ws - 1) 0 (random % sum ws) ws ≡ j = omega arith in
    rw (some_weight, picked) (a, c, d)

pub active_from-Rising : (i : ℕ) (us : List Upstream) → All (λ j. i ≤ j) (active_from i us)
unfolding active_from
active_from-Rising i [] = tt
active_from-Rising i (u ∷ us) = elim (Bool-cases u.addr.enabled) [
  | inl e ↦ rw e (omega arith, lower (active_from (suc i) us) (active_from-Rising (suc i) us))
  | inr e ↦ rw e (lower (active_from (suc i) us) (active_from-Rising (suc i) us))
]
  where
    lower : (is : List ℕ) → All (λ j. suc i ≤ j) is → All (λ j. i ≤ j) is
    lower [] h = tt
    lower (j ∷ is) h = (omega (arith, h.0), lower is h.1)

above-Other : (i : ℕ) (is : List ℕ) → All (λ j. suc i ≤ j) is → All (Other i) is
above-Other i [] h = tt
above-Other i (j ∷ is) h = (ground (arith, h.0), above-Other i is h.1)

active_from-Distinct : (i : ℕ) (us : List Upstream) → Distinct (active_from i us)
unfolding active_from
active_from-Distinct i [] = tt
active_from-Distinct i (u ∷ us) = elim (Bool-cases u.addr.enabled) [
  | inl e ↦ rw e (above-Other i _ (active_from-Rising (suc i) us), active_from-Distinct (suc i) us)
  | inr e ↦ rw e (active_from-Distinct (suc i) us)
]

pub active-Distinct : (r : Resolver) → Distinct (active r)
unfolding active
active-Distinct r = active_from-Distinct 0 r.upstreams

get_or-In : (is : List ℕ) (k : ℕ) → k < length is → In (get_or is k 0) is
get_or-In [] k h = absurd (omega arith)
get_or-In (i ∷ is) zero h = inl refl
get_or-In (i ∷ is) (suc k) h = inr (get_or-In is k (omega arith))

In-sort_by : (le : ℕ → ℕ → Bool) (is : List ℕ) (p : ℕ) → In p is → In p (sort_by le is)
In-sort_by le is p i =
    let (x, j, q) =
      In-of_any (λ k. k == p) (sort_by le is)
        (any-perm (λ k. k == p) (sort_by le is) is (sort_by-perm le is)
          ∙ any_of_In (λ k. k == p) is p i (==_refl p)) in
    subst (λ k. In k (sort_by le is)) (ground arith) j

sum_positive : (f : ℕ → ℕ) (is : List ℕ) → ((i : ℕ) → 1 ≤ f i) → 0 < length is → 0 < sum (map f is)
unfolding sum
sum_positive f [] h k = absurd (omega arith)
sum_positive f (i ∷ is) h k = omega (arith, h i)

length_weights : (f : ℕ → ℕ) (is : List ℕ) → length (map f is) ≡ length is
length_weights f [] = refl
length_weights f (i ∷ is) = ap suc (length_weights f is)

-- If some server is enabled, then for every random number the balanced order has each enabled
-- server exactly once and no other.
pub load_balanced_order-perm :
    (r : Resolver) (random : ℕ)
    → 0 < length (active r)
    → Perm (load_balanced_order r (active r) random) (active r)
unfolding load_balanced_order
load_balanced_order-perm r random h =
    let ws : List ℕ = map (λ i. weight (stats_at r i)) (active r) in
    let le : ℕ → ℕ → Bool = λ i j. leb (stats_at r i).ewma_rtt_us (stats_at r j).ewma_rtt_us in
    let fits : pick_weighted ws random < length (active r) = omega (
      arith,
      (pick_weighted_lem ws random
          (sum_positive _ (active r) (λ i. (weight_bounds (stats_at r i)).0) h)).0,
      length_weights (λ i. weight (stats_at r i)) (active r),
    ) in
    let picked : ℕ = get_or (active r) (pick_weighted ws random) 0 in
    let here : In picked (sort_by le (active r)) =
      In-sort_by le (active r) picked (get_or-In (active r) _ fits) in
    Perm.trans
      (move_front-perm picked (sort_by le (active r)) here
        (sort_by-Distinct le (active r) (active-Distinct r)))
      (sort_by-perm le (active r))
