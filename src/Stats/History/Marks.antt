-- ===== src/Stats/History/Marks.antt =====
-- The parts of `record_at`: what each does to the sums over the buckets.
use ad_block.Base.{
  ℕ, ◌+◌, ◌≡◌, refl, inl, inr, Bool, false, List, [], ◌∷◌, Option, none, some, arith, ◌==◌,
  if◌then◌else◌, Bool-cases, All, is_empty,
}
use ad_block.Stats.History.{
  Metric, Counts, Bucket, Inner, Table, queried_table, blocked_table, count, bump, index,
  ensure_back, update_back, count_domain, count_window, new_bucket,
}
use ad_block.Stats.History.Domains.{Unique, count-increment, increment-Unique}
use ad_block.Stats.History.Window.{BucketIsUnique, Sums, sum_of}
use ad_block.Text.{Text, text_eq}

pub sum_of-ensure_back :
    (f : Bucket → ℕ) (i : ℕ) (bs : List Bucket)
    → f (new_bucket i) ≡ 0
    → sum_of f (ensure_back i bs) ≡ sum_of f bs
unfolding sum_of ensure_back
sum_of-ensure_back f i [] z = omega arith
sum_of-ensure_back f i (b ∷ []) z = ground arith
sum_of-ensure_back f i (b ∷ c ∷ bs) z = omega (arith, sum_of-ensure_back f i (c ∷ bs) z)

pub ensure_back-IsUnique :
    (i : ℕ) (bs : List Bucket) → All BucketIsUnique bs → All BucketIsUnique (ensure_back i bs)
unfolding ensure_back
ensure_back-IsUnique i [] u = ((tt, tt), tt)
ensure_back-IsUnique i (b ∷ []) u = elim (Bool-cases (b.idx == i)) [
  | inl e ↦ rw e u
  | inr e ↦ rw e (u.0, ((tt, tt), tt))
]
ensure_back-IsUnique i (b ∷ c ∷ bs) u = (u.0, ensure_back-IsUnique i (c ∷ bs) u.1)

pub ensure_back-nonempty : (i : ℕ) (bs : List Bucket) → is_empty (ensure_back i bs) ≡ false
unfolding ensure_back
ensure_back-nonempty i [] = refl
ensure_back-nonempty i (b ∷ []) = ground arith
ensure_back-nonempty i (b ∷ c ∷ bs) = refl

pub sum_of-update_back :
    (f : Bucket → ℕ) (g : Bucket → Bucket) (δ : ℕ) (bs : List Bucket)
    → ((b : Bucket) → f (g b) ≡ f b + δ)
    → is_empty bs ≡ false
    → sum_of f (update_back g bs) ≡ sum_of f bs + δ
unfolding sum_of update_back
sum_of-update_back f g δ [] h e = cc
sum_of-update_back f g δ (b ∷ []) h e = omega (arith, h b)
sum_of-update_back f g δ (b ∷ c ∷ bs) h e = omega (arith, sum_of-update_back f g δ (c ∷ bs) h refl)

pub update_back-IsUnique :
    (g : Bucket → Bucket) (bs : List Bucket)
    → ((b : Bucket) → BucketIsUnique b → BucketIsUnique (g b))
    → All BucketIsUnique bs
    → All BucketIsUnique (update_back g bs)
unfolding update_back
update_back-IsUnique g [] h u = tt
update_back-IsUnique g (b ∷ []) h u = (h b u.0, tt)
update_back-IsUnique g (b ∷ c ∷ bs) h u = (u.0, update_back-IsUnique g (c ∷ bs) h u.1)

-- What a record of the domain adds to the count of a domain in each table.
unfoldable pub in_queried : Option Table → Text → Text → ℕ
in_queried none x d = 0
in_queried (some queried_table) x d = if text_eq x d then 1 else 0
in_queried (some blocked_table) x d = 0

unfoldable pub in_blocked : Option Table → Text → Text → ℕ
in_blocked none x d = 0
in_blocked (some queried_table) x d = 0
in_blocked (some blocked_table) x d = if text_eq x d then 1 else 0

pub count_domain-queried :
    (t : Option Table) (x d : Text) (b : Bucket)
    → count d (count_domain t x b).queried ≡ count d b.queried + in_queried t x d
unfolding count_domain in_queried
count_domain-queried none x d b = omega arith
count_domain-queried (some queried_table) x d b = count-increment x d b.queried
count_domain-queried (some blocked_table) x d b = omega arith

pub count_domain-blocked :
    (t : Option Table) (x d : Text) (b : Bucket)
    → count d (count_domain t x b).blocked ≡ count d b.blocked + in_blocked t x d
unfolding count_domain in_blocked
count_domain-blocked none x d b = omega arith
count_domain-blocked (some queried_table) x d b = omega arith
count_domain-blocked (some blocked_table) x d b = count-increment x d b.blocked

pub count_domain-counts :
    (t : Option Table) (x : Text) (b : Bucket) → (count_domain t x b).counts ≡ b.counts
unfolding count_domain
count_domain-counts none x b = refl
count_domain-counts (some queried_table) x b = refl
count_domain-counts (some blocked_table) x b = refl

pub count_domain-IsUnique :
    (t : Option Table) (x : Text) (b : Bucket)
    → BucketIsUnique b
    → BucketIsUnique (count_domain t x b)
unfolding count_domain
count_domain-IsUnique none x b u = u
count_domain-IsUnique (some queried_table) x b u = (increment-Unique x b.queried u.0, u.1)
count_domain-IsUnique (some blocked_table) x b u = (u.0, increment-Unique x b.blocked u.1)

pub record DomainSums (bs : List Bucket) (h : Inner) : Type 0 where
  pub queried : (d : Text) → count d h.queried ≡ sum_of (λ b. count d b.queried) bs
  pub blocked : (d : Text) → count d h.blocked ≡ sum_of (λ b. count d b.blocked) bs
  pub unique_queried : Unique h.queried
  pub unique_blocked : Unique h.blocked

-- The sums of `h` over the buckets, once the record is counted in the buckets.
pub count_window-Sums :
    (t : Option Table) (x : Text) (bs cs : List Bucket) (h : Inner)
    → DomainSums bs h
    → ((m : Metric) → h.totals m ≡ sum_of (λ b. b.counts m) cs)
    → ((d : Text)
        → sum_of (λ b. count d b.queried) cs
          ≡ sum_of (λ b. count d b.queried) bs + in_queried t x d)
    → ((d : Text)
        → sum_of (λ b. count d b.blocked) cs
          ≡ sum_of (λ b. count d b.blocked) bs + in_blocked t x d)
    → All BucketIsUnique cs
    → Sums cs (count_window t x h)
unfolding count_window in_queried in_blocked
count_window-Sums none x bs cs h s p q r u = record {
  totals = p;
  queried = λ d. omega (arith, s.queried d, q d);
  blocked = λ d. omega (arith, s.blocked d, r d);
  unique_queried = s.unique_queried;
  unique_blocked = s.unique_blocked;
  unique_buckets = u;
}
count_window-Sums (some queried_table) x bs cs h s p q r u = record {
  totals = p;
  queried = λ d. omega (arith, s.queried d, q d, count-increment x d h.queried);
  blocked = λ d. omega (arith, s.blocked d, r d);
  unique_queried = increment-Unique x h.queried s.unique_queried;
  unique_blocked = s.unique_blocked;
  unique_buckets = u;
}
count_window-Sums (some blocked_table) x bs cs h s p q r u = record {
  totals = p;
  queried = λ d. omega (arith, s.queried d, q d);
  blocked = λ d. omega (arith, s.blocked d, r d, count-increment x d h.blocked);
  unique_queried = s.unique_queried;
  unique_blocked = increment-Unique x h.blocked s.unique_blocked;
  unique_buckets = u;
}

unfoldable pub one_if : Bool → ℕ
one_if b = if b then 1 else 0

pub bump_lem : (m k : Metric) (c : Counts) → bump m c k ≡ c k + one_if (index m == index k)
unfolding bump one_if
bump_lem m k c = ground arith

pub count_window-buckets :
    (t : Option Table) (x : Text) (h : Inner) → (count_window t x h).buckets ≡ h.buckets
unfolding count_window
count_window-buckets none x h = refl
count_window-buckets (some queried_table) x h = refl
count_window-buckets (some blocked_table) x h = refl

pub count_window-totals :
    (t : Option Table) (x : Text) (h : Inner) → (count_window t x h).totals ≡ h.totals
unfolding count_window
count_window-totals none x h = refl
count_window-totals (some queried_table) x h = refl
count_window-totals (some blocked_table) x h = refl
