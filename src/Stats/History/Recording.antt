-- ===== src/Stats/History/Recording.antt =====
-- `record_at` and the other operations keep the invariant, and never panic under it.
use ad_block.Base.{
  ℕ, ◌+◌, ◌/◌, ◌≡◌, refl, sym, ap, subst, ◌∙◌, Option, none, some, arith, ◌==◌, if◌then◌else◌,
}
use ad_block.Stats.History.{
  Metric, Bucket, Inner, Table, queried_table, blocked_table, count, bump, index, rotate,
  rotate_buckets, ensure_back, update_back, count_domain, count_window, table_of, record_at,
  new_bucket, bucket_secs,
}
use ad_block.Stats.History.Clock.{
  Rising, Rising-mono, unexpired-Rising, ensure_back-Rising, update_back-Rising,
}
use ad_block.Stats.History.Window.{Inv, Sums, sum_of, unexpired, rotate_buckets-Sums}
use ad_block.Text.{Text}
use ad_block.Stats.History.Marks.{
  sum_of-ensure_back, ensure_back-IsUnique, ensure_back-nonempty, sum_of-update_back,
  update_back-IsUnique, in_queried, in_blocked, count_domain-queried, count_domain-blocked,
  count_domain-counts, count_domain-IsUnique, count_window-Sums, one_if, bump_lem,
  count_window-buckets, count_window-totals,
}

-- The record in the last bucket.
mark : Metric → Text → Bucket → Bucket
mark m x b = count_domain (table_of m x) x (record b { counts = bump m b.counts })

count_domain-idx : (m : Metric) (x : Text) (b : Bucket) → (mark m x b).idx ≡ b.idx
unfolding mark count_domain
count_domain-idx m x b = go (table_of m x)
  where
    go : (t : Option Table) → (count_domain t x (record b { counts = bump m b.counts })).idx ≡ b.idx
    go none = refl
    go (some queried_table) = refl
    go (some blocked_table) = refl

-- The record itself, after the rotation.
recorded : ℕ → Metric → Text → Inner → Inner
unfolding mark
recorded i m x r = count_window (table_of m x) x (record r {
  buckets = update_back (mark m x) (ensure_back i r.buckets);
  totals = bump m r.totals;
})

module _ (i : ℕ) (m : Metric) (x : Text) (r : Inner) where
  sum_of-marked :
      (f : Bucket → ℕ) (δ : ℕ)
      → f (new_bucket i) ≡ 0
      → ((b : Bucket) → f (mark m x b) ≡ f b + δ)
      → sum_of f (update_back (mark m x) (ensure_back i r.buckets)) ≡ sum_of f r.buckets + δ
  sum_of-marked f δ z h = omega (
    arith,
    sum_of-update_back f (mark m x) δ (ensure_back i r.buckets) h
        (ensure_back-nonempty i r.buckets),
    sum_of-ensure_back f i r.buckets z,
  )

  counts-mark :
      (k : Metric) (b : Bucket) → (mark m x b).counts k ≡ b.counts k + one_if (index m == index k)
  unfolding mark
  counts-mark k b =
      ap (λ c. c k) (count_domain-counts (table_of m x) x (record b { counts = bump m b.counts }))
      ∙ bump_lem m k b.counts

  recorded-Inv : Inv r → Inv (recorded i m x r)
  unfolding recorded count mark
  recorded-Inv s =
      subst (λ bs. Sums bs (recorded i m x r)) (sym (count_window-buckets (table_of m x) x _))
        (count_window-Sums (table_of m x) x r.buckets _ _
          (record {
            queried = s.queried;
            blocked = s.blocked;
            unique_queried = s.unique_queried;
            unique_blocked = s.unique_blocked;
          })
          (λ k. omega (
            arith,
            bump_lem m k r.totals,
            s.totals k,
            sum_of-marked (λ b. b.counts k) (one_if (index m == index k)) refl (counts-mark k),
          ))
          (λ d.
            sum_of-marked (λ b. count d b.queried) (in_queried (table_of m x) x d) refl
              (λ b. count_domain-queried (table_of m x) x d _))
          (λ d.
            sum_of-marked (λ b. count d b.blocked) (in_blocked (table_of m x) x d) refl
              (λ b. count_domain-blocked (table_of m x) x d _))
          (update_back-IsUnique (mark m x) _ (λ b. count_domain-IsUnique (table_of m x) x _)
            (ensure_back-IsUnique i r.buckets s.unique_buckets)))

pub record_at-Inv :
    (now : ℕ) (m : Metric) (domain : Text) (h : Inner)
    → Inv h
    → (h' : Inner) × (record_at now m domain h ≡ some h')
      × Inv h'
      × ((k : Metric)
          → h'.totals k
            ≡ sum_of (λ b. b.counts k) (unexpired h.window_buckets (now / bucket_secs) h.buckets)
              + (if index m == index k then 1 else 0))
unfolding record_at rotate recorded mark
record_at-Inv now m domain h s =
    let (r, ran, inv, left, _) = rotate_buckets-Sums (now / bucket_secs) h.buckets h s in
    (
      recorded (now / bucket_secs) m domain r,
      rw ran,
      recorded-Inv (now / bucket_secs) m domain r inv,
      λ k.
          unfold one_if in
          omega (
            arith,
            ap (λ t. t k)
                (count_window-totals (table_of m domain) domain (record r {
                  buckets = update_back (mark m domain) (ensure_back (now / bucket_secs) r.buckets);
                  totals = bump m r.totals;
                })),
            bump_lem m k r.totals,
            inv.totals k,
            ap (sum_of (λ b. b.counts k)) left,
          ),
    )

record_at-recorded :
    (now : ℕ) (m : Metric) (domain : Text) (h r : Inner)
    → rotate_buckets (now / bucket_secs) h.buckets h ≡ some r
    → record_at now m domain h ≡ some (recorded (now / bucket_secs) m domain r)
unfolding record_at rotate recorded mark
record_at-recorded now m domain h r ran = rw ran

recorded-Rising :
    (i : ℕ) (m : Metric) (domain : Text) (r : Inner)
    → Rising 0 r.buckets i
    → Rising 0 (recorded i m domain r).buckets i
unfolding recorded
recorded-Rising i m domain r rise =
    subst (λ bs. Rising 0 bs i) (sym (count_window-buckets (table_of m domain) domain _))
      (update_back-Rising (mark m domain) 0 i _ (count_domain-idx m domain)
        (ensure_back-Rising 0 i r.buckets (omega arith) rise))

-- If the clock has not stepped back, it still has not behind the record.
pub record_at-Rising :
    (now : ℕ) (m : Metric) (domain : Text) (h h' : Inner)
    → Inv h
    → Rising 0 h.buckets (now / bucket_secs)
    → record_at now m domain h ≡ some h'
    → Rising 0 h'.buckets (now / bucket_secs)
record_at-Rising now m domain h h' s rise e =
    let i : ℕ = now / bucket_secs in
    let (r, ran, inv, left, _) = rotate_buckets-Sums i h.buckets h s in
    let (first, rising, _, _) = unexpired-Rising h.window_buckets i 0 h.buckets rise in
    let kept = Rising-mono first 0 _ i i (omega arith) (omega arith) rising in
    let done : recorded i m domain r ≡ h' = cc (record_at-recorded now m domain h r ran, e) in
    subst (λ (x : Inner). Rising 0 x.buckets i) done
      (recorded-Rising i m domain r (subst (λ bs. Rising 0 bs i) (sym left) kept))
