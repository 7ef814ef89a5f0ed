-- ===== src/Stats/History/Window.antt =====
-- The invariant of the history: the totals are the sums over the buckets of the window.
use ad_block.Base.{
  ℕ, ◌+◌, ◌-◌, ◌≤◌, ◌≡◌, refl, ap, ◌∙◌, inl, inr, true, List, [], ◌∷◌, some, arith, leb,
  if◌then◌else◌, Bool-cases, All,
}
use ad_block.Stats.History.{
  Metric, metrics, Counts, Bucket, Inner, count, subtract, all_fit, subtract_counts, expire,
  rotate_buckets,
}
use ad_block.Stats.History.Domains.{Unique, count-subtract, subtract-Unique}
use ad_block.Text.{Text}

-- The sum of a number over the buckets.
unfoldable pub sum_of : (Bucket → ℕ) → List Bucket → ℕ
sum_of f [] = 0
sum_of f (b ∷ bs) = f b + sum_of f bs

abbrev pub BucketIsUnique : Bucket → Type 0
BucketIsUnique b = Unique b.queried × Unique b.blocked

-- The totals of `h` are the sums over the buckets `bs`.
pub record Sums (bs : List Bucket) (h : Inner) : Type 0 where
  pub totals : (m : Metric) → h.totals m ≡ sum_of (λ b. b.counts m) bs
  pub queried : (d : Text) → count d h.queried ≡ sum_of (λ b. count d b.queried) bs
  pub blocked : (d : Text) → count d h.blocked ≡ sum_of (λ b. count d b.blocked) bs
  pub unique_queried : Unique h.queried
  pub unique_blocked : Unique h.blocked
  pub unique_buckets : All BucketIsUnique bs

abbrev pub Inv : Inner → Type 0
Inv h = Sums h.buckets h

all_fit_holds :
    (ms : List Metric) (t c : Counts) → ((m : Metric) → c m ≤ t m) → all_fit ms t c ≡ true
unfolding all_fit
all_fit_holds [] t c h = refl
all_fit_holds (m ∷ ms) t c h = ground (arith, h m, all_fit_holds ms t c h)

-- The sums after an expiry; under the invariant no total underflows.
expire-Sums :
    (b : Bucket) (bs : List Bucket) (h : Inner)
    → Sums (b ∷ bs) h
    → (h' : Inner) × (expire b h ≡ some h') × Sums bs h' × (h'.window_buckets ≡ h.window_buckets)
unfolding expire subtract_counts sum_of
expire-Sums b bs h s =
    let fits : all_fit metrics h.totals b.counts ≡ true =
      all_fit_holds metrics h.totals b.counts (λ m. omega (arith, s.totals m)) in
    (
      record h {
        totals = λ m. h.totals m - b.counts m;
        queried = subtract h.queried b.queried;
        blocked = subtract h.blocked b.blocked;
      },
      rw fits,
      record {
        totals = λ m. omega (arith, s.totals m);
        queried = λ d. omega (
          arith,
          s.queried d,
          count-subtract d h.queried b.queried s.unique_queried s.unique_buckets.0.0,
        );
        blocked = λ d. omega (
          arith,
          s.blocked d,
          count-subtract d h.blocked b.blocked s.unique_blocked s.unique_buckets.0.1,
        );
        unique_queried = subtract-Unique h.queried b.queried s.unique_queried;
        unique_blocked = subtract-Unique h.blocked b.blocked s.unique_blocked;
        unique_buckets = s.unique_buckets.1;
      },
      refl,
    )

-- What the rotation leaves of the buckets.
unfoldable pub unexpired : ℕ → ℕ → List Bucket → List Bucket
unexpired window i [] = []
unexpired window i (b ∷ bs) = if leb (b.idx + window) i then unexpired window i bs else b ∷ bs

pub rotate_buckets-Sums :
    (i : ℕ) (bs : List Bucket) (h : Inner)
    → Sums bs h
    → (h' : Inner) × (rotate_buckets i bs h ≡ some h')
      × Inv h'
      × (h'.buckets ≡ unexpired h.window_buckets i bs)
      × (h'.window_buckets ≡ h.window_buckets)
unfolding rotate_buckets unexpired
rotate_buckets-Sums i [] h s = (record h { buckets = [] }, refl, sums, refl, refl)
  where
    sums : Inv (record h { buckets = [] })
    sums = record {
      totals = s.totals;
      queried = s.queried;
      blocked = s.blocked;
      unique_queried = s.unique_queried;
      unique_blocked = s.unique_blocked;
      unique_buckets = tt;
    }
rotate_buckets-Sums i (b ∷ bs) h s = elim (Bool-cases (leb (b.idx + h.window_buckets) i)) [
  | inl e ↦
      let (h1, ran, sums, window) = expire-Sums b bs h s in
      let (h2, ran2, inv, bs2, window2) = rotate_buckets-Sums i bs h1 sums in
      (
        h2,
        rw (e, rotate_buckets) (rw ran ran2),
        inv,
        rw e (bs2 ∙ ap (λ w. unexpired w i bs) window),
        window2 ∙ window,
      )
  | inr e ↦ (
    record h { buckets = b ∷ bs },
    rw (e, rotate_buckets),
    record {
      totals = s.totals;
      queried = s.queried;
      blocked = s.blocked;
      unique_queried = s.unique_queried;
      unique_blocked = s.unique_blocked;
      unique_buckets = s.unique_buckets;
    },
    rw e,
    refl,
  )
]
