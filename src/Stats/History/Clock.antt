-- ===== src/Stats/History/Clock.antt =====
-- The buckets in the order of time, and a clock that steps back.
use ad_block.Base.{
  ℕ, suc, ◌+◌, ◌/◌, ◌≤◌, ◌<◌, ◌≡◌, ap, subst, inl, inr, true, List, [], ◌∷◌, none, some, arith, leb,
  ltb, ◌==◌, Bool-cases, Option-cases, In,
}
use ad_block.Stats.History.{
  Metric, Bucket, Inner, expire, rotate_buckets, rotate, ensure_back, update_back, position, fill,
  snapshot_at, bucket_secs,
}
use ad_block.Stats.History.Window.{unexpired}

-- The indices rise from `low`, and none is above `high`.
abbrev pub Rising : ℕ → List Bucket → ℕ → Type 0
Rising low [] high = Unit {0}
Rising low (b ∷ bs) high = (low ≤ b.idx) × (b.idx ≤ high) × Rising (suc b.idx) bs high

pub Rising-mono :
    (low low' : ℕ) (bs : List Bucket) (high high' : ℕ)
    → low' ≤ low
    → high ≤ high'
    → Rising low bs high
    → Rising low' bs high'
Rising-mono low low' [] high high' h k r = tt
Rising-mono low low' (b ∷ bs) high high' h k r = (
  omega arith,
  omega arith,
  Rising-mono (suc b.idx) (suc b.idx) bs high high' (omega arith) k r.2,
)

-- What the rotation leaves is within the window.
pub unexpired-Rising :
    (window i low : ℕ) (bs : List Bucket)
    → Rising low bs i
    → (first : ℕ) × Rising first (unexpired window i bs) i × (i < first + window) × (low ≤ first)
unfolding unexpired
unexpired-Rising window i low [] r = (suc i + low, tt, omega arith, omega arith)
unexpired-Rising window i low (b ∷ bs) r = elim (Bool-cases (leb (b.idx + window) i)) [
  | inl e ↦
      let (first, rising, fits, above) = unexpired-Rising window i (suc b.idx) bs r.2 in
      (first, rw e rising, fits, omega arith)
  | inr e ↦ (b.idx, rw e (omega arith, r.1, r.2), ground arith, r.0)
]

pub ensure_back-Rising :
    (low i : ℕ) (bs : List Bucket) → low ≤ i → Rising low bs i → Rising low (ensure_back i bs) i
unfolding ensure_back
ensure_back-Rising low i [] h r = (h, omega arith, tt)
ensure_back-Rising low i (b ∷ []) h r = elim (Bool-cases (b.idx == i)) [
  | inl e ↦ rw e r
  | inr e ↦ rw e (r.0, r.1, (ground arith, omega arith, tt))
]
ensure_back-Rising low i (b ∷ c ∷ bs) h r =
    (r.0, r.1, ensure_back-Rising (suc b.idx) i (c ∷ bs) (omega arith) r.2)

pub update_back-Rising :
    (f : Bucket → Bucket) (low i : ℕ) (bs : List Bucket)
    → ((b : Bucket) → (f b).idx ≡ b.idx)
    → Rising low bs i
    → Rising low (update_back f bs) i
unfolding update_back
update_back-Rising f low i [] h r = tt
update_back-Rising f low i (b ∷ []) h r = (omega (arith, h b), omega (arith, h b), tt)
update_back-Rising f low i (b ∷ c ∷ bs) h r =
    (r.0, r.1, update_back-Rising f (suc b.idx) i (c ∷ bs) h r.2)

-- A bucket of the future is never rotated out.
rotate_buckets-future :
    (i : ℕ) (bs : List Bucket) (h r : Inner) (b : Bucket)
    → In b bs
    → i < b.idx
    → rotate_buckets i bs h ≡ some r
    → In b r.buckets
unfolding rotate_buckets
rotate_buckets-future i [] h r b here late e = absurd here
rotate_buckets-future i (c ∷ bs) h r b here late e =
    elim (Bool-cases (leb (c.idx + h.window_buckets) i)) [
      | inl old ↦ elim (Option-cases (expire c h)) [
        | inl bad ↦ absurd (cc (rw (old, rotate_buckets) at e, bad))
        | inr (h1, ran) ↦ elim here [
          | inl same ↦ absurd (ground (arith, ap (λ (x : Bucket). x.idx) same))
          | inr later ↦ rotate_buckets-future i bs h1 r b later late (ground arith)
        ]
      ]
      | inr kept ↦ subst (In b) {x = c ∷ bs} (ground arith) here
    ]

-- A bucket of the future stops the filling of the series.
fill-future :
    (window i : ℕ) (bs : List Bucket) (s : Metric → List ℕ) (b : Bucket)
    → In b bs
    → i < b.idx
    → fill window i bs s ≡ none
unfolding fill
fill-future window i [] s b here late = absurd here
fill-future window i (c ∷ bs) s b (inl same) late =
    let ahead : ltb i c.idx ≡ true =
      subst (λ (x : Bucket). ltb i x.idx ≡ true) same (ground arith) in
    unfold position in rw (ahead, fill)
fill-future window i (c ∷ bs) s b (inr later) late = elim (Option-cases (position window i c.idx)) [
  | inl bad ↦ rw (bad, fill)
  | inr (pos, fits) ↦ rw (fits, fill) (fill-future window i bs _ b later late)
]

-- If the history holds a bucket of a later time than the present one, a snapshot panics.
pub snapshot_at-clock_back :
    (now : ℕ) (h : Inner) (b : Bucket)
    → In b h.buckets
    → now / bucket_secs < b.idx
    → snapshot_at now h ≡ none
unfolding snapshot_at rotate
snapshot_at-clock_back now h b here late =
    elim (Option-cases (rotate_buckets (now / bucket_secs) h.buckets h)) [
      | inl bad ↦ rw bad
      | inr (r, ran) ↦ rw ran (
          rw (
            fill-future r.window_buckets (now / bucket_secs) r.buckets _ b
              (rotate_buckets-future (now / bucket_secs) h.buckets h r b here late ran) late))
    ]
