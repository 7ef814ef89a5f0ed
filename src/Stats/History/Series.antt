-- ===== src/Stats/History/Series.antt =====
-- `snapshot_at`: the series against the totals, and histories whose clock does not step back.
use ad_block.Base.{
  ℕ, suc, ◌+◌, ◌-◌, ◌/◌, ◌≤◌, ◌<◌, ◌≡◌, refl, sym, ap, subst, ◌∙◌, List, [], ◌∷◌, some, arith,
  replicate, set, get_or, length, sum, sum-set, sum-replicate, length-set, length-replicate,
  get_or-replicate, get_or-set_lt,
}
use ad_block.Stats.History.{
  Metric, Bucket, Inner, Snapshot, rotate, position, fill, snapshot_at, bucket_secs, top,
}
use ad_block.Stats.History.Window.{Inv, sum_of, unexpired, rotate_buckets-Sums}
use ad_block.Stats.History.Clock.{Rising, Rising-mono, unexpired-Rising}

position_lem :
    (window i j : ℕ) → j ≤ i → i < j + window → position window i j ≡ some (window - 1 - (i - j))
unfolding position
position_lem window i j h k = ground arith

-- Each bucket has a slot of its own in the series, behind those that are filled.
fill_sums :
    (window i low p : ℕ) (bs : List Bucket) (s : Metric → List ℕ)
    → Rising low bs i
    → i < low + window
    → p + i + 1 ≡ window + low
    → ((m : Metric) → length (s m) ≡ window)
    → ((m : Metric) (n : ℕ) → p ≤ n → get_or (s m) n 0 ≡ 0)
    → (s' : Metric → List ℕ) × (fill window i bs s ≡ some s')
      × ((m : Metric) → length (s' m) ≡ window)
      × ((m : Metric) → sum (s' m) ≡ sum (s m) + sum_of (λ b. b.counts m) bs)
unfolding fill sum_of
fill_sums window i low p [] s r fits at_p len zeros = (s, refl, len, λ m. omega arith)
fill_sums window i low p (b ∷ bs) s r fits at_p len zeros =
    let pos : ℕ = window - 1 - (i - b.idx) in
    let placed = position_lem window i b.idx r.1 (omega arith) in
    let (s', ran, len', total) =
      fill_sums window i (suc b.idx) (suc pos) bs (λ m. set (s m) pos (b.counts m)) r.2
        (omega arith) (omega arith) (λ m. length-set (s m) pos (b.counts m) ∙ len m)
        (λ m n h. get_or-set_lt (s m) pos n (b.counts m) 0 h ∙ zeros m n (omega arith)) in
    (
      s',
      rw (placed, fill) ran,
      len',
      λ m. omega (
        arith,
        total m,
        len m,
        sum-set (s m) pos (b.counts m) (omega (arith, len m)) (zeros m pos (omega arith)),
      ),
    )

-- If the totals are the sums over the buckets and the buckets rise in time up to the present one, a
-- snapshot returns; the sums still hold and the buckets still rise; and for each metric the series
-- has one slot per bucket of the window, its sum is the total of the metric, and the total is the
-- sum over the buckets that have not expired.
pub snapshot_at_sums :
    (now : ℕ) (h : Inner)
    → Inv h
    → Rising 0 h.buckets (now / bucket_secs)
    → (snap : Snapshot) × (h' : Inner) × (snapshot_at now h ≡ some (snap, h'))
      × Inv h'
      × Rising 0 h'.buckets (now / bucket_secs)
      × ((m : Metric)
          → (length (snap.series m) ≡ h.window_buckets)
            × (sum (snap.series m) ≡ snap.totals m)
            × (snap.totals m
                ≡ sum_of
                    (λ b. b.counts m)
                    (unexpired h.window_buckets (now / bucket_secs) h.buckets)))
unfolding snapshot_at rotate
snapshot_at_sums now h s rise =
    let i : ℕ = now / bucket_secs in
    let (r, ran, inv, left, window) = rotate_buckets-Sums i h.buckets h s in
    let (first, rising, fits, above) = unexpired-Rising h.window_buckets i 0 h.buckets rise in
    let rising' = subst (λ bs. Rising first bs i) (sym left) rising in
    let (series, filled, len, total) =
      fill_sums r.window_buckets i first (r.window_buckets + first - i - 1) r.buckets
        (λ m. replicate r.window_buckets 0) rising' (omega arith) (omega arith)
        (λ m. length-replicate r.window_buckets 0)
        (λ m n _. get_or-replicate r.window_buckets n 0) in
    let snap : Snapshot = record {
      secs = bucket_secs;
      totals = r.totals;
      series = series;
      top_queried = top r.queried;
      top_blocked = top r.blocked;
    } in
    (
      snap,
      r,
      rw ran (rw filled),
      inv,
      Rising-mono first 0 r.buckets i i (omega arith) (omega arith) rising',
      λ m. (
        len m ∙ window,
        omega (arith, total m, sum-replicate r.window_buckets, inv.totals m),
        omega (arith, inv.totals m, ap (sum_of (λ b. b.counts m)) left),
      ),
    )
