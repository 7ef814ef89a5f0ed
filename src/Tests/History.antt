-- ===== src/Tests/History.antt =====
-- The history, at concrete inputs.
use ad_block.Base.{ℕ, ◌-◌, ◌/◌, ◌≡◌, refl, inl, List, [], ◌∷◌, none, some, arith, length, sum}
use ad_block.Stats.History.{
  Metric, requests, blocked, bump, count, Domains, Bucket, Inner, Snapshot, no_counts,
  default_inner, subtract, snapshot_at, bucket_secs,
}
use ad_block.Stats.History.Clock.{Rising, snapshot_at-clock_back}
use ad_block.Stats.History.Domains.{Unique, count-subtract}
use ad_block.Stats.History.Running.{Event, run, run-Good}
use ad_block.Stats.History.Series.{snapshot_at_sums}
use ad_block.Stats.History.Window.{Inv, sum_of, unexpired}
use ad_block.Text.{Text, text_eq, codes}

abbrev site : Text
site = codes "a.test"

-- One request, in the bucket that begins at 1800 s.
abbrev one_bucket : Bucket
one_bucket = record {
  idx = 3;
  counts = bump requests no_counts;
  queried = (site, 1) ∷ [];
  blocked = [];
}

abbrev one : Inner
one = record default_inner {
  buckets = one_bucket ∷ [];
  totals = one_bucket.counts;
  queried = one_bucket.queried;
}

one-Inv : Inv one
unfolding sum_of count
one-Inv = record {
  totals = λ m. omega arith;
  queried = λ d. omega arith;
  blocked = λ d. refl;
  unique_queried = (tt, tt);
  unique_blocked = tt;
  unique_buckets = (((tt, tt), tt), tt);
}

one-Rising : Rising 0 one.buckets (2400 / bucket_secs)
one-Rising = (omega arith, omega arith, tt)

snapshot_at_sums_example :
    (snap : Snapshot) × (h' : Inner) × (snapshot_at 2400 one ≡ some (snap, h'))
    × Inv h'
    × Rising 0 h'.buckets (2400 / bucket_secs)
    × ((m : Metric)
        → (length (snap.series m) ≡ one.window_buckets)
          × (sum (snap.series m) ≡ snap.totals m)
          × (snap.totals m
              ≡ sum_of
                  (λ b. b.counts m)
                  (unexpired one.window_buckets (2400 / bucket_secs) one.buckets)))
snapshot_at_sums_example = snapshot_at_sums 2400 one one-Inv one-Rising

-- The clock goes back from 1800 s to 600 s.
snapshot_at-clock_back_example : snapshot_at 600 one ≡ none
snapshot_at-clock_back_example = snapshot_at-clock_back 600 one one_bucket (inl refl) (omega arith)

-- A record, a change of the retention, a record a day later, a snapshot, and a reset.
abbrev events : List (ℕ × Event)
events =
    (2400, Event.measures blocked site)
    ∷ (2400, Event.retains 1)
    ∷ (90_000, Event.measures requests site)
    ∷ (90_000, Event.snapshots)
    ∷ (90_001, Event.resets)
    ∷ []

run-Good_example : (h' : Inner) × (run events one ≡ some h') × Inv h'
run-Good_example =
    run-Good events 2400 one (one-Inv, one-Rising)
      (omega arith, (omega arith, (omega arith, (omega arith, (omega arith, tt)))))

abbrev window_counts : Domains
window_counts = (site, 3) ∷ (codes "b.test", 1) ∷ []

abbrev expired_counts : Domains
expired_counts = (codes "b.test", 1) ∷ (site, 2) ∷ []

counts-Unique : Unique window_counts × Unique expired_counts
unfolding text_eq
counts-Unique = (((refl, tt), (tt, tt)), ((refl, tt), (tt, tt)))

count-subtract_example :
    count site (subtract window_counts expired_counts)
    ≡ count site window_counts - count site expired_counts
count-subtract_example =
    count-subtract site window_counts expired_counts counts-Unique.0 counts-Unique.1
