-- ===== src/Stats/History/Running.antt =====
-- A whole run of the history, with a clock that does not step back.
use ad_block.Base.{ℕ, ◌/◌, ◌≤◌, ◌≡◌, refl, List, [], ◌∷◌, Option, some, arith}
use ad_block.Stats.History.{
  Metric, Inner, count, record_at, snapshot_at, reset, set_retention_hours, bucket_secs, ◌>>=◌,
}
use ad_block.Stats.History.Clock.{Rising, Rising-mono}
use ad_block.Stats.History.Recording.{record_at-Inv, record_at-Rising}
use ad_block.Stats.History.Series.{snapshot_at_sums}
use ad_block.Stats.History.Window.{Inv, sum_of}
use ad_block.Text.{Text}

pub data Event : Type 0 where
  measures : Metric → Text → Event
  snapshots : Event
  resets : Event
  retains : ℕ → Event

-- One call on the history, at a time of the wall clock.
unfoldable pub step : ℕ × Event → Inner → Option Inner
step (now, measures m d) h = record_at now m d h
step (now, snapshots) h = do (_, r) ← snapshot_at now h; some r
step (now, resets) h = some (reset h)
step (now, retains hours) h = some (set_retention_hours hours h)

unfoldable pub run : List (ℕ × Event) → Inner → Option Inner
unfolding step
run [] h = some h
run (e ∷ es) h = step e h >>= run es

-- Each call comes at the time of the one before it, or later.
abbrev pub Monotone : ℕ → List (ℕ × Event) → Type 0
Monotone last [] = Unit {0}
Monotone last ((now, e) ∷ es) = (last ≤ now) × Monotone now es

abbrev pub Good : ℕ → Inner → Type 0
Good now h = Inv h × Rising 0 h.buckets (now / bucket_secs)

reset-Inv : (h : Inner) → Inv (reset h)
unfolding reset sum_of count
reset-Inv h = record {
  totals = λ m. refl;
  queried = λ d. refl;
  blocked = λ d. refl;
  unique_queried = tt;
  unique_blocked = tt;
  unique_buckets = tt;
}

retained : (hours : ℕ) (h : Inner) → Inv h → Inv (set_retention_hours hours h)
unfolding set_retention_hours
retained hours h s = record {
  totals = s.totals;
  queried = s.queried;
  blocked = s.blocked;
  unique_queried = s.unique_queried;
  unique_blocked = s.unique_blocked;
  unique_buckets = s.unique_buckets;
}

step-Good :
    (now : ℕ) (e : Event) (h : Inner)
    → Good now h
    → (h' : Inner) × (step (now, e) h ≡ some h') × Good now h'
unfolding step reset set_retention_hours
step-Good now (measures m d) h (s, rise) =
    let (h', ran, inv, _) = record_at-Inv now m d h s in
    (h', ran, (inv, record_at-Rising now m d h h' s rise ran))
step-Good now snapshots h (s, rise) =
    let (snap, h', ran, inv, rise', _) = snapshot_at_sums now h s rise in (h', rw ran, (inv, rise'))
step-Good now resets h (s, rise) = (reset h, refl, (reset-Inv h, tt))
step-Good now (retains hours) h (s, rise) =
    (set_retention_hours hours h, refl, (retained hours h s, rise))

-- From a history whose totals and domain counts are the sums over its buckets, whose buckets rise
-- in time and lie at or before the time given, any sequence of records, snapshots, resets and
-- changes of the retention at times that do not decrease returns without a panic, and the totals
-- and domain counts are again the sums over the buckets, with each domain once.
pub run-Good :
    (es : List (ℕ × Event)) (last : ℕ) (h : Inner)
    → Good last h
    → Monotone last es
    → (h' : Inner) × (run es h ≡ some h') × Inv h'
unfolding run
run-Good [] last h (s, rise) t = (h, refl, s)
run-Good ((now, e) ∷ es) last h (s, rise) t =
    let (h1, ran, good) =
      step-Good now e h (s, Rising-mono 0 0 h.buckets _ _ (omega arith) (omega arith) rise) in
    let (h2, ran2, inv) = run-Good es now h1 good t.1 in (h2, rw ran ran2, inv)
