-- ===== src/Stats/History.antt =====
-- src/stats/history.rs: metric counts in buckets of ten minutes, with the sums over the window.
-- An array with a slot for each metric is a function of the metric, and a hash map a list of
-- entries; a bucket list has its oldest bucket first. Counters are taken not to reach 2 ^ 64. An
-- arithmetic underflow or an index out of range is `none`: the code panics there.
pub mod Domains
pub mod Window
pub mod Marks
pub mod Recording
pub mod Clock
pub mod Series
pub mod Running
use ad_block.Base.{
  ℕ, zero, suc, ◌+◌, ◌-◌, ◌*◌, ◌/◌, Bool, true, false, not, ◌&&◌, List, [], ◌∷◌, ◌++◌, map, Option,
  none, some, ltb, leb, ◌==◌, if◌then◌else◌, is_empty, length, take, replicate, set, sort_by,
}
use ad_block.Text.{Text, text_eq}
use ad_block.Text.Order.{text_le}

pub data Metric : Type 0 where
  requests blocked errors dns_queries dns_blocked dns_cached : Metric

pub data Table : Type 0 where
  queried_table blocked_table : Table

unfoldable pub index : Metric → ℕ
index requests = 0
index blocked = 1
index errors = 2
index dns_queries = 3
index dns_blocked = 4
index dns_cached = 5

unfoldable pub domain_table : Metric → Option Table
domain_table requests = some queried_table
domain_table dns_queries = some queried_table
domain_table blocked = some blocked_table
domain_table dns_blocked = some blocked_table
domain_table errors = none
domain_table dns_cached = none

abbrev pub bucket_secs : ℕ
bucket_secs = 600

abbrev pub buckets_per_hour : ℕ
buckets_per_hour = 6

abbrev pub window_default : ℕ
window_default = 24 * buckets_per_hour

abbrev pub top_n : ℕ
top_n = 25

abbrev pub Counts : Type 0
Counts = Metric → ℕ

abbrev pub no_counts : Counts
no_counts m = 0

-- `counts[metric.index()] += 1`
unfoldable pub bump : Metric → Counts → Counts
unfolding index
bump m c k = if index m == index k then c k + 1 else c k

abbrev pub metrics : List Metric
metrics = requests ∷ blocked ∷ errors ∷ dns_queries ∷ dns_blocked ∷ dns_cached ∷ []

unfoldable pub all_fit : List Metric → Counts → Counts → Bool
all_fit [] t c = true
all_fit (m ∷ ms) t c = leb (c m) (t m) && all_fit ms t c

-- The loop `totals[m] -= counts[m]`, which panics on an underflow.
unfoldable pub subtract_counts : Counts → Counts → Option Counts
unfolding all_fit
subtract_counts t c = if all_fit metrics t c then some (λ m. t m - c m) else none

abbrev pub Domains : Type 0
Domains = List (Text × ℕ)

unfoldable pub count : Text → Domains → ℕ
count d [] = 0
count d ((k, n) ∷ m) = if text_eq k d then n else count d m

-- `*map.entry(domain).or_insert(0) += 1`
unfoldable pub increment : Text → Domains → Domains
increment d [] = (d, 1) ∷ []
increment d ((k, n) ∷ m) = if text_eq k d then (k, n + 1) ∷ m else (k, n) ∷ increment d m

-- One round of `subtract`: an entry that falls to zero is removed.
unfoldable pub subtract_one : Text → ℕ → Domains → Domains
subtract_one d n [] = []
subtract_one d n ((k, c) ∷ m) =
    if text_eq k d then (if c - n == 0 then m else (k, c - n) ∷ m) else (k, c) ∷ subtract_one d n m

unfoldable pub subtract : Domains → Domains → Domains
unfolding subtract_one
subtract window [] = window
subtract window ((d, n) ∷ expired) = subtract (subtract_one d n window) expired

pub record Bucket : Type 0 where
  pub idx : ℕ
  pub counts : Counts
  pub queried : Domains
  pub blocked : Domains

abbrev pub new_bucket : ℕ → Bucket
new_bucket i = record { idx = i; counts = no_counts; queried = []; blocked = [] }

pub record Inner : Type 0 where
  pub buckets : List Bucket
  pub totals : Counts
  pub queried : Domains
  pub blocked : Domains
  pub window_buckets : ℕ

abbrev pub default_inner : Inner
default_inner = record {
  buckets = [];
  totals = no_counts;
  queried = [];
  blocked = [];
  window_buckets = window_default;
}

infixl 5 ◌>>=◌
abbrev pub ◌>>=◌ {ℓ κ} : {A : Type ℓ} {B : Type κ} → Option A → (A → Option B) → Option B
none >>= f = none
some x >>= f = f x

-- The sums without an expired bucket.
unfoldable pub expire : Bucket → Inner → Option Inner
unfolding subtract_counts subtract
expire b h = do
  t ← subtract_counts h.totals b.counts
  some (record h {
    totals = t;
    queried = subtract h.queried b.queried;
    blocked = subtract h.blocked b.blocked;
  })

-- The loop of `rotate`, over the buckets.
unfoldable pub rotate_buckets : ℕ → List Bucket → Inner → Option Inner
rotate_buckets i [] h = some (record h { buckets = [] })
rotate_buckets i (b ∷ bs) h = elim (leb (b.idx + h.window_buckets) i) [
  | true ↦ expire b h >>= rotate_buckets i bs
  | false ↦ some (record h { buckets = b ∷ bs })
]

unfoldable pub rotate : ℕ → Inner → Option Inner
rotate i h = rotate_buckets i h.buckets h

-- A bucket for the time, at the back.
unfoldable pub ensure_back : ℕ → List Bucket → List Bucket
ensure_back i [] = new_bucket i ∷ []
ensure_back i (b ∷ []) = if b.idx == i then b ∷ [] else b ∷ new_bucket i ∷ []
ensure_back i (b ∷ c ∷ bs) = b ∷ ensure_back i (c ∷ bs)

unfoldable pub update_back : (Bucket → Bucket) → List Bucket → List Bucket
update_back f [] = []
update_back f (b ∷ []) = f b ∷ []
update_back f (b ∷ c ∷ bs) = b ∷ update_back f (c ∷ bs)

-- The table that a record of the metric counts its domain in.
unfoldable pub table_of : Metric → Text → Option Table
unfolding domain_table
table_of m domain = if is_empty domain then none else domain_table m

unfoldable pub count_domain : Option Table → Text → Bucket → Bucket
count_domain none d b = b
count_domain (some queried_table) d b = record b { queried = increment d b.queried }
count_domain (some blocked_table) d b = record b { blocked = increment d b.blocked }

unfoldable pub count_window : Option Table → Text → Inner → Inner
count_window none d h = h
count_window (some queried_table) d h = record h { queried = increment d h.queried }
count_window (some blocked_table) d h = record h { blocked = increment d h.blocked }

unfoldable pub record_at : ℕ → Metric → Text → Inner → Option Inner
unfolding rotate ensure_back update_back table_of count_domain count_window bump
record_at now m domain h = do
  r ← rotate (now / bucket_secs) h
  let mark = λ (b : Bucket).
      count_domain (table_of m domain) domain (record b { counts = bump m b.counts })
  let bs = update_back mark (ensure_back (now / bucket_secs) r.buckets)
  some (
      count_window (table_of m domain) domain (record r { buckets = bs; totals = bump m r.totals }))

unfoldable pub reset : Inner → Inner
reset h = record default_inner { window_buckets = h.window_buckets }

unfoldable pub set_retention_hours : ℕ → Inner → Inner
set_retention_hours hours h = record h { window_buckets = hours * buckets_per_hour }

unfoldable pub retention_hours : Inner → ℕ
retention_hours h = h.window_buckets / buckets_per_hour

-- Where a bucket stands in a series: from the end, by its age.
unfoldable pub position : ℕ → ℕ → ℕ → Option ℕ
position window i j =
    if ltb i j then none else if ltb (i - j) window then some (window - 1 - (i - j)) else none

-- The loop over the buckets: each writes its count into the series of every metric.
unfoldable pub fill : ℕ → ℕ → List Bucket → (Metric → List ℕ) → Option (Metric → List ℕ)
unfolding position
fill window i [] s = some s
fill window i (b ∷ bs) s = elim (position window i b.idx) [
  | none ↦ none
  | some pos ↦ fill window i bs (λ m. set (s m) pos (b.counts m))
]

-- More first, and by name between equals.
unfoldable pub top_le : Text × ℕ → Text × ℕ → Bool
top_le (d, m) (e, n) = if m == n then text_le d e else ltb n m

unfoldable pub top : Domains → Domains
unfolding top_le
top m = take top_n (sort_by top_le m)

pub record Snapshot : Type 0 where
  pub secs : ℕ
  pub totals : Counts
  pub series : Metric → List ℕ
  pub top_queried : Domains
  pub top_blocked : Domains

unfoldable pub snapshot_at : ℕ → Inner → Option (Snapshot × Inner)
unfolding rotate fill top
snapshot_at now h = do
  r ← rotate (now / bucket_secs) h
  series ← fill r.window_buckets (now / bucket_secs) r.buckets (λ m. replicate r.window_buckets 0)
  some (
    record {
      secs = bucket_secs;
      totals = r.totals;
      series = series;
      top_queried = top r.queried;
      top_blocked = top r.blocked;
    },
    r,
  )
