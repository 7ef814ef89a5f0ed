-- ===== src/Dns/Upstream/Health.antt =====
-- `Stats` and `EchSupport`: what is known of a server. Round trips are in microseconds; the counters
-- are taken not to reach 2 ^ 64.
use ad_block.Base.{
  ℕ, ◌+◌, ◌-◌, ◌/◌, ◌≤◌, ◌^◌, ◌≡◌, refl, min, max, Bool, Option, none, some, arith, ◌==◌,
  if◌then◌else◌,
}

pub record Stats : Type 0 where
  pub queries : ℕ
  pub failures : ℕ
  pub ewma_rtt_us : ℕ

abbrev pub no_stats : Stats
no_stats = record { queries = 0; failures = 0; ewma_rtt_us = 0 }

-- The largest 64-bit number.
abbrev pub u64_max : ℕ
u64_max = 2 ^ 64 - 1

-- The moving average: an eighth of the old one goes, an eighth of the sample comes.
unfoldable pub averaged : ℕ → ℕ → ℕ
averaged old sample = if old == 0 then sample else old - old / 8 + sample / 8

unfoldable pub record_rtt : ℕ → Bool → Stats → Stats
unfolding averaged
record_rtt micros failed s = record {
  queries = s.queries + 1;
  failures = if failed then s.failures + 1 else s.failures;
  ewma_rtt_us = max (averaged s.ewma_rtt_us (min micros u64_max)) 1;
}

unfoldable pub reset : Stats → Stats
reset s = no_stats

unfoldable pub weight : Stats → ℕ
weight s = if s.ewma_rtt_us == 0 then 10_000 else max (10_000 / max (s.ewma_rtt_us / 1000) 1) 1

unfoldable pub avg_rtt_ms : Stats → Option ℕ
avg_rtt_ms s = if s.ewma_rtt_us == 0 then none else some (s.ewma_rtt_us / 1000)

pub data EchSupport : Type 0 where
  unknown supported unsupported : EchSupport

unfoldable pub from_u8 : ℕ → EchSupport
from_u8 v = if v == 1 then supported else if v == 2 then unsupported else unknown

unfoldable pub to_u8 : EchSupport → ℕ
to_u8 unknown = 0
to_u8 supported = 1
to_u8 unsupported = 2

pub from_u8-to_u8 : (e : EchSupport) → from_u8 (to_u8 e) ≡ e
unfolding from_u8 to_u8
from_u8-to_u8 unknown = refl
from_u8-to_u8 supported = refl
from_u8-to_u8 unsupported = refl

pub record_rtt_bounds :
    (micros : ℕ) (failed : Bool) (s : Stats)
    → s.ewma_rtt_us ≤ u64_max
    → (1 ≤ (record_rtt micros failed s).ewma_rtt_us)
      × ((record_rtt micros failed s).ewma_rtt_us ≤ max 1 (max s.ewma_rtt_us micros))
      × ((record_rtt micros failed s).ewma_rtt_us ≤ u64_max)
unfolding record_rtt averaged
record_rtt_bounds micros failed s h = ground arith

pub weight_bounds : (s : Stats) → (1 ≤ weight s) × (weight s ≤ 10_000)
unfolding weight
weight_bounds s = ground arith
