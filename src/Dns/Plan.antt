-- ===== src/Dns/Plan.antt =====
-- src/dns/plan.rs: what becomes of a query. The filter's answer for a domain, `AdBlocker::check_dns`,
-- is a parameter; a request is what the accessors of hickory_proto's `Message` answer.
pub mod Verdicts
use ad_block.Base.{ℕ, Bool, true, false, List, [], ◌∷◌, ◌==◌, if◌then◌else◌}
use ad_block.Dns.Cache.{Key, key_of}
use ad_block.Dns.Message.{
  OpCode, query_code, other_operation, Query, ResponseCode, not_imp, form_err,
}
use ad_block.Dns.Rewrites.{RewriteAnswer, RewriteStore, matching}
use ad_block.Text.{Text, is_char, trim_end_matches, to_ascii_lowercase}

pub record Request : Type 0 where
  pub op_code : OpCode
  pub queries : List Query

pub record Decision : Type 0 where
  pub blocked : Bool
  pub attribution : Text

pub data Verdict : Type 0 where
  nodata : Verdict
  rewrite : List RewriteAnswer → Verdict
  blocked : Text → Verdict
  resolve : Key → Verdict

pub data QueryPlan : Type 0 where
  invalid : ResponseCode → QueryPlan
  answer : Query → Text → Verdict → QueryPlan

-- The code of `RecordType::AAAA`.
abbrev pub aaaa : ℕ
aaaa = 28

-- The domain that the rules see.
unfoldable pub canonical : Query → Text
canonical q = to_ascii_lowercase (trim_end_matches (is_char b'.') q.name_utf8)

module _ (check_dns : Text → Decision) (rewrites : RewriteStore) where
  -- The filter, and the cache behind it.
  unfoldable pub filtered : Query → Text → Verdict
  filtered q domain =
      if (check_dns domain).blocked
      then blocked (check_dns domain).attribution
      else resolve (key_of q.name_ascii q.query_type q.query_class)

  unfoldable pub verdict_of : Query → Text → Verdict
  unfolding filtered
  verdict_of q domain =
      if q.query_type == aaaa
      then nodata
      else (elim (matching rewrites domain) [ [] ↦ filtered q domain | r ∷ rs ↦ rewrite (r ∷ rs) ])

  unfoldable pub plan_queries : List Query → QueryPlan
  unfolding canonical verdict_of
  plan_queries [] = invalid form_err
  plan_queries (q ∷ qs) = answer q (canonical q) (verdict_of q (canonical q))

  unfoldable pub plan_query : Request → QueryPlan
  unfolding plan_queries
  plan_query m = elim m.op_code [
    | query_code ↦ plan_queries m.queries
    | other_operation ↦ invalid not_imp
  ]
