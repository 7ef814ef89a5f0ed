-- ===== src/Tests/Plan.antt =====
-- The plan of a query, at concrete inputs.
use ad_block.Base.{◌≡◌, true, [], ◌∷◌, none}
use ad_block.Dns.Message.{Query, query_code}
use ad_block.Dns.Plan.{Decision, Verdict, canonical, plan_query, answer}
use ad_block.Dns.Plan.Verdicts.{Decided, plan_query_cases}
use ad_block.Dns.Rewrites.{v4, RewriteStore}
use ad_block.Text.{Text, codes}

abbrev store : RewriteStore
store = record {
  entries =
      record {
        domain = codes "*.test";
        answer = v4 (record { a = 10; b = 0; c = 0; d = 1 });
        enabled = true;
      }
      ∷ [];
  header = [];
  file = none;
}

abbrev query : Query
query = record {
  name_utf8 = codes "A.Test.";
  name_ascii = codes "A.Test.";
  query_type = 1;
  query_class = 1;
}

abbrev block_all : Text → Decision
block_all d = record { blocked = true; attribution = codes "rule" }

plan_query_cases_example :
    (v : Verdict) × (plan_query block_all store
        (record { op_code = query_code; queries = query ∷ [] })
      ≡ answer query (canonical query) v)
    × Decided block_all store query (canonical query) v
plan_query_cases_example = plan_query_cases block_all store query []
