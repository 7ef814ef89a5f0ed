-- ===== src/Tests/Rewrites.antt =====
-- The DNS records, at concrete inputs.
use ad_block.Base.{◌≡◌, refl, inl, inr, true, false, List, [], ◌∷◌, none, In}
use ad_block.Dns.Rewrites.{
  Rewrite, v4, cname, RewriteStore, matching, candidates, max_by_specificity, max_from,
  pattern_matches, pattern_specificity, specificity_le, answers_of,
}
use ad_block.Dns.Rewrites.Exclusive.{Command, run, Exclusive, run-Exclusive}
use ad_block.Dns.Rewrites.Match.{Outcome, IsBest, Applies, Le, matching_best, matching_of_best}
use ad_block.Dns.Rewrites.Patterns.{specificity_injective}
use ad_block.Dns.Rewrites.Single.{matching_cname}
use ad_block.Persist.{Write, written, failed}
use ad_block.Text.{Text, codes, text_eq, strip_prefix, ends_with, byte_len, len_utf8}

abbrev exact : Text
exact = codes "a.test"

abbrev wild : Text
wild = codes "*.test"

abbrev name : Text
name = codes "b.a.test"

abbrev host : Rewrite
host = record {
  domain = exact;
  answer = v4 (record { a = 10; b = 0; c = 0; d = 1 });
  enabled = true;
}

abbrev alias : Rewrite
alias = record { domain = wild; answer = cname (codes "c.test"); enabled = true }

abbrev store : RewriteStore
store = record { entries = alias ∷ host ∷ []; header = []; file = none }

abbrev empty_store : RewriteStore
empty_store = record { entries = []; header = []; file = none }

-- A record, a CNAME on its domain that is refused, a write that fails, and a removal.
abbrev commands : List (Command × Write)
commands =
    (Command.adds exact (codes "10.0.0.1"), written)
    ∷ (Command.adds exact (codes "c.test"), written)
    ∷ (Command.sets_enabled exact (codes "10.0.0.1") false, failed none)
    ∷ (Command.removes wild (codes "c.test"), written)
    ∷ []

run-Exclusive_example : Exclusive (run commands empty_store).entries
run-Exclusive_example = run-Exclusive commands empty_store tt

matching_best_example : Outcome store exact (matching store exact)
matching_best_example = matching_best store exact

program : Unit {0}
unfolding matching candidates max_by_specificity max_from pattern_matches pattern_specificity
    specificity_le answers_of text_eq strip_prefix ends_with byte_len len_utf8
program = tt

-- The exact record wins over the wildcard.
host-IsBest : IsBest store exact host
unfolding program
host-IsBest = ((inr (inl refl), refl, refl), below)
  where
    below : (r : Rewrite) → Applies store exact r → Le r.domain host.domain
    below r (inl e, on, m) = rw e refl
    below r (inr (inl e), on, m) = rw e refl
    below r (inr (inr x), on, m) = absurd x

matching_of_best_example : matching store exact ≡ answers_of store.entries exact
matching_of_best_example = matching_of_best store exact host host-IsBest

alias_answers : In (cname (codes "c.test")) (matching store name)
unfolding program
alias_answers = inl refl

store-Exclusive : Exclusive store.entries
unfolding program
store-Exclusive = ((λ e. absurd (cc e), tt), (tt, tt))

matching_cname_example : matching store name ≡ cname (codes "c.test") ∷ []
matching_cname_example = matching_cname store name (codes "c.test") store-Exclusive alias_answers

covered : pattern_matches wild name ≡ true
unfolding program
covered = refl

specificity_injective_example : wild ≡ wild
specificity_injective_example = specificity_injective wild wild name covered covered refl
