-- ===== src/Tests/Lists.antt =====
-- Filter lists, at concrete inputs.
use ad_block.Base.{◌≡◌, refl, true, false, [], ◌∷◌, ◌++◌, none, some}
use ad_block.Adblock.Commands.{replace}
use ad_block.Adblock.Curation.{Curation}
use ad_block.Adblock.Curation.Unique.{NamesDiffer, add, apply, switch, run, run-NamesDiffer}
use ad_block.Adblock.Lists.{header, entry_from_text, entry_of, disabled_mark}
use ad_block.Adblock.Lists.Stored.{entry_from_text-header}
use ad_block.Text.{Text, codes, strip_prefix}

abbrev rules : Text
rules = codes "||ads.test^"

unmarked : strip_prefix disabled_mark rules ≡ none
unfolding strip_prefix
unmarked = refl

entry_from_text-header_example :
    entry_from_text (codes "file") [] (header (codes "web ui") false ++ rules)
    ≡ entry_of (codes "file") (codes "web ui") (false, rules)
entry_from_text-header_example =
    entry_from_text-header (codes "file") [] (codes "web ui") rules false refl (λ e. unmarked)

abbrev start : Curation
start = record { lists = []; stored = [] }

run-NamesDiffer_example :
    NamesDiffer
      (run
        (λ t. t)
        (add true (codes "a b") (codes "web ui") rules
          ∷ apply true (some (codes "a-b")) rules replace
          ∷ switch true (codes "a-b") false
          ∷ [])
        start).lists
run-NamesDiffer_example =
    run-NamesDiffer (λ t. t)
      (add true (codes "a b") (codes "web ui") rules
        ∷ apply true (some (codes "a-b")) rules replace
        ∷ switch true (codes "a-b") false
        ∷ [])
      start tt
