-- ===== src/Tests/SetFile.antt =====
-- The set file, at concrete inputs.
use ad_block.Base.{◌≡◌, ◌≢◌, ◌⊎◌, Bool, true, false, List, [], ◌∷◌, some, ok, err}
use ad_block.Persist.{Entry, config, written, failed, PersistedSet, mutate, body}
use ad_block.Persist.Mutate.{mutate_atomic}
use ad_block.Text.{Text, codes}

abbrev plain : Entry Text
plain = record { parse = λ t. some t; format = λ t. t }

abbrev names : PersistedSet Text
names = record { entries = codes "a" ∷ []; header = codes "# names"; file = some (codes "a") }

abbrev push_name : List Text → Bool × Bool × List Text
push_name ts = (true, true, codes "b" ∷ ts)

-- A write that leaves an empty file behind.
mutate_atomic_example :
    ((true ≡ false) × (mutate plain push_name (failed (some [])) names ≡ (ok true, names)))
    ⊎ ((true ≡ true)
        × (failed (some []) ≡ written)
        × ((mutate plain push_name (failed (some [])) names).0 ≡ ok true)
        × ((mutate plain push_name (failed (some [])) names).1.entries ≡ codes "b" ∷ names.entries)
        × ((mutate plain push_name (failed (some [])) names).1.file
            ≡ some (body plain names.header (codes "b" ∷ names.entries))))
    ⊎ ((true ≡ true)
        × (failed (some []) ≢ written)
        × ((mutate plain push_name (failed (some [])) names).0 ≡ err config)
        × ((mutate plain push_name (failed (some [])) names).1.entries ≡ names.entries))
mutate_atomic_example = mutate_atomic plain push_name (failed (some [])) names
