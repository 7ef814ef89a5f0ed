-- ===== src/Stats/Exclude/Order.antt =====
-- The exclusions of the statistics: their order, and what an addition does to the hosts excluded.
use ad_block.Base.{
  ◌≡◌, refl, ap, ◌∙◌, inl, inr, Bool, true, false, not, ◌&&◌, ◌||◌, List, [], ◌∷◌, ◌++◌, Option,
  arith, if◌then◌else◌, Bool-cases, is_empty, any, All, sort_by, insert_sorted, err,
}
use ad_block.Persist.{Write, written, config, mutate, load, persist}
use ad_block.Persist.Mutate.{mutate-keeps}
use ad_block.Stats.Exclude.{
  StatsExclusions, domain_entry, normalize, within, excludes, add_entry, remove_entry,
  load_exclusions, add, remove,
}
use ad_block.Text.{Text, text_eq}
use ad_block.Text.Increasing.{
  Increases, key_le, sort_by-Increases, retain-Increases, dedup-Increases,
}
use ad_block.Text.Laws.{eq_of_text_eq}

abbrev pub Ascending : List Text → Type 0
Ascending = Increases (λ d. d)

absent :
    (d : Text) (ds : List Text)
    → any (λ e. text_eq e d) ds ≡ false
    → All (λ e. text_eq e d ≡ false) ds
absent d [] h = tt
absent d (e ∷ ds) h = (ground arith, absent d ds (ground arith))

add_entry-Ascending : (d : Text) (ds : List Text) → Ascending ds → Ascending (add_entry d ds).2
unfolding add_entry
add_entry-Ascending d ds o = elim (Bool-cases (any (λ e. text_eq e d) ds)) [
  | inl h ↦ rw h o
  | inr h ↦ rw h (sort_by-Increases (λ e. e) ds d (absent d ds h) o)
]

pub data Command : Type 0 where
  adds removes : Text → Command

any-insert_sorted :
    (p : Text → Bool) (x : Text) (xs : List Text)
    → any p (insert_sorted (key_le (λ d. d)) x xs) ≡ (p x || any p xs)
unfolding insert_sorted
any-insert_sorted p x [] = refl
any-insert_sorted p x (y ∷ ys) = elim (Bool-cases (key_le (λ d. d) x y)) [
  | inl e ↦ rw e
  | inr e ↦ rw e (ground (arith, any-insert_sorted p x ys))
]

any-sort_by : (p : Text → Bool) (xs : List Text) → any p (sort_by (key_le (λ d. d)) xs) ≡ any p xs
unfolding sort_by
any-sort_by p [] = refl
any-sort_by p (x ∷ xs) = any-insert_sorted p x _ ∙ ap (λ b. p x || b) (any-sort_by p xs)

any-append_one :
    (p : Text → Bool) (xs : List Text) (x : Text) → any p (xs ++ (x ∷ [])) ≡ (any p xs || p x)
any-append_one p [] x = ground arith
any-append_one p (y ∷ ys) x = ground (arith, any-append_one p ys x)

-- An element that is there already adds nothing.
any_there :
    (p : Text → Bool) (d : Text) (xs : List Text)
    → any (λ e. text_eq e d) xs ≡ true
    → any p xs ≡ (any p xs || p d)
any_there p d [] h = cc
any_there p d (x ∷ xs) h = elim (Bool-cases (text_eq x d)) [
  | inl e ↦ rw (eq_of_text_eq x d e) (ground arith)
  | inr e ↦ ground (arith, any_there p d xs (ground arith))
]

any-add_entry :
    (p : Text → Bool) (d : Text) (xs : List Text) → any p (add_entry d xs).2 ≡ (any p xs || p d)
unfolding add_entry
any-add_entry p d xs = elim (Bool-cases (any (λ e. text_eq e d) xs)) [
  | inl h ↦ rw h (any_there p d xs h)
  | inr h ↦ rw h (any-sort_by p (xs ++ (d ∷ [])) ∙ any-append_one p xs d)
]

module _ (to_lowercase : Text → Text) where
  unfoldable pub step : Command × Write → StatsExclusions → StatsExclusions
  step (adds d, w) s = (add to_lowercase d w s).1
  step (removes d, w) s = (remove to_lowercase d w s).1

  unfoldable pub run : List (Command × Write) → StatsExclusions → StatsExclusions
  unfolding step
  run [] s = s
  run (c ∷ cs) s = run cs (step c s)

  added-Ascending :
      (d : Text) (w : Write) (s : StatsExclusions)
      → Ascending s.entries
      → Ascending
          (if is_empty d
            then (err config, s)
            else mutate (domain_entry to_lowercase) (add_entry d) w s).1.entries
  added-Ascending d w s o = elim (Bool-cases (is_empty d)) [
    | inl h ↦ rw h o
    | inr h ↦ rw h (
        mutate-keeps (domain_entry to_lowercase) (add_entry d) Ascending w s o
          (add_entry-Ascending d s.entries o))
  ]

  step-Ascending :
      (c : Command × Write) (s : StatsExclusions)
      → Ascending s.entries
      → Ascending (step c s).entries
  unfolding step add remove remove_entry
  step-Ascending (adds d, w) s o = added-Ascending (normalize to_lowercase d) w s o
  step-Ascending (removes d, w) s o =
      mutate-keeps (domain_entry to_lowercase) (remove_entry (normalize to_lowercase d)) Ascending w
        s o (retain-Increases (λ e. e) _ s.entries o)

  run_from-Ascending :
      (cs : List (Command × Write)) (s : StatsExclusions)
      → Ascending s.entries
      → Ascending (run cs s).entries
  unfolding run
  run_from-Ascending [] s o = o
  run_from-Ascending (c ∷ cs) s o = run_from-Ascending cs (step c s) (step-Ascending c s o)

  -- Whatever to_lowercase does, the statistics' exclusions loaded from any file are, after any
  -- sequence of add and remove with any outcome of their writes, strictly increasing.
  pub run-Ascending :
      (file : Option Text) (cs : List (Command × Write))
      → Ascending (run cs (load_exclusions to_lowercase file)).entries
  run-Ascending file cs =
      run_from-Ascending cs _ (unfold load_exclusions load in dedup-Increases (λ e. e) _)

  written_add :
      (n : Text) (s : StatsExclusions)
      → is_empty n ≡ false
      → (if is_empty n
          then (err config, s)
          else mutate (domain_entry to_lowercase) (add_entry n) written s).1.entries
        ≡ (add_entry n s.entries).2
  unfolding mutate persist add_entry
  written_add n s h = rw h

  -- Whatever to_lowercase does, if a domain is not empty when normalised, then after it is added
  -- with a successful write a host is excluded exactly if it was before, or it is not empty and is
  -- the normalised domain or a subdomain of it.
  pub excludes-add :
      (host domain : Text) (s : StatsExclusions)
      → is_empty (normalize to_lowercase domain) ≡ false
      → excludes (add to_lowercase domain written s).1 host
        ≡ (excludes s host || (not (is_empty host) && within host (normalize to_lowercase domain)))
  unfolding excludes add
  excludes-add host domain s h = elim (Bool-cases (is_empty host)) [
    | inl e ↦ rw e
    | inr e ↦
        let n = normalize to_lowercase domain in
        rw e (ap (any (within host)) (written_add n s h) ∙ any-add_entry (within host) n s.entries)
  ]
