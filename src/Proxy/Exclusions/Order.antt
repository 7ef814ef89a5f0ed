-- ===== src/Proxy/Exclusions/Order.antt =====
-- The invariant of the exclusions: the domains increase, so that none is there twice.
use ad_block.Base.{
  ◌≡◌, inl, inr, Bool, true, false, List, [], ◌∷◌, Option, arith, if◌then◌else◌, Bool-cases,
  is_empty, any, All, err,
}
use ad_block.Persist.{config, Write, mutate, load}
use ad_block.Persist.Mutate.{mutate-keeps}
use ad_block.Proxy.Exclusions.{
  Exclusion, ExclusionStore, exclusion_entry, normalize, add_entry, remove_entry, set_first,
  set_enabled_entry, load_exclusions, add, remove, set_enabled,
}
use ad_block.Text.{Text, text_eq}
use ad_block.Text.Increasing.{
  Before, Increases, sort_by-Increases, retain-Increases, dedup-Increases,
}

abbrev pub Ordered : List Exclusion → Type 0
Ordered = Increases (λ e. e.domain)

absent :
    (d : Text) (es : List Exclusion)
    → any (λ e. text_eq e.domain d) es ≡ false
    → All (λ e. text_eq e.domain d ≡ false) es
absent d [] h = tt
absent d (e ∷ es) h = (ground arith, absent d es (ground arith))

add_entry-Ordered : (d : Text) (es : List Exclusion) → Ordered es → Ordered (add_entry d es).2
unfolding add_entry
add_entry-Ordered d es o = elim (Bool-cases (any (λ e. text_eq e.domain d) es)) [
  | inl h ↦ rw h o
  | inr h ↦ rw h (
      sort_by-Increases (λ e. e.domain) es (record { domain = d; enabled = true }) (absent d es h)
        o)
]

set_first-All :
    (P : Text → Type 0) (d : Text) (b : Bool) (es : List Exclusion)
    → All (λ e. P e.domain) es
    → All (λ e. P e.domain) (set_first d b es)
unfolding set_first
set_first-All P d b [] h = tt
set_first-All P d b (e ∷ es) h = elim (Bool-cases (text_eq e.domain d)) [
  | inl k ↦ rw k h
  | inr k ↦ rw k (h.0, set_first-All P d b es h.1)
]

set_first-Ordered :
    (d : Text) (b : Bool) (es : List Exclusion) → Ordered es → Ordered (set_first d b es)
unfolding set_first
set_first-Ordered d b [] o = tt
set_first-Ordered d b (e ∷ es) o = elim (Bool-cases (text_eq e.domain d)) [
  | inl k ↦ rw k o
  | inr k ↦ rw k (set_first-All (Before e.domain) d b es o.0, set_first-Ordered d b es o.1)
]

set_enabled_entry-Ordered :
    (d : Text) (b : Bool) (es : List Exclusion) → Ordered es → Ordered (set_enabled_entry d b es).2
unfolding set_enabled_entry
set_enabled_entry-Ordered d b es o = ground (arith, o, set_first-Ordered d b es o)

pub data Command : Type 0 where
  adds removes : Text → Command
  sets_enabled : Text → Bool → Command

module _ (to_lowercase : Text → Text) where
  -- One command of the admin interface, with what becomes of its write.
  unfoldable pub step : Command × Write → ExclusionStore → ExclusionStore
  step (adds d, w) s = (add to_lowercase d w s).1
  step (removes d, w) s = (remove to_lowercase d w s).1
  step (sets_enabled d b, w) s = (set_enabled to_lowercase d b w s).1

  unfoldable pub run : List (Command × Write) → ExclusionStore → ExclusionStore
  unfolding step
  run [] s = s
  run (c ∷ cs) s = run cs (step c s)

  added-Ordered :
      (d : Text) (w : Write) (s : ExclusionStore)
      → Ordered s.entries
      → Ordered
          (if is_empty d
            then (err config, s)
            else mutate (exclusion_entry to_lowercase) (add_entry d) w s).1.entries
  added-Ordered d w s o = elim (Bool-cases (is_empty d)) [
    | inl h ↦ rw h o
    | inr h ↦ rw h (
        mutate-keeps (exclusion_entry to_lowercase) (add_entry d) Ordered w s o
          (add_entry-Ordered d s.entries o))
  ]

  step-Ordered :
      (c : Command × Write) (s : ExclusionStore) → Ordered s.entries → Ordered (step c s).entries
  unfolding step add remove set_enabled remove_entry
  step-Ordered (adds d, w) s o = added-Ordered (normalize to_lowercase d) w s o
  step-Ordered (removes d, w) s o =
      mutate-keeps (exclusion_entry to_lowercase) (remove_entry (normalize to_lowercase d)) Ordered
        w s o (retain-Increases (λ e. e.domain) _ s.entries o)
  step-Ordered (sets_enabled d b, w) s o =
      mutate-keeps (exclusion_entry to_lowercase) _ Ordered w s o
        (set_enabled_entry-Ordered (normalize to_lowercase d) b s.entries o)

  pub run_from-Ordered :
      (cs : List (Command × Write)) (s : ExclusionStore)
      → Ordered s.entries
      → Ordered (run cs s).entries
  unfolding run
  run_from-Ordered [] s o = o
  run_from-Ordered (c ∷ cs) s o = run_from-Ordered cs (step c s) (step-Ordered c s o)

  -- Whatever to_lowercase does, an exclusion list loaded from any file has, after any sequence of
  -- add, remove and set_enabled with any outcome of their writes, strictly increasing domains, so
  -- that none is there twice.
  pub run-Ordered :
      (file : Option Text) (cs : List (Command × Write))
      → Ordered (run cs (load_exclusions to_lowercase file)).entries
  run-Ordered file cs =
      run_from-Ordered cs _ (unfold load_exclusions load in dedup-Increases (λ e. e.domain) _)
