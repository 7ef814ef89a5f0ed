-- ===== src/Dns/Rewrites/Exclusive.antt =====
-- The invariant of the records: a CNAME is the only record of its domain, and no record is there
-- twice.
use ad_block.Base.{
  ◌≡◌, refl, ◌∙◌, ◌⊎◌, inl, inr, Bool, true, false, List, [], ◌∷◌, ◌++◌, arith, Bool-cases, retain,
  any, All, All-append, All-retain, sort_by, insert_sorted, All-sort_by, All-insert_sorted, ok, err,
  Result,
}
use ad_block.Dns.Rewrites.{
  Rewrite, RewriteAnswer, v4, cname, RewriteStore, rewrite_entry, is_cname, answer_eq, same_record,
  conflicts, add_entry, remove_entry, set_first, set_enabled_entry, add, remove, set_enabled,
  read_arguments, rewrite_le, flatten, points_at_itself,
}
use ad_block.Persist.{Write, mutate, Error}
use ad_block.Persist.Mutate.{mutate-keeps}
use ad_block.Text.{Text, text_eq}
use ad_block.Text.Laws.{text_eq_comm}

-- Two records that may stand side by side.
abbrev pub Compat : Rewrite → Rewrite → Type 0
Compat r q =
    text_eq r.domain q.domain ≡ true
    → (is_cname r.answer ≡ false)
      × (is_cname q.answer ≡ false)
      × (answer_eq r.answer q.answer ≡ false)

abbrev pub Exclusive : List Rewrite → Type 0
Exclusive [] = Unit {0}
Exclusive (r ∷ rs) = All (Compat r) rs × Exclusive rs

answer_eq_comm : (a b : RewriteAnswer) → answer_eq a b ≡ answer_eq b a
unfolding answer_eq
answer_eq_comm (v4 i) (v4 j) = ground arith
answer_eq_comm (cname s) (cname t) = text_eq_comm s t
answer_eq_comm (v4 i) (cname t) = refl
answer_eq_comm (cname s) (v4 j) = refl

Compat-comm : (r q : Rewrite) → Compat r q → Compat q r
Compat-comm r q h e =
    ground (arith, h (text_eq_comm r.domain q.domain ∙ e), answer_eq_comm r.answer q.answer)

All-Compat-comm : (r : Rewrite) (rs : List Rewrite) → All (λ q. Compat q r) rs → All (Compat r) rs
All-Compat-comm r [] h = tt
All-Compat-comm r (q ∷ rs) h = (Compat-comm q r h.0, All-Compat-comm r rs h.1)

insert_sorted-Exclusive :
    (r : Rewrite) (rs : List Rewrite)
    → All (Compat r) rs
    → Exclusive rs
    → Exclusive (insert_sorted rewrite_le r rs)
unfolding insert_sorted
insert_sorted-Exclusive r [] h x = (tt, tt)
insert_sorted-Exclusive r (q ∷ rs) h x = elim (Bool-cases (rewrite_le r q)) [
  | inl e ↦ rw e (h, x)
  | inr e ↦ rw e (
    All-insert_sorted rewrite_le (Compat q) r rs (Compat-comm r q h.0) x.0,
    insert_sorted-Exclusive r rs h.1 x.1,
  )
]

sort_by-Exclusive : (rs : List Rewrite) → Exclusive rs → Exclusive (sort_by rewrite_le rs)
unfolding sort_by
sort_by-Exclusive [] x = tt
sort_by-Exclusive (r ∷ rs) x =
    insert_sorted-Exclusive r _ (All-sort_by rewrite_le (Compat r) rs x.0)
      (sort_by-Exclusive rs x.1)

append-Exclusive :
    (rs : List Rewrite) (r : Rewrite)
    → Exclusive rs
    → All (λ q. Compat q r) rs
    → Exclusive (rs ++ (r ∷ []))
append-Exclusive [] r x h = (tt, tt)
append-Exclusive (q ∷ rs) r x h =
    (All-append (Compat q) rs (r ∷ []) x.0 (h.0, tt), append-Exclusive rs r x.1 h.1)

Compat-of_checks :
    (rs : List Rewrite) (r : Rewrite)
    → any (λ q. same_record q r.domain r.answer) rs ≡ false
    → conflicts rs r ≡ false
    → All (λ q. Compat q r) rs
unfolding conflicts same_record
Compat-of_checks [] r h k = tt
Compat-of_checks (q ∷ rs) r h k =
    (ground arith, Compat-of_checks rs r (ground arith) (ground arith))

add_entry-Exclusive :
    (r : Rewrite) (rs : List Rewrite) → Exclusive rs → Exclusive (add_entry r rs).2
unfolding add_entry
add_entry-Exclusive r rs x = elim (Bool-cases (any (λ q. same_record q r.domain r.answer) rs)) [
  | inl e ↦ rw e x
  | inr e ↦ elim (Bool-cases (conflicts rs r)) [
    | inl f ↦ rw e (rw f x)
    | inr f ↦ rw e (
        rw f (
          sort_by-Exclusive (rs ++ (r ∷ [])) (append-Exclusive rs r x (Compat-of_checks rs r e f))))
  ]
]

retain-Exclusive : (p : Rewrite → Bool) (rs : List Rewrite) → Exclusive rs → Exclusive (retain p rs)
retain-Exclusive p [] x = tt
retain-Exclusive p (r ∷ rs) x = elim (Bool-cases (p r)) [
  | inl e ↦ rw e (All-retain (Compat r) p rs x.0, retain-Exclusive p rs x.1)
  | inr e ↦ rw e (retain-Exclusive p rs x.1)
]

set_first-All :
    (q : Rewrite) (d : Text) (a : RewriteAnswer) (b : Bool) (rs : List Rewrite)
    → All (Compat q) rs
    → All (Compat q) (set_first d a b rs)
unfolding set_first
set_first-All q d a b [] h = tt
set_first-All q d a b (r ∷ rs) h = elim (Bool-cases (same_record r d a)) [
  | inl e ↦ rw e h
  | inr e ↦ rw e (h.0, set_first-All q d a b rs h.1)
]

set_first-Exclusive :
    (d : Text) (a : RewriteAnswer) (b : Bool) (rs : List Rewrite)
    → Exclusive rs
    → Exclusive (set_first d a b rs)
unfolding set_first
set_first-Exclusive d a b [] x = tt
set_first-Exclusive d a b (r ∷ rs) x = elim (Bool-cases (same_record r d a)) [
  | inl e ↦ rw e x
  | inr e ↦ rw e (set_first-All r d a b rs x.0, set_first-Exclusive d a b rs x.1)
]

set_enabled_entry-Exclusive :
    (d : Text) (a : RewriteAnswer) (b : Bool) (rs : List Rewrite)
    → Exclusive rs
    → Exclusive (set_enabled_entry d a b rs).2
unfolding set_enabled_entry
set_enabled_entry-Exclusive d a b rs x = ground (arith, x, set_first-Exclusive d a b rs x)

read_cases : {E A : Type 0} (r : Result E A) → ((e : E) × (r ≡ err e)) ⊎ ((a : A) × (r ≡ ok a))
read_cases (err e) = inl (e, refl)
read_cases (ok a) = inr (a, refl)

flatten-entries : (o : Result Error (Result Error (Unit {0})) × RewriteStore) → (flatten o).1 ≡ o.1
flatten-entries (ok r, t) = refl
flatten-entries (err e, t) = refl

-- `add` keeps the invariant, on every branch and whatever becomes of the write.
pub add-Exclusive :
    (domain answer : Text) (w : Write) (s : RewriteStore)
    → Exclusive s.entries
    → Exclusive (add domain answer w s).1.entries
unfolding add
add-Exclusive domain answer w s x = elim (read_cases (read_arguments domain answer)) [
  | inl (e, h) ↦ rw (h, add) x
  | inr ((d, a), h) ↦ elim (Bool-cases (points_at_itself a d)) [
    | inl self ↦ rw (h, add) (rw self x)
    | inr other ↦
        let r : Rewrite = record { domain = d; answer = a; enabled = true } in
        rw (h, add)
          (rw (other, flatten-entries (mutate rewrite_entry (add_entry r) w s))
            (mutate-keeps rewrite_entry (add_entry r) Exclusive w s x
              (add_entry-Exclusive r s.entries x)))
  ]
]

-- So do `remove` and `set_enabled`.
pub remove-Exclusive :
    (domain answer : Text) (w : Write) (s : RewriteStore)
    → Exclusive s.entries
    → Exclusive (remove domain answer w s).1.entries
unfolding remove remove_entry
remove-Exclusive domain answer w s x = elim (read_cases (read_arguments domain answer)) [
  | inl (e, h) ↦ rw (h, remove) x
  | inr ((d, a), h) ↦
      rw (h, remove)
        (mutate-keeps rewrite_entry (remove_entry d a) Exclusive w s x
          (retain-Exclusive _ s.entries x))
]

pub set_enabled-Exclusive :
    (domain answer : Text) (enabled : Bool) (w : Write) (s : RewriteStore)
    → Exclusive s.entries
    → Exclusive (set_enabled domain answer enabled w s).1.entries
unfolding set_enabled
set_enabled-Exclusive domain answer enabled w s x =
    elim (read_cases (read_arguments domain answer)) [
      | inl (e, h) ↦ rw (h, set_enabled) x
      | inr ((d, a), h) ↦
          rw (h, set_enabled)
            (mutate-keeps rewrite_entry (set_enabled_entry d a enabled) Exclusive w s x
              (set_enabled_entry-Exclusive d a enabled s.entries x))
    ]

pub data Command : Type 0 where
  adds removes : Text → Text → Command
  sets_enabled : Text → Text → Bool → Command

-- One command of the admin interface, with what becomes of its write.
unfoldable pub step : Command × Write → RewriteStore → RewriteStore
step (adds d a, w) s = (add d a w s).1
step (removes d a, w) s = (remove d a w s).1
step (sets_enabled d a b, w) s = (set_enabled d a b w s).1

unfoldable pub run : List (Command × Write) → RewriteStore → RewriteStore
unfolding step
run [] s = s
run (c ∷ cs) s = run cs (step c s)

step-Exclusive :
    (c : Command × Write) (s : RewriteStore) → Exclusive s.entries → Exclusive (step c s).entries
unfolding step
step-Exclusive (adds d a, w) s x = add-Exclusive d a w s x
step-Exclusive (removes d a, w) s x = remove-Exclusive d a w s x
step-Exclusive (sets_enabled d a b, w) s x = set_enabled-Exclusive d a b w s x

-- If no record of the store is there twice and no CNAME shares its domain with another record, then
-- the same holds after any sequence of add, remove and set_enabled, each with any outcome of its
-- write.
pub run-Exclusive :
    (cs : List (Command × Write)) (s : RewriteStore)
    → Exclusive s.entries
    → Exclusive (run cs s).entries
unfolding run
run-Exclusive [] s x = x
run-Exclusive (c ∷ cs) s x = run-Exclusive cs (step c s) (step-Exclusive c s x)
