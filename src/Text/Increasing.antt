-- ===== src/Text/Increasing.antt =====
-- Lists in which a text of each element, its key, comes before those of all that follow: what
-- sorting and removing repeats leaves.
use ad_block.Base.{
  ◌≡◌, sym, subst, ◌∙◌, inl, inr, Bool, true, false, List, [], ◌∷◌, ◌++◌, arith, if◌then◌else◌,
  Bool-cases, retain, All, All-append, All-retain, sort_by, insert_sorted, All-sort_by,
  All-insert_sorted, IsSorted,
}
use ad_block.Text.{Text, text_eq}
use ad_block.Text.Laws.{eq_of_text_eq, text_eq_comm, text_eq_of_eq}
use ad_block.Text.Order.{text_le, text_le-total, text_le_trans, text_le_antisymm}

abbrev pub Before : Text → Text → Type 0
Before s t = (text_le s t ≡ true) × (text_eq s t ≡ false)

Before-trans : (s t u : Text) → Before s t → Before t u → Before s u
Before-trans s t u (h, n) (k, m) = (
  text_le_trans s t u h k,
  elim (Bool-cases (text_eq s u)) [
    | inl e ↦ absurd (
        ground (
          arith,
          text_eq_of_eq s t (
              text_le_antisymm s t h
                (subst (λ x. text_le t x ≡ true) (sym (eq_of_text_eq s u e)) k)),
        ))
    | inr e ↦ e
  ],
)

Before-of_not_le : (s t : Text) → text_le s t ≡ false → text_eq s t ≡ false → Before t s
Before-of_not_le s t h n = (text_le-total s t h, text_eq_comm t s ∙ n)

module _ {A : Type 0} where
  pub All-weaken : (P Q : A → Type 0) (xs : List A) → ((x : A) → P x → Q x) → All P xs → All Q xs
  All-weaken P Q [] f h = tt
  All-weaken P Q (x ∷ xs) f h = (f x h.0, All-weaken P Q xs f h.1)

module _ {A : Type 0} (key : A → Text) where
  abbrev pub key_le : A → A → Bool
  key_le x y = text_le (key x) (key y)

  -- Each key comes before those that follow.
  abbrev pub Increases : List A → Type 0
  Increases [] = Unit {0}
  Increases (x ∷ xs) = All (λ y. Before (key x) (key y)) xs × Increases xs

  -- No element of the list has the key.
  abbrev pub Fresh : Text → List A → Type 0
  Fresh s = All (λ y. text_eq s (key y) ≡ false)

  insert_sorted-Increases :
      (x : A) (ys : List A)
      → Fresh (key x) ys
      → Increases ys
      → Increases (insert_sorted key_le x ys)
  unfolding insert_sorted
  insert_sorted-Increases x [] f i = (tt, tt)
  insert_sorted-Increases x (y ∷ ys) f i = elim (Bool-cases (key_le x y)) [
    | inl e ↦
        let first : Before (key x) (key y) = (e, f.0) in
        rw e (
          (
            first,
            All-weaken _ (λ z. Before (key x) (key z)) ys
                (λ z. Before-trans (key x) (key y) (key z) first) i.0,
          ),
          i,
        )
    | inr e ↦ rw e (
      All-insert_sorted key_le (λ z. Before (key y) (key z)) x ys
          (Before-of_not_le (key x) (key y) e f.0) i.0,
      insert_sorted-Increases x ys f.1 i.1,
    )
  ]

  -- A new element behind an increasing list, and a sort.
  pub sort_by-Increases :
      (xs : List A) (x : A)
      → All (λ y. text_eq (key y) (key x) ≡ false) xs
      → Increases xs
      → Increases (sort_by key_le (xs ++ (x ∷ [])))
  unfolding sort_by insert_sorted
  sort_by-Increases [] x f i = (tt, tt)
  sort_by-Increases (y ∷ xs) x f i =
      insert_sorted-Increases y _
        (All-sort_by key_le _ (xs ++ (x ∷ []))
          (All-append _ xs (x ∷ []) (All-weaken _ _ xs (λ z b. b.1) i.0) (f.0, tt)))
        (sort_by-Increases xs x f.1 i.1)

  pub retain-Increases : (p : A → Bool) (xs : List A) → Increases xs → Increases (retain p xs)
  retain-Increases p [] i = tt
  retain-Increases p (x ∷ xs) i = elim (Bool-cases (p x)) [
    | inl e ↦ rw e (All-retain _ p xs i.0, retain-Increases p xs i.1)
    | inr e ↦ rw e (retain-Increases p xs i.1)
  ]

  insert_sorted-IsSorted :
      (x : A) (ys : List A) → IsSorted key_le ys → IsSorted key_le (insert_sorted key_le x ys)
  unfolding insert_sorted
  insert_sorted-IsSorted x [] s = (tt, tt)
  insert_sorted-IsSorted x (y ∷ ys) s = elim (Bool-cases (key_le x y)) [
    | inl e ↦ rw e ((e, All-weaken _ _ ys (λ z. text_le_trans (key x) (key y) (key z) e) s.0), s)
    | inr e ↦ rw e (
      All-insert_sorted key_le _ x ys (text_le-total (key x) (key y) e) s.0,
      insert_sorted-IsSorted x ys s.1,
    )
  ]

  sort_by-IsSorted : (xs : List A) → IsSorted key_le (sort_by key_le xs)
  unfolding sort_by
  sort_by-IsSorted [] = tt
  sort_by-IsSorted (x ∷ xs) = insert_sorted-IsSorted x _ (sort_by-IsSorted xs)

  -- `Vec::dedup_by_key`: of neighbours with one key the first stays.
  unfoldable pub dedup_from : A → List A → List A
  dedup_from x [] = []
  dedup_from x (y ∷ ys) = if text_eq (key y) (key x) then dedup_from x ys else y ∷ dedup_from y ys

  unfoldable pub dedup : List A → List A
  unfolding dedup_from
  dedup [] = []
  dedup (x ∷ xs) = x ∷ dedup_from x xs

  dedup_from-Increases :
      (x : A) (ys : List A) → IsSorted key_le (x ∷ ys) → Increases (x ∷ dedup_from x ys)
  unfolding dedup_from
  dedup_from-Increases x [] s = (tt, tt)
  dedup_from-Increases x (y ∷ ys) s = elim (Bool-cases (text_eq (key y) (key x))) [
    | inl e ↦ rw e (dedup_from-Increases x ys (s.0.1, s.1.1))
    | inr e ↦
        let rest = dedup_from-Increases y ys s.1 in
        let first : Before (key x) (key y) = (s.0.0, text_eq_comm (key x) (key y) ∙ e) in
        rw e (
          (
            first,
            All-weaken _ _ (dedup_from y ys) (λ z. Before-trans (key x) (key y) (key z) first)
                rest.0,
          ),
          rest,
        )
  ]

  pub dedup-Increases : (xs : List A) → Increases (dedup (sort_by key_le xs))
  dedup-Increases xs = go (sort_by key_le xs) (sort_by-IsSorted xs)
    where
      go : (ys : List A) → IsSorted key_le ys → Increases (dedup ys)
      go [] s = unfold dedup in tt
      go (y ∷ ys) s = unfold dedup in dedup_from-Increases y ys s
