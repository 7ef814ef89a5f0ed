-- ===== src/Base/Arrangement.antt =====
-- Lists of numbers without repeats: rotations, and moves to the front.
use Prim.Native.Nat.{ℕ, zero, suc, ◌+◌, ◌-◌, ◌%◌, ◌≤◌, ◌<◌}
use mathlib.Core.Path.{◌≡◌, refl, sym, ap, subst, ◌∙◌}
use mathlib.Core.Logic.{◌⊎◌, inl, inr}
use mathlib.Core.Bool.{Bool, false, not, ◌||◌}
use mathlib.Core.List.{List, [], ◌∷◌, ◌++◌, Perm, perm_append_comm}
use mathlib.Core.List.Perm
use mathlib.Core.Bool.{Bool-set}
use mathlib.Core.List.{Permᴰ}
use mathlib.Core.Logic.{∥∥₁_elim}
use native.Mathlib.Nat.{mod-eq_of_lt, add-mod_right}
use native.Mathlib.Omega.{arith}
use ad_block.Base.Tests.{◌==◌, Bool-cases}
use ad_block.Base.Lists.{length, take, drop, get_or, retain, any, All, In}
use ad_block.Base.Sort.{sort_by, insert_sorted, All-insert_sorted, All-sort_by}

abbrev pub Other : ℕ → ℕ → Type 0
Other i j = (j == i) ≡ false

abbrev pub Distinct : List ℕ → Type 0
Distinct [] = Unit {0}
Distinct (i ∷ is) = All (Other i) is × Distinct is

others : (p : ℕ) (xs : List ℕ) → All (Other p) xs → retain (λ i. not (i == p)) xs ≡ xs
others p [] h = refl
others p (x ∷ xs) h = ground (arith, others p xs h.1)

-- One element goes to the front.
pub move_front-perm :
    (p : ℕ) (xs : List ℕ) → In p xs → Distinct xs → Perm (p ∷ retain (λ i. not (i == p)) xs) xs
move_front-perm p [] i d = absurd i
move_front-perm p (x ∷ xs) i d = elim (Bool-cases (x == p)) [
  | inl e ↦
      let same : x ≡ p = ground arith in
      let rest : retain (λ j. not (j == p)) xs ≡ xs =
        others p xs (subst (λ y. All (Other y) xs) same d.0) in
      rw e (rw rest (rw same (Perm.refl (p ∷ xs))))
  | inr e ↦ elim i [
    | inl k ↦ absurd (ground arith)
    | inr j ↦ rw e (
        Perm.trans (Perm.swap x p (retain (λ k. not (k == p)) xs))
          (Perm.cons x (move_front-perm p xs j d.1)))
  ]
]

insert_sorted-Distinct :
    (le : ℕ → ℕ → Bool) (x : ℕ) (xs : List ℕ)
    → All (Other x) xs
    → Distinct xs
    → Distinct (insert_sorted le x xs)
unfolding insert_sorted
insert_sorted-Distinct le x [] h d = (tt, tt)
insert_sorted-Distinct le x (y ∷ ys) h d = elim (Bool-cases (le x y)) [
  | inl e ↦ rw e (h, d)
  | inr e ↦
      let apart : Other y x = ground (arith, h.0) in
      rw e (All-insert_sorted le (Other y) x ys apart d.0, insert_sorted-Distinct le x ys h.1 d.1)
]

pub sort_by-Distinct : (le : ℕ → ℕ → Bool) (xs : List ℕ) → Distinct xs → Distinct (sort_by le xs)
unfolding sort_by
sort_by-Distinct le [] d = tt
sort_by-Distinct le (x ∷ xs) d =
    insert_sorted-Distinct le x _ (All-sort_by le (Other x) xs d.0) (sort_by-Distinct le xs d.1)

pub take-drop : {A : Type 0} (n : ℕ) (xs : List A) → take n xs ++ drop n xs ≡ xs
take-drop zero xs = refl
take-drop (suc n) [] = refl
take-drop (suc n) (x ∷ xs) = ap (◌∷◌ x) (take-drop n xs)

pub rotation-perm : (n : ℕ) (xs : List ℕ) → Perm (drop n xs ++ take n xs) xs
rotation-perm n xs =
    subst (Perm (drop n xs ++ take n xs)) (take-drop n xs)
      (perm_append_comm (drop n xs) (take n xs))

-- The elements from a place on, round the end: `(0..n).map(|k| xs[(start + k) % n])`.
unfoldable pub round_from : List ℕ → ℕ → ℕ → ℕ → List ℕ
round_from xs start zero k = []
round_from xs start (suc r) k =
    get_or xs ((start + k) % length xs) 0 ∷ round_from xs start r (k + 1)

drop_step : (i : ℕ) (xs : List ℕ) → i < length xs → drop i xs ≡ get_or xs i 0 ∷ drop (suc i) xs
drop_step i [] h = absurd (omega arith)
drop_step zero (x ∷ xs) h = refl
drop_step (suc i) (x ∷ xs) h = drop_step i xs (omega arith)

-- A stretch that stands at `i` in the list.
round_from-take :
    (xs : List ℕ) (start r k i : ℕ)
    → i + r ≤ length xs
    → ((start + k ≡ i) ⊎ (start + k ≡ i + length xs))
    → round_from xs start r k ≡ take r (drop i xs)
unfolding round_from
round_from-take xs start zero k i h e = refl
round_from-take xs start (suc r) k i h e =
    let fits : i < length xs = omega arith in
    let place : (start + k) % length xs ≡ i = elim e [
      | inl a ↦ ap (λ j. j % length xs) a ∙ mod-eq_of_lt fits
      | inr a ↦ ap (λ j. j % length xs) a ∙ add-mod_right i (length xs) ∙ mod-eq_of_lt fits
    ] in
    let next : (start + (k + 1) ≡ suc i) ⊎ (start + (k + 1) ≡ suc i + length xs) = elim e [
      | inl a ↦ inl (omega arith)
      | inr a ↦ inr (omega arith)
    ] in
    let rest = round_from-take xs start r (k + 1) (suc i) (omega arith) next in
    ap (λ j. get_or xs j 0 ∷ round_from xs start r (k + 1)) place
    ∙ ap (◌∷◌ (get_or xs i 0)) rest
    ∙ ap (take (suc r)) (sym (drop_step i xs (omega arith)))

round_from-add :
    (xs : List ℕ) (start a b k : ℕ)
    → round_from xs start (a + b) k ≡ round_from xs start a k ++ round_from xs start b (k + a)
unfolding round_from
round_from-add xs start zero b k = omega_args b k
  where
    omega_args : (b k : ℕ) → round_from xs start (0 + b) k ≡ round_from xs start b (k + 0)
    omega_args b k = λ i. round_from xs start (left i) (right i)
      where
        left : 0 + b ≡ b
        left = omega arith

        right : k ≡ k + 0
        right = omega arith
round_from-add xs start (suc a) b k =
    ap (λ n. round_from xs start n k) (suc_add a b)
    ∙ ap (◌∷◌ (get_or xs ((start + k) % length xs) 0)) (
        round_from-add xs start a b (k + 1)
        ∙ ap (λ j. round_from xs start a (k + 1) ++ round_from xs start b j) (omega arith))
  where
    suc_add : (a b : ℕ) → suc a + b ≡ suc (a + b)
    suc_add a b = omega arith

-- The whole round is a rotation.
pub round_from_lem :
    (xs : List ℕ) (start : ℕ)
    → start ≤ length xs
    → round_from xs start (length xs) 0 ≡ drop start xs ++ take start xs
round_from_lem xs start h =
    ap (λ n. round_from xs start n 0) split_length
    ∙ round_from-add xs start (length xs - start) start 0
    ∙ (λ i. first i ++ second i)
  where
    split_length : length xs ≡ (length xs - start) + start
    split_length = omega arith

    all_taken : (n : ℕ) (ys : List ℕ) → length ys ≤ n → take n ys ≡ ys
    all_taken zero [] k = refl
    all_taken zero (y ∷ ys) k = absurd (omega arith)
    all_taken (suc n) [] k = refl
    all_taken (suc n) (y ∷ ys) k = ap (◌∷◌ y) (all_taken n ys (omega arith))

    length_dropped : (n : ℕ) (ys : List ℕ) → length (drop n ys) ≡ length ys - n
    length_dropped zero ys = omega arith
    length_dropped (suc n) [] = omega arith
    length_dropped (suc n) (y ∷ ys) = omega (arith, length_dropped n ys)

    first : round_from xs start (length xs - start) 0 ≡ drop start xs
    first =
        round_from-take xs start (length xs - start) 0 start (omega arith) (inl (omega arith))
        ∙ all_taken (length xs - start) (drop start xs) (omega (arith, length_dropped start xs))

    second : round_from xs start start (0 + (length xs - start)) ≡ take start xs
    second =
        round_from-take xs start start (0 + (length xs - start)) 0 (omega arith) (inr (omega arith))

any_of_permᴰ : (p : ℕ → Bool) {xs ys : List ℕ} → Permᴰ xs ys → any p xs ≡ any p ys
any_of_permᴰ p Permᴰ.nil = refl
any_of_permᴰ p (Permᴰ.cons e h) = λ i. p (e i) || any_of_permᴰ p h i
any_of_permᴰ p (Permᴰ.swap {a = a} {b = b} {l = l} e f) =
    or_swap (p a) (p b) (any p l) ∙ (λ i. p (f i) || (p (e i) || any p l))
  where
    or_swap : (x y z : Bool) → (x || (y || z)) ≡ (y || (x || z))
    or_swap x y z = ground arith
any_of_permᴰ p (Permᴰ.trans h k) = any_of_permᴰ p h ∙ any_of_permᴰ p k

-- A reordering has an element of the kind exactly if the list does.
pub any-perm : (p : ℕ → Bool) (xs ys : List ℕ) → Perm xs ys → any p xs ≡ any p ys
any-perm p xs ys h = ∥∥₁_elim h (Bool-set (any p xs) (any p ys)) (λ q. any_of_permᴰ p q)
