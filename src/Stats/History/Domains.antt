-- ===== src/Stats/History/Domains.antt =====
-- The domain counts: what an increment and a subtraction do to the count of each domain.
use ad_block.Base.{
  ℕ, ◌+◌, ◌-◌, ◌≡◌, refl, sym, ap, subst, ◌∙◌, inl, inr, true, false, [], ◌∷◌, arith, ◌==◌,
  if◌then◌else◌, Bool-cases,
}
use ad_block.Stats.History.{Domains, count, increment, subtract_one, subtract}
use ad_block.Text.{Text, text_eq}
use ad_block.Text.Laws.{text_eq_comm, eq_of_text_eq, text_eq_of_eq}

-- The map has no entry for the domain.
abbrev pub Absent : Text → Domains → Type 0
Absent d [] = Unit {0}
Absent d ((k, n) ∷ m) = (text_eq k d ≡ false) × Absent d m

-- No domain has two entries.
abbrev pub Unique : Domains → Type 0
Unique [] = Unit {0}
Unique ((k, n) ∷ m) = Absent k m × Unique m

pub count-Absent : (d : Text) (m : Domains) → Absent d m → count d m ≡ 0
unfolding count
count-Absent d [] h = refl
count-Absent d ((k, n) ∷ m) h = rw h.0 (count-Absent d m h.1)

-- Of two different domains at most one is the third.
different : (j k d : Text) → text_eq j d ≡ true → text_eq j k ≡ false → text_eq k d ≡ false
different j k d h g = elim (Bool-cases (text_eq k d)) [
  | inl x ↦
      absurd (ground (arith, text_eq_of_eq j k (eq_of_text_eq j d h ∙ sym (eq_of_text_eq k d x))))
  | inr x ↦ x
]

pub count-increment :
    (k d : Text) (m : Domains)
    → count d (increment k m) ≡ count d m + (if text_eq k d then 1 else 0)
unfolding count increment
count-increment k d [] = ground arith
count-increment k d ((j, n) ∷ m) = elim (Bool-cases (text_eq j k)) [
  | inl e ↦ rw (e, eq_of_text_eq j k e) (ground arith)
  | inr e ↦ elim (Bool-cases (text_eq j d)) [
    | inl f ↦
        let other : text_eq k d ≡ false = different j k d f e in rw (e, f, other) (omega arith)
    | inr f ↦ rw (e, f) (count-increment k d m)
  ]
]

increment-Absent :
    (k d : Text) (m : Domains) → text_eq k d ≡ false → Absent d m → Absent d (increment k m)
unfolding increment
increment-Absent k d [] e h = (e, tt)
increment-Absent k d ((j, n) ∷ m) e h = elim (Bool-cases (text_eq j k)) [
  | inl f ↦ rw f h
  | inr f ↦ rw f (h.0, increment-Absent k d m e h.1)
]

pub increment-Unique : (k : Text) (m : Domains) → Unique m → Unique (increment k m)
unfolding increment
increment-Unique k [] u = (tt, tt)
increment-Unique k ((j, n) ∷ m) u = elim (Bool-cases (text_eq j k)) [
  | inl f ↦ rw f u
  | inr f ↦ rw f (increment-Absent k j m (text_eq_comm k j ∙ f) u.0, increment-Unique k m u.1)
]

subtract_one-Absent :
    (k d : Text) (n : ℕ) (m : Domains) → Absent d m → Absent d (subtract_one k n m)
unfolding subtract_one
subtract_one-Absent k d n [] h = tt
subtract_one-Absent k d n ((j, c) ∷ m) h = elim (Bool-cases (text_eq j k)) [
  | inl f ↦ elim (Bool-cases (c - n == 0)) [ inl g ↦ rw (f, g) h.1 | inr g ↦ rw (f, g) h ]
  | inr f ↦ rw f (h.0, subtract_one-Absent k d n m h.1)
]

pub subtract_one-Unique : (k : Text) (n : ℕ) (m : Domains) → Unique m → Unique (subtract_one k n m)
unfolding subtract_one
subtract_one-Unique k n [] u = tt
subtract_one-Unique k n ((j, c) ∷ m) u = elim (Bool-cases (text_eq j k)) [
  | inl f ↦ elim (Bool-cases (c - n == 0)) [ inl g ↦ rw (f, g) u.1 | inr g ↦ rw (f, g) u ]
  | inr f ↦ rw f (subtract_one-Absent k j n m u.0, subtract_one-Unique k n m u.1)
]

pub count-subtract_one :
    (k d : Text) (n : ℕ) (m : Domains)
    → Unique m
    → count d (subtract_one k n m) ≡ count d m - (if text_eq k d then n else 0)
unfolding count subtract_one
count-subtract_one k d n [] u = omega arith
count-subtract_one k d n ((j, c) ∷ m) u = elim (Bool-cases (text_eq j k)) [
  | inl e ↦
      let same : text_eq k d ≡ text_eq j d = ap (λ t. text_eq t d) (sym (eq_of_text_eq j k e)) in
      elim (Bool-cases (text_eq j d)) [
        | inl f ↦ ground (arith, count-Absent j m u.0, ap (λ t. count t m) (eq_of_text_eq j d f))
        | inr f ↦ ground arith
      ]
  | inr e ↦ elim (Bool-cases (text_eq j d)) [
    | inl f ↦ ground (arith, different j k d f e)
    | inr f ↦ ground (arith, count-subtract_one k d n m u.1)
  ]
]

pub subtract-Unique : (w x : Domains) → Unique w → Unique (subtract w x)
unfolding subtract
subtract-Unique w [] u = u
subtract-Unique w ((k, n) ∷ x) u =
    subtract-Unique (subtract_one k n w) x (subtract_one-Unique k n w u)

-- If each of two tables has no domain twice, then after the subtraction of the second from the
-- first the count of a domain is its count in the first less its count in the second, or zero.
pub count-subtract :
    (d : Text) (w x : Domains)
    → Unique w
    → Unique x
    → count d (subtract w x) ≡ count d w - count d x
unfolding subtract count
count-subtract d w [] u v = omega arith
count-subtract d w ((k, n) ∷ x) u v =
    let rest = count-subtract d (subtract_one k n w) x (subtract_one-Unique k n w u) v.1 in
    let first = count-subtract_one k d n w u in
    elim (Bool-cases (text_eq k d)) [
      | inl e ↦
          let gone : count d x ≡ 0 =
            subst (λ t. count t x ≡ 0) (eq_of_text_eq k d e) (count-Absent k x v.0) in
          ground arith
      | inr e ↦ ground arith
    ]
