-- ===== src/Text/Suffix.antt =====
-- Suffixes of texts, and their lengths in bytes.
use ad_block.Base.{ℕ, ◌+◌, ◌<◌, ◌≡◌, ap, inl, inr, true, [], ◌∷◌, ◌++◌, arith, Bool-cases}
use ad_block.Text.{Text, text_eq, ends_with, byte_len, len_utf8}
use ad_block.Text.Laws.{text_eq_refl, eq_of_text_eq}

-- Every scalar value takes a byte.
pub len_utf8_pos : (c : ℕ) → 0 < len_utf8 c
unfolding len_utf8
len_utf8_pos c = ground arith

pub byte_len-append : (s t : Text) → byte_len (s ++ t) ≡ byte_len s + byte_len t
unfolding byte_len
byte_len-append [] t = omega arith
byte_len-append (c ∷ s) t = omega (arith, byte_len-append s t)

pub append_of_ends_with :
    (suffix s : Text) → ends_with suffix s ≡ true → (front : Text) × (s ≡ front ++ suffix)
unfolding ends_with
append_of_ends_with suffix [] h = ([], eq_of_text_eq [] suffix h)
append_of_ends_with suffix (c ∷ s) h = elim (Bool-cases (text_eq (c ∷ s) suffix)) [
  | inl e ↦ ([], eq_of_text_eq (c ∷ s) suffix e)
  | inr e ↦
      let (front, eq) = append_of_ends_with suffix s (ground arith) in (c ∷ front, ap (◌∷◌ c) eq)
]

pub ends_with-append : (front suffix : Text) → ends_with suffix (front ++ suffix) ≡ true
unfolding ends_with
ends_with-append [] [] = text_eq_refl []
ends_with-append [] (c ∷ s) = rw (text_eq_refl (c ∷ s))
ends_with-append (c ∷ front) suffix = ground (arith, ends_with-append front suffix)

-- Of the suffixes of a text there is one of each length.
pub suffix_unique : (f g s t : Text) → f ++ s ≡ g ++ t → byte_len s ≡ byte_len t → s ≡ t
unfolding byte_len
suffix_unique [] [] s t h e = h
suffix_unique [] (d ∷ g) s t h e =
    absurd (omega (arith, ap byte_len h, byte_len-append (d ∷ g) t, len_utf8_pos d))
suffix_unique (c ∷ f) [] s t h e =
    absurd (omega (arith, ap byte_len h, byte_len-append (c ∷ f) s, len_utf8_pos c))
suffix_unique (c ∷ f) (d ∷ g) s t h e = suffix_unique f g s t (ground arith) e
