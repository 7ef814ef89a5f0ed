-- ===== src/Net/Ports.antt =====
-- Decimal numbers and ports, as `str::parse` reads them and `format!` writes them.
use ad_block.Base.{
  ℕ, zero, suc, ◌+◌, ◌-◌, ◌*◌, ◌/◌, ◌%◌, ◌^◌, ◌<◌, ◌≤◌, ◌≡◌, refl, ap, ◌∙◌, ◌⊎◌, inl, inr, false,
  [], ◌∷◌, ◌++◌, Option, none, some, arith, ltb, leb, if◌then◌else◌, Bool-cases, is_empty, any,
}
use ad_block.Text.Laws.{any-append, strip_prefix-none}
use ad_block.Text.{Text, is_char, is_digit, strip_prefix}

-- The value of a text of digits, behind those read already.
unfoldable pub digits_value : ℕ → Text → Option ℕ
digits_value n [] = some n
digits_value n (c ∷ s) =
    let rest = digits_value (n * 10 + (c - b'0')) s in if is_digit c then rest else none

-- `str::parse::<u16>().ok()`: one sign `+` is allowed.
unfoldable pub unsigned : Text → Text
unsigned s = elim (strip_prefix (b'+' ∷ []) s) [ some t ↦ t | none ↦ s ]

unfoldable pub fits_u16 : Option ℕ → Option ℕ
fits_u16 none = none
fits_u16 (some n) = if leb n 65535 then some n else none

unfoldable pub parse_u16 : Text → Option ℕ
unfolding digits_value unsigned fits_u16
parse_u16 s = if is_empty (unsigned s) then none else fits_u16 (digits_value 0 (unsigned s))

-- The decimal digits of a number below `10 ^ k`, without leading zeros.
unfoldable pub decimal : ℕ → ℕ → Text
decimal zero n = []
decimal (suc k) n =
    let front = decimal k (n / 10) in (if ltb n 10 then [] else front) ++ ((b'0' + n % 10) ∷ [])

-- A port as `format!` writes it.
unfoldable pub port_text : ℕ → Text
port_text = decimal 5

-- A reader of digits, in front of one more digit.
digits_value-append :
    (s : Text) (m n k : ℕ)
    → digits_value m s ≡ some n
    → k < 10
    → digits_value m (s ++ ((48 + k) ∷ [])) ≡ some (n * 10 + k)
unfolding digits_value is_digit
digits_value-append [] m n k h b = ground arith
digits_value-append (c ∷ s) m n k h b = elim (Bool-cases (is_digit c)) [
  | inl e ↦ rw (e, is_digit) (digits_value-append s (m * 10 + (c - 48)) n k (ground arith) b)
  | inr e ↦ absurd (ground arith)
]

pub decimal_read : (k n : ℕ) → n < 10 ^ k → 0 < k → digits_value 0 (decimal k n) ≡ some n
unfolding decimal
decimal_read zero n h p = absurd (omega arith)
decimal_read (suc k) n h p = elim (Bool-cases (ltb n 10)) [
  | inl e ↦ rw e (
      digits_value-append [] 0 0 (n % 10) (unfold digits_value in refl) (omega arith)
      ∙ ap some (ground arith))
  | inr e ↦ rw e (
      digits_value-append (decimal k (n / 10)) 0 (n / 10) (n % 10)
        (decimal_read k (n / 10) (shorter k n h) (several k n h e)) (omega arith)
      ∙ ap some (omega arith))
]
  where
    shorter : (k n : ℕ) → n < 10 ^ suc k → n / 10 < 10 ^ k
    shorter k n h = omega arith

    several : (k n : ℕ) → n < 10 ^ suc k → ltb n 10 ≡ false → 0 < k
    several zero n h e = ground arith
    several (suc k) n h e = omega arith

-- A digit is none of the other characters.
pub decimal_without : (c k n : ℕ) → c < 48 ⊎ 58 ≤ c → any (is_char c) (decimal k n) ≡ false
unfolding decimal
decimal_without c zero n h = refl
decimal_without c (suc k) n h = elim (Bool-cases (ltb n 10)) [
  | inl e ↦ rw e (ground arith)
  | inr e ↦ rw e (
      any-append (is_char c) (decimal k (n / 10)) _ (decimal_without c k (n / 10) h) (ground arith))
]

append_one_nonempty : (s : Text) (c : ℕ) → is_empty (s ++ (c ∷ [])) ≡ false
append_one_nonempty [] c = refl
append_one_nonempty (d ∷ s) c = refl

parse_digits :
    (t : Text) (n : ℕ)
    → strip_prefix (b'+' ∷ []) t ≡ none
    → is_empty t ≡ false
    → digits_value 0 t ≡ some n
    → n < 65536
    → parse_u16 t ≡ some n
unfolding parse_u16 fits_u16
parse_digits t n unsign some_digit read small =
    ap (λ u. if is_empty u then none else fits_u16 (digits_value 0 u)) same
    ∙ rw some_digit (ap fits_u16 read ∙ ground arith)
  where
    same : unsigned t ≡ t
    same = unfold unsigned in rw (unsign, unsigned)

pub decimal_nonempty : (k n : ℕ) → is_empty (decimal (suc k) n) ≡ false
unfolding decimal
decimal_nonempty k n = append_one_nonempty _ (48 + n % 10)

pub parse_u16-port_text : (n : ℕ) → n < 65536 → parse_u16 (port_text n) ≡ some n
unfolding port_text
parse_u16-port_text n h =
    parse_digits (decimal 5 n) n
      (strip_prefix-none b'+' (decimal 5 n) (decimal_without b'+' 5 n (inl (omega arith))))
      (decimal_nonempty 4 n) (decimal_read 5 n (omega arith) (omega arith)) h
