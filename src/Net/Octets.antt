-- ===== src/Net/Octets.antt =====
-- The round trip of IPv4 addresses through text.
use mathlib.Core.List.{append-nil}
use ad_block.Base.{
  ℕ, ◌≤◌, ◌<◌, ◌+◌, ◌*◌, ◌/◌, ◌%◌, ◌≡◌, refl, false, [], ◌∷◌, ◌++◌, some, arith, ltb, Bool-cases,
  inl, inr,
}
use ad_block.Net.{
  Ipv4Addr, IsIpv4, read_digits, read_octet, read_char, read_ipv4, parse_ipv4, octet_text,
  ipv4_text,
}
use ad_block.Text.{Text, is_digit, strip_prefix, byte_len, len_utf8}
use ad_block.Text.Suffix.{byte_len-append}

-- A reader of digits stops in front of such a text.
abbrev pub Stops : Text → Type 0
Stops [] = Unit {0}
Stops (x ∷ s) = is_digit x ≡ false

read_digits-Stops :
    (s : Text) (v n : ℕ) → Stops s → read_digits s v n ≡ record { value = v; count = n; rest = s }
unfolding read_digits
read_digits-Stops [] v n h = refl
read_digits-Stops (x ∷ s) v n h = rw h

read_digits-digit :
    (k v n : ℕ) (s : Text)
    → k < 10
    → read_digits ((48 + k) ∷ s) v n ≡ read_digits s (v * 10 + k) (n + 1)
unfolding read_digits is_digit
read_digits-digit k v n s h = ground arith

-- An octet is read back from its digits, and what follows them is left.
read_octet-octet_text :
    (n : ℕ) (s : Text) → n ≤ 255 → Stops s → read_octet (octet_text n ++ s) ≡ some (n, s)
unfolding read_octet octet_text strip_prefix
read_octet-octet_text n s h stops = elim (Bool-cases (ltb n 10)) [
  | inl e ↦
      rw e (
        rw (read_digits-digit n 0 0 s (ground arith), read_digits-Stops s _ _ stops) (ground arith))
  | inr e ↦ elim (Bool-cases (ltb n 100)) [
    | inl f ↦
        rw (e, f)
          (rw
            (
              read_digits-digit (n / 10) 0 0 _ (ground arith),
              read_digits-digit (n % 10) _ _ s (omega arith),
              read_digits-Stops s _ _ stops,
            )
            (ground arith))
    | inr f ↦
        rw (e, f)
          (rw
            (
              read_digits-digit (n / 100) 0 0 _ (omega arith),
              read_digits-digit (n / 10 % 10) _ _ _ (omega arith),
              read_digits-digit (n % 10) _ _ s (omega arith),
              read_digits-Stops s _ _ stops,
            )
            (ground arith))
  ]
]

byte_len-octet_text : (n : ℕ) → n ≤ 255 → byte_len (octet_text n) ≤ 3
unfolding octet_text byte_len len_utf8
byte_len-octet_text n h = ground arith

byte_len-ipv4_text : (ip : Ipv4Addr) → IsIpv4 ip → byte_len (ipv4_text ip) ≤ 15
unfolding ipv4_text byte_len len_utf8
byte_len-ipv4_text ip h = omega (
  arith,
  byte_len-append,
  byte_len-octet_text ip.a h.fits_a,
  byte_len-octet_text ip.b h.fits_b,
  byte_len-octet_text ip.c h.fits_c,
  byte_len-octet_text ip.d h.fits_d,
)

read_octet_last : (n : ℕ) → n ≤ 255 → read_octet (octet_text n) ≡ some (n, [])
read_octet_last n h = rw append-nil at (read_octet-octet_text n [] h tt)

-- `Display` then `parse` gives back every IPv4 address.
pub parse_ipv4-ipv4_text : (ip : Ipv4Addr) → IsIpv4 ip → parse_ipv4 (ipv4_text ip) ≡ some ip
unfolding parse_ipv4 read_ipv4 read_char ipv4_text is_digit
parse_ipv4-ipv4_text ip h =
    let short : ltb 15 (byte_len (ipv4_text ip)) ≡ false =
      ground (arith, byte_len-ipv4_text ip h) in
    rw
      (
        short,
        read_octet-octet_text ip.a _ h.fits_a refl,
        read_octet-octet_text ip.b _ h.fits_b refl,
        read_octet-octet_text ip.c _ h.fits_c refl,
        read_octet_last ip.d h.fits_d,
      )
      refl
