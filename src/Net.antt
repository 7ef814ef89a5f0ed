-- ===== src/Net.antt =====
-- `std::net`: the textual forms of IP addresses, as `str::parse` reads them and `Display` writes
-- them. Of an IPv6 address the program only asks whether a text is one.
pub mod Octets
pub mod Colons
pub mod Ports
use ad_block.Base.{
  ℕ, zero, suc, ◌+◌, ◌-◌, ◌*◌, ◌/◌, ◌%◌, ◌≤◌, Bool, true, false, ◌&&◌, ◌||◌, List, [], ◌∷◌, ◌++◌,
  Option, none, some, ltb, leb, ◌==◌, if◌then◌else◌, is_empty,
}
use ad_block.Text.{Text, is_digit, starts_with, byte_len}

pub record Ipv4Addr : Type 0 where
  pub a : ℕ
  pub b : ℕ
  pub c : ℕ
  pub d : ℕ

-- A run of digits: its value, how many there are, and the text behind them.
pub record Digits : Type 0 where
  pub value : ℕ
  pub count : ℕ
  pub rest : Text

unfoldable pub read_digits : Text → ℕ → ℕ → Digits
read_digits [] v n = record { value = v; count = n; rest = [] }
read_digits (x ∷ s) v n =
    let more = read_digits s (v * 10 + (x - b'0')) (n + 1) in
    if is_digit x then more else record { value = v; count = n; rest = x ∷ s }

-- A decimal octet: one to three digits, with no leading zero, at most 255.
unfoldable pub octet_of : Bool → Digits → Option (ℕ × Text)
octet_of leading_zero r =
    if r.count == 0 || ltb 3 r.count || (leading_zero && ltb 1 r.count) || ltb 255 r.value
    then none
    else some (r.value, r.rest)

unfoldable pub read_octet : Text → Option (ℕ × Text)
unfolding octet_of
read_octet s = octet_of (starts_with (b'0' ∷ []) s) (read_digits s 0 0)

infixl 5 ◌>>=◌
abbrev ◌>>=◌ {ℓ κ} : {A : Type ℓ} {B : Type κ} → Option A → (A → Option B) → Option B
none >>= f = none
some x >>= f = f x

unfoldable pub read_char : ℕ → Text → Option Text
read_char c [] = none
read_char c (x ∷ s) = if x == c then some s else none

unfoldable pub read_ipv4 : Text → Option (Ipv4Addr × Text)
read_ipv4 s = do
  (a, s) ← read_octet s
  s ← read_char b'.' s
  (b, s) ← read_octet s
  s ← read_char b'.' s
  (c, s) ← read_octet s
  s ← read_char b'.' s
  (d, s) ← read_octet s
  some (record { a = a; b = b; c = c; d = d }, s)

unfoldable pub parse_ipv4 : Text → Option Ipv4Addr
parse_ipv4 s =
    if ltb 15 (byte_len s)
    then none
    else (do (ip, rest) ← read_ipv4 s; if is_empty rest then some ip else none)

unfoldable pub octet_text : ℕ → Text
octet_text n =
    if ltb n 10
    then (b'0' + n) ∷ []
    else if ltb n 100
    then (b'0' + n / 10) ∷ (b'0' + n % 10) ∷ []
    else (b'0' + n / 100) ∷ (b'0' + n / 10 % 10) ∷ (b'0' + n % 10) ∷ []

unfoldable pub ipv4_text : Ipv4Addr → Text
ipv4_text ip =
    octet_text ip.a
    ++ (b'.' ∷ (octet_text ip.b ++ (b'.' ∷ (octet_text ip.c ++ (b'.' ∷ octet_text ip.d)))))

pub record IsIpv4 (ip : Ipv4Addr) : Type 0 where
  pub fits_a : ip.a ≤ 255
  pub fits_b : ip.b ≤ 255
  pub fits_c : ip.c ≤ 255
  pub fits_d : ip.d ≤ 255

is_hex : ℕ → Bool
is_hex c = is_digit c || (leb b'a' c && leb c b'f') || (leb b'A' c && leb c b'F')

-- At most `k` hexadecimal digits follow, besides those already read; more are an error.
read_hex_tail : ℕ → Text → Option Text
unfolding is_hex
read_hex_tail k [] = some []
read_hex_tail zero (x ∷ s) = if is_hex x then none else some (x ∷ s)
read_hex_tail (suc k) (x ∷ s) =
    let more = read_hex_tail k s in if is_hex x then more else some (x ∷ s)

-- A group of an IPv6 address: one to four hexadecimal digits.
read_group : Text → Option Text
unfolding is_hex read_hex_tail
read_group [] = none
read_group (x ∷ s) = if is_hex x then read_hex_tail 3 s else none

-- Every group but the first follows a colon.
separated : ℕ → Text → Option Text
separated zero s = some s
separated (suc i) s = read_char b':' s

-- An embedded IPv4 address takes two slots, so it is tried where `k + 1` slots are left and `k` is
-- not zero.
embedded_ipv4 : ℕ → ℕ → Text → Option (Ipv4Addr × Text)
unfolding separated
embedded_ipv4 zero i s = none
embedded_ipv4 (suc k) i s = separated i s >>= read_ipv4

-- `read_groups`: how many groups were read, whether they end in an embedded IPv4 address, and the
-- text behind them. `k` slots are left, and `i` are filled.
read_groups : ℕ → ℕ → Text → ℕ × Bool × Text
unfolding separated read_group embedded_ipv4
read_groups zero i s = (i, false, s)
read_groups (suc k) i s = elim (embedded_ipv4 k i s) [
  | some (_, rest) ↦ (i + 2, true, rest)
  | none ↦ elim (separated i s >>= read_group) [
    | some rest ↦ read_groups k (i + 1) rest
    | none ↦ (i, false, s)
  ]
]

read_ipv6 : Text → Option Text
unfolding read_groups
read_ipv6 s =
    let (head, embedded, rest) = read_groups 8 0 s in
    if head == 8 then some rest else if embedded then none else (do
      rest ← read_char b':' rest
      rest ← read_char b':' rest
      let (_, _, rest) = read_groups (8 - (head + 1)) 0 rest
      some rest)

-- `s.parse::<Ipv6Addr>().is_ok()`
unfoldable pub is_ipv6 : Text → Bool
unfolding read_ipv6
is_ipv6 s = elim (read_ipv6 s) [ none ↦ false | some rest ↦ is_empty rest ]
