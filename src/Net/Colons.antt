-- ===== src/Net/Colons.antt =====
-- Texts without a colon are no IPv6 addresses.
use ad_block.Base.{
  ℕ, zero, suc, ◌≤◌, ◌≡◌, ◌⊎◌, refl, Bool, true, false, [], ◌∷◌, none, some, arith, Option-cases,
  inl, inr,
}
use ad_block.Net.{
  read_char, read_hex_tail, read_group, read_groups, separated, embedded_ipv4, read_ipv4, read_ipv6,
  is_ipv6,
}
use ad_block.Text.{Text, contains}

read_char-colon : (s : Text) → contains b':' s ≡ false → read_char b':' s ≡ none
unfolding read_char
read_char-colon [] h = refl
read_char-colon (x ∷ s) h = ground arith

read_hex_tail-colon :
    (k : ℕ) (s rest : Text)
    → contains b':' s ≡ false
    → read_hex_tail k s ≡ some rest
    → contains b':' rest ≡ false
unfolding read_hex_tail
read_hex_tail-colon k [] rest h e = ground arith
read_hex_tail-colon zero (x ∷ s) rest h e = ground arith
read_hex_tail-colon (suc k) (x ∷ s) rest h e = ground (arith, read_hex_tail-colon k s rest)

read_group-colon :
    (s rest : Text)
    → contains b':' s ≡ false
    → read_group s ≡ some rest
    → contains b':' rest ≡ false
unfolding read_group
read_group-colon [] rest h e = cc
read_group-colon (x ∷ s) rest h e = ground (arith, read_hex_tail-colon 3 s rest)

-- Without a colon, at most the first group is there: an IPv4 address, or a plain one.
abbrev FirstOnly : ℕ × Bool × Text → Type 0
FirstOnly (n, embedded, rest) = (n ≤ 2) × ((embedded ≡ true) ⊎ (contains b':' rest ≡ false))

later_groups : (k : ℕ) (s : Text) → contains b':' s ≡ false → FirstOnly (read_groups k 1 s)
unfolding read_groups separated embedded_ipv4
later_groups zero s h = (omega arith, inr h)
later_groups (suc zero) s h = rw (read_char-colon s h, read_groups) (omega arith, inr h)
later_groups (suc (suc k)) s h =
    let closed : separated 1 s ≡ none = read_char-colon s h in
    rw (closed, read_groups) (rw (closed, read_groups) (omega arith, inr h))

first_groups :
    (k : ℕ) (s : Text) → contains b':' s ≡ false → FirstOnly (read_groups (suc (suc k)) 0 s)
unfolding read_groups separated embedded_ipv4
first_groups k s h = elim (Option-cases (read_ipv4 s)) [
  | inr (ip, e) ↦ rw (e, read_groups) (omega arith, inl refl)
  | inl e ↦ elim (Option-cases (read_group s)) [
    | inl f ↦ rw (e, f, read_groups) (omega arith, inr h)
    | inr (rest, f) ↦
        rw (e, f, read_groups) (later_groups (suc k) rest (read_group-colon s rest h f))
  ]
]

-- Every IPv6 address has a colon.
pub is_ipv6_colon : (s : Text) → contains b':' s ≡ false → is_ipv6 s ≡ false
unfolding is_ipv6 read_ipv6
is_ipv6_colon s h = ground (arith, first_groups 6 s h, read_char-colon (read_groups 8 0 s).2)
