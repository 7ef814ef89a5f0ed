-- ===== src/Dns/Upstream/Framing.antt =====
-- The messages on a TCP or TLS connection, and the connection that a server keeps. The bytes that
-- come are an argument, and so is `Message::from_vec`.
use ad_block.Base.{
  ℕ, ◌+◌, ◌*◌, ◌/◌, ◌%◌, ◌^◌, ◌<◌, ◌≡◌, refl, ap, ◌∙◌, List, [], ◌∷◌, ◌++◌, Option, none, some,
  true, arith, ltb, leb, if◌then◌else◌, length, length-append, take, drop, Result, ok, err,
}

pub data FrameError : Type 0 where
  query_too_large too_short unparsable : FrameError

-- `u16::to_be_bytes` and `u16::from_be_bytes`.
unfoldable pub to_be_bytes : ℕ → List ℕ
to_be_bytes n = n / 256 ∷ n % 256 ∷ []

unfoldable pub write_framed : List ℕ → Result FrameError (List ℕ)
unfolding to_be_bytes
write_framed wire =
    if ltb (length wire) (2 ^ 16)
    then ok (to_be_bytes (length wire) ++ wire)
    else err query_too_large

-- `read_exact` of the body: what it parses to, and the bytes behind it.
unfoldable pub read_body :
    {M : Type 0} → (List ℕ → Option M) → ℕ → List ℕ → Result FrameError (M × List ℕ)
read_body from_vec len bytes =
    if leb len (length bytes)
    then (elim (from_vec (take len bytes)) [
      | none ↦ err unparsable
      | some m ↦ ok (m, drop len bytes)
    ])
    else err too_short

unfoldable pub read_framed :
    {M : Type 0} → (List ℕ → Option M) → List ℕ → Result FrameError (M × List ℕ)
unfolding read_body
read_framed from_vec [] = err too_short
read_framed from_vec (hi ∷ []) = err too_short
read_framed from_vec (hi ∷ lo ∷ bytes) = read_body from_vec (hi * 256 + lo) bytes

take-append : (xs ys : List ℕ) → take (length xs) (xs ++ ys) ≡ xs
take-append [] ys = refl
take-append (x ∷ xs) ys = ap (◌∷◌ x) (take-append xs ys)

drop-append : (xs ys : List ℕ) → drop (length xs) (xs ++ ys) ≡ ys
drop-append [] ys = refl
drop-append (x ∷ xs) ys = drop-append xs ys

read_body-append :
    {M : Type 0} (from_vec : List ℕ → Option M) (wire after : List ℕ) (m : M)
    → from_vec wire ≡ some m
    → read_body from_vec (length wire) (wire ++ after) ≡ ok (m, after)
unfolding read_body
read_body-append from_vec wire after m h =
    let fits : leb (length wire) (length (wire ++ after)) ≡ true =
      ground (arith, length-append wire after) in
    rw (fits, take-append wire after, h, drop-append wire after) refl

-- A message of fewer than 65536 bytes is framed, and what the parser makes of it is read back from
-- the frame, with any bytes that come behind it left over.
pub read_framed-write_framed :
    {M : Type 0} (from_vec : List ℕ → Option M) (wire after : List ℕ) (m : M)
    → length wire < 2 ^ 16
    → from_vec wire ≡ some m
    → (frame : List ℕ) × (write_framed wire ≡ ok frame)
      × (read_framed from_vec (frame ++ after) ≡ ok (m, after))
unfolding write_framed read_framed
read_framed-write_framed from_vec wire after m h e =
    let fits : ltb (length wire) (2 ^ 16) ≡ true = ground arith in
    (
      to_be_bytes (length wire) ++ wire,
      rw fits refl,
      ap (λ n. read_body from_vec n (wire ++ after)) (omega arith)
          ∙ read_body-append from_vec wire after m e,
    )
