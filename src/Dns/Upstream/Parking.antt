-- ===== src/Dns/Upstream/Parking.antt =====
-- A `!` in front of a server parks it, and changes nothing else.
use ad_block.Base.{
  ℕ, ◌≡◌, refl, sym, ap, ◌∙◌, ◌⊎◌, inl, inr, Bool, true, false, [], ◌∷◌, none, arith, ◌==◌,
  Bool-cases, Option-cases, Result, ok, err,
}
use ad_block.Dns.Upstream.Addr.{
  UpstreamAddr, AddrError, split_name, split_park, Server, parse_server, with_server, parse_trimmed,
  parse,
}
use ad_block.Text.{
  Text, is_char, is_whitespace, trim, trim_start, trim_matches, trim_start_matches,
  trim_end_matches, strip_prefix, split_once,
}
use ad_block.Text.Pieces.{trim_end}
use ad_block.Text.Trim.{trim_matches_start, trim_matches_end, trim_end_matches_cons}

-- The parse of a server, with another spec and flag.
unfoldable pub marked : Text → Bool → Result AddrError UpstreamAddr → Result AddrError UpstreamAddr
marked spec enabled (err e) = err e
marked spec enabled (ok a) = ok (record a { spec = spec; enabled = enabled })

with_server-marked :
    (s t name : Text) (b c : Bool) (r : Result AddrError Server)
    → with_server s name b r ≡ marked s b (with_server t name c r)
unfolding with_server marked
with_server-marked s t name b c (err e) = refl
with_server-marked s t name b c (ok r) = refl

-- The first character of a trimmed server stays in front.
kept_first :
    (c : ℕ) (t : Text)
    → is_whitespace c ≡ false
    → ((split_name (c ∷ t)).0 ≡ []) ⊎ ((u : Text) × ((split_name (c ∷ t)).0 ≡ c ∷ u))
unfolding split_name split_once trim_end
kept_first c t h = elim (Bool-cases (c == b'#')) [
  | inl e ↦ inl (rw (e, split_name, split_once) (unfold trim_end_matches in refl))
  | inr e ↦ elim (Option-cases (split_once (is_char b'#') t)) [
    | inl k ↦ inr (t, rw (e, k, split_name, split_once))
    | inr ((a, n), k) ↦ inr (
      trim_end_matches is_whitespace a,
      rw (e, k, split_name, split_once) (trim_end_matches_cons is_whitespace c a h),
    )
  ]
]

split_name-park : (t : Text) → split_name (b'!' ∷ t) ≡ (b'!' ∷ (split_name t).0, (split_name t).1)
unfolding split_name split_once trim_end is_whitespace
split_name-park t = elim (Option-cases (split_once (is_char b'#') t)) [
  | inl k ↦ rw (k, split_name, split_once)
  | inr ((a, n), k) ↦
      rw (k, split_name, split_once)
        (λ i. (trim_end_matches_cons is_whitespace b'!' a refl i, trim n))
]

unmarked :
    (x : Text)
    → (x ≡ [])
      ⊎ ((c : ℕ) × (u : Text) × (x ≡ c ∷ u) × (is_whitespace c ≡ false) × ((c == b'!') ≡ false))
    → (split_park x ≡ (x, true)) × (split_park (b'!' ∷ x) ≡ (x, false))
unfolding split_park strip_prefix trim_start trim_start_matches
unmarked x (inl e) = (rw e, rw e)
unmarked x (inr (c, u, e, h, k)) =
    let none_there : strip_prefix (b'!' ∷ []) (c ∷ u) ≡ none = ground arith in
    (rw e (rw (none_there, split_park)), rw e (rw (h, trim_start_matches)))

-- What `unmarked` asks of a text, from the server that it is the front of.
front_of :
    (t : Text)
    → trim t ≡ t
    → strip_prefix (b'!' ∷ []) t ≡ none
    → ((split_name t).0 ≡ [])
      ⊎ ((c : ℕ) × (u : Text) × ((split_name t).0 ≡ c ∷ u)
          × (is_whitespace c ≡ false)
          × ((c == b'!') ≡ false))
unfolding trim strip_prefix
front_of [] h k = inl (unfold split_name split_once in refl)
front_of (c ∷ t) h k =
    let plain = trim_matches_start is_whitespace (c ∷ t) t c h in
    elim (kept_first c t plain) [ inl e ↦ inl e | inr (u, e) ↦ inr (c, u, e, plain, ground arith) ]

parse_parts :
    (spec x n y : Text) (b : Bool)
    → split_name spec ≡ (x, n)
    → split_park x ≡ (y, b)
    → parse_trimmed spec ≡ with_server spec n b (parse_server y)
unfolding parse_trimmed
parse_parts spec x n y b e f =
    ap (λ o. with_server spec o.1 (split_park o.0).1 (parse_server (split_park o.0).0)) e
    ∙ ap (λ q. with_server spec n q.1 (parse_server q.0)) f

trim-park : (t : Text) → trim t ≡ t → trim (b'!' ∷ t) ≡ b'!' ∷ t
unfolding trim trim_matches trim_start_matches is_whitespace
trim-park t h =
    trim_end_matches_cons is_whitespace b'!' t refl
    ∙ ap (◌∷◌ b'!') (trim_matches_end is_whitespace t (unfold trim_matches in h))

-- If a text has no white space at its ends and does not begin with an exclamation mark, then with
-- the mark in front it is parsed to the same server, switched off and with the longer text as its
-- spec, or to the same error.
pub parse-park :
    (t : Text)
    → trim t ≡ t
    → strip_prefix (b'!' ∷ []) t ≡ none
    → parse (b'!' ∷ t) ≡ marked (b'!' ∷ t) false (parse t)
unfolding parse
parse-park t h k =
    let (x, n) = split_name t in
    let (bare, parked) = unmarked x (front_of t h k) in
    ap parse_trimmed (trim-park t h)
    ∙ parse_parts (b'!' ∷ t) (b'!' ∷ x) n x false (split_name-park t) parked
    ∙ with_server-marked (b'!' ∷ t) t n false true (parse_server x)
    ∙ ap (marked (b'!' ∷ t) false) (sym (parse_parts t x n x true refl bare))
    ∙ ap (λ o. marked (b'!' ∷ t) false (parse_trimmed o)) (sym h)
