-- ===== src/Proxy/Exclusions/Match.antt =====
-- `ExclusionStore::matching`: which hosts are tunnelled.
use ad_block.Base.{
  ◌≡◌, ◌≢◌, ap, ◌∙◌, ◌⊎◌, inl, inr, Bool, true, false, ◌||◌, List, [], ◌∷◌, ◌++◌, none, some, arith,
  Bool-cases, Option-cases, find, retain, In, In-retain, In-of_In-retain, find-holds,
}
use ad_block.Proxy.Exclusions.{Exclusion, ExclusionStore, star_dot, covers, matching}
use ad_block.Text.{Text, text_eq, strip_prefix, ends_with}
use ad_block.Text.Laws.{text_eq_of_eq, eq_of_text_eq, strip_prefix-append, append_of_strip_prefix}
use ad_block.Text.Suffix.{append_of_ends_with, ends_with-append}

-- The host is a subdomain of the name: labels and a dot stand before it.
abbrev pub Below : Text → Text → Type 0
Below name host = (front : Text) × (host ≡ front ++ (b'.' ∷ name))

-- An entry `*.name` is for the subdomains of the name alone, any other entry for its own name and
-- the subdomains of that.
abbrev pub Covers : Text → Text → Type 0
Covers domain host =
    ((name : Text) × (domain ≡ star_dot ++ name) × Below name host)
    ⊎ (((name : Text) → domain ≢ star_dot ++ name) × ((host ≡ domain) ⊎ Below domain host))

Covers-of_covers : (host : Text) (e : Exclusion) → covers host e ≡ true → Covers e.domain host
unfolding covers
Covers-of_covers host e h = elim (Option-cases (strip_prefix star_dot e.domain)) [
  | inr (name, k) ↦
      let ends : ends_with (b'.' ∷ name) host ≡ true = rw (k, covers) at h in
      inl (
        name,
        append_of_strip_prefix star_dot e.domain name k,
        append_of_ends_with (b'.' ∷ name) host ends,
      )
  | inl k ↦
      let either : (text_eq host e.domain || ends_with (b'.' ∷ e.domain) host) ≡ true =
        rw (k, covers) at h in
      inr (
        λ name eq.
            absurd (cc (k, ap (strip_prefix star_dot) eq, strip_prefix-append star_dot name)),
        elim (Bool-cases (text_eq host e.domain)) [
          | inl same ↦ inl (eq_of_text_eq host e.domain same)
          | inr other ↦ inr (append_of_ends_with (b'.' ∷ e.domain) host (ground arith))
        ],
      )
]

ends_with_of : (host name : Text) → Below name host → ends_with (b'.' ∷ name) host ≡ true
ends_with_of host name below = rw below.1 (ends_with-append below.0 (b'.' ∷ name))

covers-of_Covers : (host : Text) (e : Exclusion) → Covers e.domain host → covers host e ≡ true
unfolding covers
covers-of_Covers host e (inl (name, d, below)) =
    rw (ap (strip_prefix star_dot) d ∙ strip_prefix-append star_dot name, covers)
      (ends_with_of host name below)
covers-of_Covers host e (inr (wild, at_or_below)) =
    elim (Option-cases (strip_prefix star_dot e.domain)) [
      | inr (name, k) ↦ absurd (wild name (append_of_strip_prefix star_dot e.domain name k))
      | inl k ↦
          rw (k, covers)
            (elim at_or_below [
              | inl same ↦ ground (arith, text_eq_of_eq host e.domain same)
              | inr below ↦ ground (arith, ends_with_of host e.domain below)
            ])
    ]

module _ {A : Type 0} (p : A → Bool) where
  In-of_find : (xs : List A) (x : A) → find p xs ≡ some x → In x xs
  In-of_find [] x h = absurd (cc h)
  In-of_find (y ∷ ys) x h = elim (Bool-cases (p y)) [
    | inl e ↦ inl (cc (rw e at h))
    | inr e ↦ inr (In-of_find ys x (rw e at h))
  ]

  holds_not : (xs : List A) (x : A) → find p xs ≡ none → In x xs → p x ≡ false
  holds_not [] x h i = absurd i
  holds_not (y ∷ ys) x h i = elim (Bool-cases (p y)) [
    | inl e ↦ absurd (cc (rw e at h))
    | inr e ↦ elim i [ inl k ↦ ap p k ∙ e | inr j ↦ holds_not ys x (rw e at h) j ]
  ]

-- An entry that is enabled and covers the host.
abbrev pub Tunnels : ExclusionStore → Text → Exclusion → Type 0
Tunnels s host e = In e s.entries × (e.enabled ≡ true) × Covers e.domain host

-- Either matching answers the domain of an enabled entry that is for the host, or no enabled entry
-- is for the host and it answers none. An entry that is `*.` and a name is for the hosts that end
-- in a dot and that name, and any other entry for its own name and the hosts that end in a dot and
-- that name.
pub matching_cases :
    (s : ExclusionStore) (host : Text)
    → ((e : Exclusion) × Tunnels s host e × (matching s host ≡ some e.domain))
      ⊎ (((e : Exclusion) → ¬ Tunnels s host e) × (matching s host ≡ none))
unfolding matching
matching_cases s host =
    let live = retain (λ (e : Exclusion). e.enabled) s.entries in
    elim (Option-cases (find (covers host) live)) [
      | inr (e, h) ↦
          let (i, on) =
            In-of_In-retain (λ (x : Exclusion). x.enabled) s.entries e
              (In-of_find (covers host) live e h) in
          inl (
            e,
            (i, on, Covers-of_covers host e (find-holds (covers host) live e h)),
            rw (h, matching),
          )
      | inl h ↦ inr (
        λ e t. absurd (
            ground (
              arith,
              holds_not (covers host) live e h
                  (In-retain (λ (x : Exclusion). x.enabled) s.entries e t.0 t.1),
              covers-of_Covers host e t.2,
            )),
        rw (h, matching),
      )
    ]
