-- ===== src/Dns/Cache/Reads.antt =====
-- `get`: what a hit serves, what a miss leaves behind, and the counters.
use ad_block.Base.{
  ℕ, ◌+◌, ◌-◌, ◌/◌, ◌≤◌, ◌<◌, ◌≡◌, refl, ap, subst, ◌∙◌, ◌⊎◌, inl, inr, true, false, List, [], ◌∷◌,
  ◌++◌, map, Option, none, some, arith, ltb, ltb→lt, Bool-cases, Option-cases, All,
}
use ad_block.Dns.Cache.{LruCache, Key, Entry, DnsCache, second, age_ttl, looked_up, counted, get}
use ad_block.Dns.Cache.Stored.{Outlives, EntryOk, peek, peek_on}
use ad_block.Dns.Message.{Message, Rr, records, map_records}

-- The TTL of a record, less the whole seconds that have passed.
abbrev pub less_age : ℕ → Rr → Rr
less_age elapsed r = record r { ttl = r.ttl - elapsed / second }

age_ttl_exact :
    (e : Entry) (later : ℕ) (r : Rr)
    → Outlives e r
    → e.stored ≤ later
    → later < e.expires
    → age_ttl (later - e.stored) r ≡ less_age (later - e.stored) r
unfolding age_ttl
age_ttl_exact e later r o g h = ap (λ t. record r { ttl = t }) (omega (arith, o.0, o.1))

map_exact :
    (e : Entry) (later : ℕ) (rs : List Rr)
    → e.stored ≤ later
    → later < e.expires
    → All (Outlives e) rs
    → map (age_ttl (later - e.stored)) rs ≡ map (less_age (later - e.stored)) rs
map_exact e later [] g h a = refl
map_exact e later (r ∷ rs) g h a =
    cc (age_ttl_exact e later r a.0 g h, map_exact e later rs g h a.1)

All-split : {A : Type 0} (P : A → Type 0) (xs ys : List A) → All P (xs ++ ys) → All P xs × All P ys
All-split P [] ys a = (tt, a)
All-split P (x ∷ xs) ys a = let (p, q) = All-split P xs ys a.1 in ((a.0, p), q)

pub message_exact :
    (e : Entry) (later : ℕ)
    → EntryOk e
    → e.stored ≤ later
    → later < e.expires
    → map_records (age_ttl (later - e.stored)) e.response
      ≡ map_records (less_age (later - e.stored)) e.response
unfolding map_records records
message_exact e later a g h =
    let (an, rest) = All-split (Outlives e) e.response.answers _ a in
    let (au, ad) = All-split (Outlives e) e.response.authorities _ rest in
    let p = map_exact e later e.response.answers g h an in
    let q = map_exact e later e.response.authorities g h au in
    let r = map_exact e later e.response.additionals g h ad in
    λ i. record e.response { answers = p i; authorities = q i; additionals = r i }

module _ (L : LruCache Key Entry) where
  open L use {State, find}

  -- A hit serves the entry with the TTLs aged.
  abbrev pub Hit : ℕ → ℕ → Key → DnsCache L → Option Message → DnsCache L → Type 0
  Hit now later key c out c' =
      (e : Entry) × (peek L key c ≡ some e)
      × (now < e.expires)
      × (out ≡ some (map_records (age_ttl (later - e.stored)) e.response))
      × (peek L key c' ≡ some e)
      × (c'.hits ≡ c.hits + 1)
      × (c'.misses ≡ c.misses)

  -- A miss means that there is no entry, or one that has expired, and none afterwards.
  abbrev pub Miss : ℕ → Key → DnsCache L → Option Message → DnsCache L → Type 0
  Miss now key c out c' =
      ((e : Entry) → peek L key c ≡ some e → e.expires ≤ now)
      × (out ≡ none)
      × (peek L key c' ≡ none)
      × (c'.hits ≡ c.hits)
      × (c'.misses ≡ c.misses + 1)

  module _ (now later : ℕ) (key : Key) (c : DnsCache L) where
    count : State → Option Message × State → Option Message × DnsCache L
    count t (hit, s) = counted L hit (some s) (record c { entries = some t })

    pub get_off :
        c.entries ≡ none
        → get L now later key c ≡ (none, record c { entries = none; misses = c.misses + 1 })
    unfolding get
    get_off off = ap (λ o. get L now later key (record c { entries = o })) off

    get_on :
        (t : State) (found : Option Entry)
        → c.entries ≡ some t
        → find key t ≡ found
        → get L now later key c ≡ count t (looked_up L now later key found (L.get key t).1)
    unfolding get count
    get_on t found on h =
        ap (λ o. get L now later key (record c { entries = o })) on
        ∙ ap (λ o. count t (looked_up L now later key o (L.get key t).1)) (L.get-find key t ∙ h)

    -- The three ways that a lookup in a cache goes.
    pub get_absent :
        (t : State)
        → c.entries ≡ some t
        → find key t ≡ none
        → get L now later key c
          ≡ (none, record c { entries = some (L.get key t).1; misses = c.misses + 1 })
    unfolding count looked_up counted
    get_absent t on absent = get_on t none on absent

    pub get_fresh :
        (t : State) (e : Entry)
        → c.entries ≡ some t
        → find key t ≡ some e
        → ltb now e.expires ≡ true
        → get L now later key c ≡ (
          some (map_records (age_ttl (later - e.stored)) e.response),
          record c { entries = some (L.get key t).1; hits = c.hits + 1 },
        )
    unfolding count looked_up counted
    get_fresh t e on present fresh = get_on t (some e) on present ∙ rw fresh

    pub get_stale :
        (t : State) (e : Entry)
        → c.entries ≡ some t
        → find key t ≡ some e
        → ltb now e.expires ≡ false
        → get L now later key c
          ≡ (none, record c { entries = some (L.pop key (L.get key t).1); misses = c.misses + 1 })
    unfolding count looked_up counted
    get_stale t e on present stale = get_on t (some e) on present ∙ rw stale

    -- A lookup either finds an entry that expires after the present, answers it with its TTLs aged,
    -- keeps it and counts one hit; or there is no entry for the key that expires after the present,
    -- it answers nothing, no entry for the key is left, and it counts one miss.
    pub get_cases :
        Hit now later key c (get L now later key c).0 (get L now later key c).1
        ⊎ Miss now key c (get L now later key c).0 (get L now later key c).1
    unfolding peek
    get_cases = elim (Option-cases c.entries) [
      | inl off ↦ inr (rw (get_off off) (λ e k. absurd (nothing off e k), refl, refl, refl, refl))
      | inr (t, on) ↦ elim (Option-cases (find key t)) [
        | inl absent ↦ inr (
            rw (get_absent t on absent) (
              λ e k. absurd (cc (peek_on L key c t on, absent, k)),
              refl,
              L.find-get key key t ∙ absent,
              refl,
              refl,
            ))
        | inr (e, present) ↦ elim (Bool-cases (ltb now e.expires)) [
          | inl fresh ↦
              let kept = L.find-get key key t ∙ present in
              let eq = get_fresh t e on present fresh in
              inl (
                e,
                peek_on L key c t on ∙ present,
                ltb→lt now e.expires fresh,
                ap (λ o. o.0) eq,
                ap (λ o. peek L key o.1) eq ∙ kept,
                ap (λ o. o.1.hits) eq,
                ap (λ o. o.1.misses) eq,
              )
          | inr stale ↦ inr (
              rw (get_stale t e on present stale) (
                λ f k. expired e f stale (cc (peek_on L key c t on, present, k)),
                refl,
                L.find-pop_self key (L.get key t).1,
                refl,
                refl,
              ))
        ]
      ]
    ]
      where
        nothing : c.entries ≡ none → (e : Entry) → peek L key c ≡ some e → ⊥
        nothing off e k = cc (ap (λ o. peek L key (record c { entries = o })) off, k)

        expired : (e f : Entry) → ltb now e.expires ≡ false → e ≡ f → f.expires ≤ now
        expired e f stale same = subst (λ (x : Entry). x.expires ≤ now) same (ground arith)
