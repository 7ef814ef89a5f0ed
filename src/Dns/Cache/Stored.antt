-- ===== src/Dns/Cache/Stored.antt =====
-- What is stored: every entry expires no later than each of its records, and the calls keep it so.
use mathlib.Core.List.{map-append}
use ad_block.Base.{
  ℕ, zero, suc, ◌+◌, ◌*◌, ◌^◌, ◌≤◌, ◌<◌, ◌≡◌, refl, sym, ap, subst, ◌∙◌, inl, inr, min, List, [],
  ◌∷◌, map, Option, none, some, arith, Bool-cases, Option-cases, All,
}
use ad_block.Dns.Cache.{
  LruCache, Key, Entry, DnsCache, second, clamp_ttl, shortest_from, expiry, entry_of, is_cacheable,
  new, put,
}
use ad_block.Dns.Message.{Message, Rr, records, map_records}

-- TTLs are 32-bit, and none ends before the entry does.
abbrev pub Outlives : Entry → Rr → Type 0
Outlives e r = (e.expires ≤ e.stored + r.ttl * second) × (r.ttl < 2 ^ 32)

abbrev pub EntryOk : Entry → Type 0
EntryOk e = All (Outlives e) (records e.response)

-- The shortest of the TTLs, from a value on.
shortest_le :
    (s : ℕ) (rs : List Rr)
    → (t : ℕ) × (shortest_from (some s) rs ≡ some t) × (t ≤ s) × All (λ r. t ≤ r.ttl) rs
unfolding shortest_from
shortest_le s [] = (s, refl, omega arith, tt)
shortest_le s (r ∷ rs) =
    let (t, e, h, a) = shortest_le (min s r.ttl) rs in (t, e, omega arith, (omega arith, a))

All-weaken {ℓ} :
    {A : Type 0} (P Q : A → Type ℓ) (xs : List A) → ((x : A) → P x → Q x) → All P xs → All Q xs
All-weaken P Q [] f h = tt
All-weaken P Q (x ∷ xs) f h = (f x h.0, All-weaken P Q xs f h.1)

-- The expiry is that of the record with the shortest TTL.
expiry-le :
    (now : ℕ) (rs : List Rr)
    → All (λ r. expiry now (shortest_from none rs) ≤ now + r.ttl * second) rs
unfolding expiry shortest_from
expiry-le now [] = tt
expiry-le now (r ∷ rs) =
    let (t, e, h, a) = shortest_le r.ttl rs in
    subst (λ (x : Option ℕ). All (λ q. expiry now x ≤ now + q.ttl * second) (r ∷ rs)) (sym e)
      (
        omega arith,
        All-weaken (λ q. t ≤ q.ttl) (λ q. now + t * second ≤ now + q.ttl * second) rs
            (λ q (k : t ≤ q.ttl). omega arith) a,
      )

pub records-map_records :
    (f : Rr → Rr) (m : Message) → records (map_records f m) ≡ map f (records m)
unfolding records map_records
records-map_records f m = simp (map-append)

abbrev pub IsU32 : Rr → Type 0
IsU32 r = r.ttl < 2 ^ 32

clamp_ttl-IsU32 :
    (lo hi : ℕ) (rs : List Rr) → lo < 2 ^ 32 → All IsU32 rs → All IsU32 (map (clamp_ttl lo hi) rs)
unfolding clamp_ttl
clamp_ttl-IsU32 lo hi [] h a = tt
clamp_ttl-IsU32 lo hi (r ∷ rs) h a = (ground arith, clamp_ttl-IsU32 lo hi rs h a.1)

All-zip :
    {A : Type 0} (P Q R : A → Type 0) (xs : List A)
    → ((x : A) → P x → Q x → R x)
    → All P xs
    → All Q xs
    → All R xs
All-zip P Q R [] f p q = tt
All-zip P Q R (x ∷ xs) f p q = (f x p.0 q.0, All-zip P Q R xs f p.1 q.1)

-- The entry that `put` makes.
pub entry_of-EntryOk :
    (lo hi now : ℕ) (m : Message)
    → lo < 2 ^ 32
    → All IsU32 (records m)
    → EntryOk (entry_of lo hi now m)
unfolding entry_of
entry_of-EntryOk lo hi now m h a =
    All-zip _ IsU32 (Outlives (entry_of lo hi now m)) _ (λ r p q. (p, q))
      (expiry-le now (records (map_records (clamp_ttl lo hi) m)))
      (subst (All IsU32) (sym (records-map_records (clamp_ttl lo hi) m))
        (clamp_ttl-IsU32 lo hi (records m) h a))

module _ (L : LruCache Key Entry) where
  open L use {State, find}

  -- What the cache holds for a key.
  unfoldable pub peek : Key → DnsCache L → Option Entry
  peek key c = elim c.entries [ none ↦ none | some s ↦ find key s ]

  pub record Sound (c : DnsCache L) : Type 0 where
    pub entries_ok : (key : Key) (e : Entry) → peek key c ≡ some e → EntryOk e
    pub bound_u32 : c.min_ttl < 2 ^ 32

  -- A call that only drops entries.
  pub shrinks-Sound :
      (c c' : DnsCache L)
      → ((key : Key) (e : Entry) → peek key c' ≡ some e → peek key c ≡ some e)
      → c'.min_ttl < 2 ^ 32
      → Sound c
      → Sound c'
  shrinks-Sound c c' h b s = record {
    entries_ok = λ key e k. s.entries_ok key e (h key e k);
    bound_u32 = b;
  }

  pub new-Sound : (capacity lo hi : ℕ) → lo < 2 ^ 32 → Sound (new L capacity lo hi)
  unfolding new peek
  new-Sound zero lo hi h = record { entries_ok = λ key e k. cc; bound_u32 = h }
  new-Sound (suc n) lo hi h = record {
    entries_ok = λ key e k. cc (L.find-new (suc n) key);
    bound_u32 = h;
  }

  pub peek_on :
      (key : Key) (c : DnsCache L) (t : State) → c.entries ≡ some t → peek key c ≡ find key t
  unfolding peek
  peek_on key c t on = rw on

  put_into-Sound :
      (now : ℕ) (key : Key) (m : Message) (c : DnsCache L) (t : State)
      → All IsU32 (records m)
      → c.entries ≡ some t
      → Sound c
      → Sound (record c { entries = some (L.put key (entry_of c.min_ttl c.max_ttl now m) t) })
  unfolding peek
  put_into-Sound now key m c t a on s = record {
    entries_ok = λ j e k. elim (L.find-put j key (entry_of c.min_ttl c.max_ttl now m) e t k) [
      | inl (_, same) ↦
          subst EntryOk (sym same) (entry_of-EntryOk c.min_ttl c.max_ttl now m s.bound_u32 a)
      | inr old ↦ s.entries_ok j e (peek_on j c t on ∙ old)
    ];
    bound_u32 = s.bound_u32;
  }

  -- `put` keeps it for a message whose TTLs are 32-bit, as those on the wire are.
  pub put-Sound :
      (now : ℕ) (key : Key) (m : Message) (c : DnsCache L)
      → All IsU32 (records m)
      → Sound c
      → Sound (put L now key m c)
  unfolding put
  put-Sound now key m c a s = elim (Bool-cases (is_cacheable m)) [
    | inr no_store ↦ rw no_store s
    | inl store ↦ elim (Option-cases c.entries) [
      | inl off ↦ rw store (subst Sound (sym (unchanged off)) s)
      | inr (t, on) ↦
          rw store (subst Sound (sym (stored t on)) (put_into-Sound now key m c t a on s))
    ]
  ]
    where
      next : Option State → DnsCache L
      next o = elim o [
        | none ↦ c
        | some t ↦ record c { entries = some (L.put key (entry_of c.min_ttl c.max_ttl now m) t) }
      ]

      unchanged : c.entries ≡ none → next c.entries ≡ c
      unchanged off = ap next off

      stored :
          (t : State)
          → c.entries ≡ some t
          → next c.entries
            ≡ record c { entries = some (L.put key (entry_of c.min_ttl c.max_ttl now m) t) }
      stored t on = ap next on
