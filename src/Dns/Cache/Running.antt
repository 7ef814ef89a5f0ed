-- ===== src/Dns/Cache/Running.antt =====
-- A whole run of the cache: lookups, stores, changes of the settings and clears, in any order.
use ad_block.Base.{
  ℕ, zero, suc, ◌^◌, ◌≤◌, ◌<◌, ◌≡◌, refl, sym, ap, subst, ◌∙◌, inl, inr, List, [], ◌∷◌, Option,
  none, some, arith, ltb, Bool-cases, Option-cases, All,
}
use ad_block.Dns.Cache.{
  LruCache, Key, Entry, DnsCache, new, new_entries, resized, set_config, is_cacheable, get, put,
  clear, length, capacity,
}
use ad_block.Dns.Cache.Stored.{Sound, IsU32, peek, peek_on, shrinks-Sound, put-Sound}
use ad_block.Dns.Cache.Reads.{get_off, get_absent, get_fresh, get_stale}
use ad_block.Dns.Message.{Message, records}

pub data Call : Type 0 where
  gets : ℕ → ℕ → Key → Call
  puts : ℕ → Key → Message → Call
  configures : ℕ → ℕ → ℕ → Call
  clears : Call

-- What the callers pass: TTLs and their lower bound are 32-bit.
abbrev pub CallOk : Call → Type 0
CallOk (gets now later key) = Unit {0}
CallOk (puts now key m) = All IsU32 (records m)
CallOk (configures n lo hi) = lo < 2 ^ 32
CallOk clears = Unit {0}

-- The capacity that the calls leave.
unfoldable pub configured : ℕ → List Call → ℕ
configured n [] = n
configured n (configures k lo hi ∷ cs) = configured k cs
configured n (gets now later key ∷ cs) = configured n cs
configured n (puts now key m ∷ cs) = configured n cs
configured n (clears ∷ cs) = configured n cs

module _ (L : LruCache Key Entry) where
  open L use {State, find, cap}

  unfoldable pub step : Call → DnsCache L → DnsCache L
  step (gets now later key) c = (get L now later key c).1
  step (puts now key m) c = put L now key m c
  step (configures n lo hi) c = set_config L n lo hi c
  step clears c = (clear L c).1

  unfoldable pub run : List Call → DnsCache L → DnsCache L
  unfolding step
  run [] c = c
  run (k ∷ ks) c = run ks (step k c)

  -- The cache, with its map or without.
  abbrev at : DnsCache L → Option State → DnsCache L
  at c o = record c { entries = o }

  -- A lookup leaves the map as `LruCache::get` does, or pops the key as well; the settings stay.
  abbrev Looked : Key → DnsCache L → DnsCache L → Type 0
  Looked key c c' =
      ((j : Key) (e : Entry) → peek L j c' ≡ some e → peek L j c ≡ some e)
      × (c'.min_ttl ≡ c.min_ttl)
      × (capacity L c' ≡ capacity L c)

  get-Looked : (now later : ℕ) (key : Key) (c : DnsCache L) → Looked key c (get L now later key c).1
  unfolding peek capacity
  get-Looked now later key c = elim (Option-cases c.entries) [
    | inl off ↦
        rw (get_off L now later key c off)
          (λ j e k. absurd (cc k), refl, sym (ap (λ o. capacity L (at c o)) off))
    | inr (t, on) ↦
        let same : capacity L c ≡ cap t = ap (λ o. capacity L (at c o)) on in
        elim (Option-cases (find key t)) [
          | inl absent ↦ rw (get_absent L now later key c t on absent) (
            λ j e k. peek_on L j c t on ∙ sym (L.find-get j key t) ∙ k,
            refl,
            L.cap-get key t ∙ sym same,
          )
          | inr (e, present) ↦ elim (Bool-cases (ltb now e.expires)) [
            | inl fresh ↦ rw (get_fresh L now later key c t e on present fresh) (
              λ j f k. peek_on L j c t on ∙ sym (L.find-get j key t) ∙ k,
              refl,
              L.cap-get key t ∙ sym same,
            )
            | inr stale ↦ rw (get_stale L now later key c t e on present stale) (
              λ j f k.
                  peek_on L j c t on
                  ∙ sym (L.find-get j key t)
                  ∙ L.find-pop j key f (L.get key t).1 k,
              refl,
              L.cap-pop key (L.get key t).1 ∙ L.cap-get key t ∙ sym same,
            )
          ]
        ]
  ]

  get-Sound :
      (now later : ℕ) (key : Key) (c : DnsCache L) → Sound L c → Sound L (get L now later key c).1
  get-Sound now later key c s =
      let (old, bound, _) = get-Looked now later key c in
      shrinks-Sound L c _ old (subst (λ n. n < 2 ^ 32) (sym bound) s.bound_u32) s

  resized-peek :
      (n lo hi : ℕ) (c : DnsCache L) (o : Option State) (j : Key) (e : Entry)
      → peek L j (record c { entries = resized L n o; min_ttl = lo; max_ttl = hi }) ≡ some e
      → peek L j (at c o) ≡ some e
  unfolding peek resized new_entries
  resized-peek zero lo hi c o j e k = absurd (cc k)
  resized-peek (suc n) lo hi c none j e k = absurd (cc (k, L.find-new (suc n) j))
  resized-peek (suc n) lo hi c (some t) j e k = L.find-resize (suc n) j e t k

  clear_peek :
      (c : DnsCache L) (o : Option State) (j : Key) (e : Entry)
      → peek L j (clear L (at c o)).1 ≡ some e
      → peek L j (at c o) ≡ some e
  unfolding peek clear
  clear_peek c none j e k = k
  clear_peek c (some t) j e k = absurd (cc (k, L.find-clear j t))

  clear-min_ttl : (c : DnsCache L) (o : Option State) → (clear L (at c o)).1.min_ttl ≡ c.min_ttl
  unfolding clear
  clear-min_ttl c none = refl
  clear-min_ttl c (some t) = refl

  step-Sound : (k : Call) (c : DnsCache L) → CallOk k → Sound L c → Sound L (step k c)
  unfolding step set_config
  step-Sound (gets now later key) c a s = get-Sound now later key c s
  step-Sound (puts now key m) c a s = put-Sound L now key m c a s
  step-Sound (configures n lo hi) c a s = shrinks-Sound L c _ (resized-peek n lo hi c c.entries) a s
  step-Sound clears c a s =
      shrinks-Sound L c _ (clear_peek c c.entries)
        (subst (λ n. n < 2 ^ 32) (sym (clear-min_ttl c c.entries)) s.bound_u32) s

  -- If the lower TTL bound of the cache is 32-bit and every entry found in it has 32-bit TTLs and
  -- expires no later than each of them ends, then the same holds after any sequence of lookups,
  -- puts of messages with 32-bit TTLs, changes of the settings with a 32-bit lower bound, and
  -- clears.
  pub run-Sound : (ks : List Call) (c : DnsCache L) → All CallOk ks → Sound L c → Sound L (run ks c)
  unfolding run
  run-Sound [] c a s = s
  run-Sound (k ∷ ks) c a s = run-Sound ks (step k c) a.1 (step-Sound k c a.0 s)

  resized-capacity :
      (n lo hi : ℕ) (c : DnsCache L) (o : Option State)
      → capacity L (record c { entries = resized L n o; min_ttl = lo; max_ttl = hi }) ≡ n
  unfolding capacity resized new_entries
  resized-capacity zero lo hi c o = refl
  resized-capacity (suc n) lo hi c none = L.cap-new (suc n)
  resized-capacity (suc n) lo hi c (some t) = L.cap-resize (suc n) t

  put-capacity :
      (now : ℕ) (key : Key) (m : Message) (c : DnsCache L) (o : Option State)
      → capacity L (put L now key m (at c o)) ≡ capacity L (at c o)
  unfolding capacity put
  put-capacity now key m c none = elim (Bool-cases (is_cacheable m)) [ inl e ↦ rw e | inr e ↦ rw e ]
  put-capacity now key m c (some t) = elim (Bool-cases (is_cacheable m)) [
    | inl e ↦ rw e (L.cap-put key _ t)
    | inr e ↦ rw e
  ]

  clear-capacity :
      (c : DnsCache L) (o : Option State) → capacity L (clear L (at c o)).1 ≡ capacity L (at c o)
  unfolding capacity clear
  clear-capacity c none = refl
  clear-capacity c (some t) = L.cap-clear t

  run-capacity :
      (ks : List Call) (c : DnsCache L) → capacity L (run ks c) ≡ configured (capacity L c) ks
  unfolding run configured step set_config
  run-capacity [] c = refl
  run-capacity (gets now later key ∷ ks) c =
      run-capacity ks _ ∙ ap (λ n. configured n ks) (get-Looked now later key c).2
  run-capacity (puts now key m ∷ ks) c =
      run-capacity ks _ ∙ ap (λ n. configured n ks) (put-capacity now key m c c.entries)
  run-capacity (configures n lo hi ∷ ks) c =
      run-capacity ks _ ∙ ap (λ n. configured n ks) (resized-capacity n lo hi c c.entries)
  run-capacity (clears ∷ ks) c =
      run-capacity ks _ ∙ ap (λ n. configured n ks) (clear-capacity c c.entries)

  length-le-capacity : (c : DnsCache L) (o : Option State) → length L (at c o) ≤ capacity L (at c o)
  unfolding length capacity
  length-le-capacity c none = omega arith
  length-le-capacity c (some t) = L.len-le-cap t

  new-capacity : (n lo hi : ℕ) → capacity L (new L n lo hi) ≡ n
  unfolding new new_entries capacity
  new-capacity zero lo hi = refl
  new-capacity (suc n) lo hi = L.cap-new (suc n)

  -- A cache made with a capacity has, after any sequence of calls, the capacity set last, and no
  -- more entries than that.
  pub run-bounded :
      (n lo hi : ℕ) (ks : List Call)
      → (capacity L (run ks (new L n lo hi)) ≡ configured n ks)
        × (length L (run ks (new L n lo hi)) ≤ configured n ks)
  run-bounded n lo hi ks =
      let c = run ks (new L n lo hi) in
      let held =
        run-capacity ks (new L n lo hi) ∙ ap (λ k. configured k ks) (new-capacity n lo hi) in
      (held, subst (λ k. length L c ≤ k) held (length-le-capacity c c.entries))
