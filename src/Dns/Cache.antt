-- ===== src/Dns/Cache.antt =====
-- src/dns/cache.rs: the cache of DNS responses. The map itself is `LruCache` of the lru package, a
-- parameter with the laws that its documentation states. Times are in nanoseconds and arguments of
-- each call; the counters are taken not to reach 2 ^ 64.
pub mod Stored
pub mod Reads
pub mod Serving
pub mod Running
use ad_block.Base.{
  ℕ, zero, suc, ◌+◌, ◌-◌, ◌*◌, ◌/◌, ◌%◌, ◌^◌, ◌≤◌, ◌<◌, ◌≡◌, ◌⊎◌, min, max, Bool, true, false, ◌&&◌,
  not, List, [], ◌∷◌, Option, none, some, ltb, leb, if◌then◌else◌,
}
use ad_block.Dns.Message.{
  Message, ResponseCode, no_error, nx_domain, form_err, serv_fail, not_imp, refused, other_code, Rr,
  records, map_records,
}
use ad_block.Text.{Text, to_ascii_lowercase}

-- `LruCache<K, V>`: a map of bounded size that drops entries of its own accord when it is full.
pub record LruCache (K V : Type 0) : Type 1 where
  pub State : Type 0
  pub new : ℕ → State
  pub get : K → State → Option V × State
  pub put : K → V → State → State
  pub pop : K → State → State
  pub resize : ℕ → State → State
  pub clear : State → State
  pub len : State → ℕ
  pub cap : State → ℕ
  -- what a lookup would find, without a use of it
  pub find : K → State → Option V
  pub find-new : (n : ℕ) (k : K) → find k (new n) ≡ none
  pub get-find : (k : K) (s : State) → (get k s).0 ≡ find k s
  pub find-get : (j k : K) (s : State) → find j (get k s).1 ≡ find j s
  pub find-put_self : (k : K) (v : V) (s : State) → 0 < cap s → find k (put k v s) ≡ some v
  pub find-put :
      (j k : K) (v w : V) (s : State)
      → find j (put k v s) ≡ some w
      → ((j ≡ k) × (w ≡ v)) ⊎ (find j s ≡ some w)
  pub find-pop_self : (k : K) (s : State) → find k (pop k s) ≡ none
  pub find-pop : (j k : K) (w : V) (s : State) → find j (pop k s) ≡ some w → find j s ≡ some w
  pub find-resize :
      (n : ℕ) (j : K) (w : V) (s : State) → find j (resize n s) ≡ some w → find j s ≡ some w
  pub find-clear : (j : K) (s : State) → find j (clear s) ≡ none
  pub len-le-cap : (s : State) → len s ≤ cap s
  pub len-clear : (s : State) → len (clear s) ≡ 0
  pub cap-new : (n : ℕ) → cap (new n) ≡ n
  pub cap-get : (k : K) (s : State) → cap (get k s).1 ≡ cap s
  pub cap-put : (k : K) (v : V) (s : State) → cap (put k v s) ≡ cap s
  pub cap-pop : (k : K) (s : State) → cap (pop k s) ≡ cap s
  pub cap-resize : (n : ℕ) (s : State) → cap (resize n s) ≡ n
  pub cap-clear : (s : State) → cap (clear s) ≡ cap s

pub record Key : Type 0 where
  pub name : Text
  pub qtype : ℕ
  pub qclass : ℕ

-- The key of a query with that name, in ASCII, and those codes.
unfoldable pub key_of : Text → ℕ → ℕ → Key
key_of name qtype qclass = record { name = to_ascii_lowercase name; qtype = qtype; qclass = qclass }

pub record Entry : Type 0 where
  pub response : Message
  pub stored : ℕ
  pub expires : ℕ

pub record CacheStatus : Type 0 where
  pub entries : ℕ
  pub capacity : ℕ
  pub override_min_ttl_secs : ℕ
  pub override_max_ttl_secs : ℕ
  pub hits : ℕ
  pub misses : ℕ

abbrev pub second : ℕ
second = 1_000_000_000

abbrev pub empty_response_ttl : ℕ
empty_response_ttl = 30 * second

-- `ttl.saturating_sub(age).max(1)`, where the age is in whole seconds and cut to 32 bits.
unfoldable pub age_ttl : ℕ → Rr → Rr
age_ttl elapsed r = record r { ttl = max (r.ttl - (elapsed / second) % 2 ^ 32) 1 }

unfoldable pub is_cacheable : Message → Bool
is_cacheable m =
    not m.truncation && (elim m.response_code [ no_error ↦ true | nx_domain ↦ true | _ ↦ false ])

-- A bound of 0 is no bound.
unfoldable pub clamp_ttl : ℕ → ℕ → Rr → Rr
clamp_ttl min_ttl max_ttl r =
    let raised = if ltb 0 min_ttl then max r.ttl min_ttl else r.ttl in
    record r { ttl = if ltb 0 max_ttl then min raised max_ttl else raised }

-- `shortest`, folded over the records.
unfoldable pub shortest_from : Option ℕ → List Rr → Option ℕ
shortest_from acc [] = acc
shortest_from none (r ∷ rs) = shortest_from (some r.ttl) rs
shortest_from (some s) (r ∷ rs) = shortest_from (some (min s r.ttl)) rs

unfoldable pub expiry : ℕ → Option ℕ → ℕ
expiry now none = now + empty_response_ttl
expiry now (some ttl) = now + ttl * second

unfoldable pub entry_of : ℕ → ℕ → ℕ → Message → Entry
unfolding clamp_ttl shortest_from expiry
entry_of min_ttl max_ttl now m =
    let response = map_records (clamp_ttl min_ttl max_ttl) m in
    record {
      response = response;
      stored = now;
      expires = expiry now (shortest_from none (records response));
    }

module _ (L : LruCache Key Entry) where
  open L use {State, find, len, cap}

  -- `entries` is `none` where the cache is switched off.
  pub record DnsCache : Type 0 where
    pub entries : Option State
    pub min_ttl : ℕ
    pub max_ttl : ℕ
    pub hits : ℕ
    pub misses : ℕ

  -- `NonZeroUsize::new(capacity).map(LruCache::new)`
  unfoldable pub new_entries : ℕ → Option State
  new_entries zero = none
  new_entries (suc n) = some (L.new (suc n))

  unfoldable pub new : ℕ → ℕ → ℕ → DnsCache
  unfolding new_entries
  new capacity min_ttl max_ttl = record {
    entries = new_entries capacity;
    min_ttl = min_ttl;
    max_ttl = max_ttl;
    hits = 0;
    misses = 0;
  }

  unfoldable pub resized : ℕ → Option State → Option State
  unfolding new_entries
  resized zero e = none
  resized (suc n) none = new_entries (suc n)
  resized (suc n) (some s) = some (L.resize (suc n) s)

  unfoldable pub set_config : ℕ → ℕ → ℕ → DnsCache → DnsCache
  unfolding resized
  set_config capacity min_ttl max_ttl c = record c {
    entries = resized capacity c.entries;
    min_ttl = min_ttl;
    max_ttl = max_ttl;
  }

  -- The lookup under the lock, once `LruCache::get` has answered. The clock is read twice: `now` for
  -- the expiry, `later` for the age.
  unfoldable pub looked_up : ℕ → ℕ → Key → Option Entry → State → Option Message × State
  looked_up now later key none s = (none, s)
  looked_up now later key (some e) s =
      if ltb now e.expires
      then (some (map_records (age_ttl (later - e.stored)) e.response), s)
      else (none, L.pop key s)

  -- The counters, behind the lookup.
  unfoldable pub counted : Option Message → Option State → DnsCache → Option Message × DnsCache
  counted none s c = (none, record c { entries = s; misses = c.misses + 1 })
  counted (some m) s c = (some m, record c { entries = s; hits = c.hits + 1 })

  unfoldable pub get : ℕ → ℕ → Key → DnsCache → Option Message × DnsCache
  unfolding looked_up counted
  get now later key c = elim c.entries [
    | none ↦ counted none none c
    | some s ↦
        let (hit, s') = looked_up now later key (L.get key s).0 (L.get key s).1 in
        counted hit (some s') c
  ]

  unfoldable pub put : ℕ → Key → Message → DnsCache → DnsCache
  unfolding is_cacheable entry_of
  put now key response c =
      if is_cacheable response
      then (elim c.entries [
        | none ↦ c
        | some s ↦ record c {
          entries = some (L.put key (entry_of c.min_ttl c.max_ttl now response) s);
        }
      ])
      else c

  unfoldable pub clear : DnsCache → ℕ × DnsCache
  clear c = elim c.entries [
    | none ↦ (0, c)
    | some s ↦ (len s, record c { entries = some (L.clear s) })
  ]

  unfoldable pub length : DnsCache → ℕ
  length c = elim c.entries [ none ↦ 0 | some s ↦ len s ]

  unfoldable pub capacity : DnsCache → ℕ
  capacity c = elim c.entries [ none ↦ 0 | some s ↦ cap s ]

  unfoldable pub status : DnsCache → CacheStatus
  unfolding length capacity
  status c = record {
    entries = length c;
    capacity = capacity c;
    override_min_ttl_secs = c.min_ttl;
    override_max_ttl_secs = c.max_ttl;
    hits = c.hits;
    misses = c.misses;
  }
