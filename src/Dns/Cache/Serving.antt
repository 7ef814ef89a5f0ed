-- ===== src/Dns/Cache/Serving.antt =====
-- What a hit serves: the stored records, each with the whole seconds since taken off its TTL.
use ad_block.Base.{
  ℕ, ◌-◌, ◌^◌, ◌≤◌, ◌<◌, ◌≡◌, refl, sym, ap, ◌∙◌, inl, inr, true, Option, none, some, lt→ltb,
  Option-cases, All,
}
use ad_block.Dns.Cache.{LruCache, Key, Entry, DnsCache, clamp_ttl, is_cacheable, entry_of, get, put}
use ad_block.Dns.Cache.Stored.{Sound, IsU32, peek, peek_on, entry_of-EntryOk}
use ad_block.Dns.Cache.Reads.{less_age, message_exact, get_fresh}
use ad_block.Dns.Message.{Message, records, map_records}

module _ (L : LruCache Key Entry) (now later : ℕ) (key : Key) (c : DnsCache L) where
  open L use {State, find, cap}

  -- In a cache whose entries have 32-bit TTLs and expire no later than each of them ends, a lookup
  -- of an entry whose two clock readings lie before its expiry, the later one not before the entry
  -- was stored, answers the stored message with exactly the whole seconds since taken off every
  -- TTL: neither the floor of one second nor the cut to 32 bits applies.
  pub get_exact :
      (e : Entry)
      → Sound L c
      → peek L key c ≡ some e
      → now < e.expires
      → e.stored ≤ later
      → later < e.expires
      → (get L now later key c).0 ≡ some (map_records (less_age (later - e.stored)) e.response)
  unfolding peek
  get_exact e s there fresh stored in_time = elim (Option-cases c.entries) [
    | inl off ↦ absurd (cc (ap (λ o. peek L key (record c { entries = o })) off, there))
    | inr (t, on) ↦
        let present = sym (peek_on L key c t on) ∙ there in
        ap (λ o. o.0) (get_fresh L now later key c t e on present (lt→ltb now e.expires fresh))
        ∙ ap some (message_exact e later (s.entries_ok key e there) stored in_time)
  ]

  -- If the cache is on and has room and its lower TTL bound is 32-bit, then after a put at time t0
  -- of a cacheable message with 32-bit TTLs, a lookup of the key whose two clock readings lie
  -- before the expiry of the entry made, the later one at or after t0, answers the message with its
  -- TTLs clamped and then less the whole seconds since t0.
  pub get-put :
      (t0 : ℕ) (m : Message) (t : State)
      → c.entries ≡ some t
      → 0 < cap t
      → is_cacheable m ≡ true
      → c.min_ttl < 2 ^ 32
      → All IsU32 (records m)
      → t0 ≤ later
      → now < (entry_of c.min_ttl c.max_ttl t0 m).expires
      → later < (entry_of c.min_ttl c.max_ttl t0 m).expires
      → (get L now later key (put L t0 key m c)).0
        ≡ some (map_records (less_age (later - t0)) (map_records (clamp_ttl c.min_ttl c.max_ttl) m))
  unfolding put entry_of
  get-put t0 m t on room storable bound u32 after fresh in_time =
      ap (λ o. (get L now later key o).0) done
      ∙ ap (λ o. o.0)
          (get_fresh L now later key c' (L.put key e t) e refl (L.find-put_self key e t room)
            (lt→ltb now e.expires fresh))
      ∙ ap some (
          message_exact e later (entry_of-EntryOk c.min_ttl c.max_ttl t0 m bound u32) after in_time)
    where
      e : Entry
      e = entry_of c.min_ttl c.max_ttl t0 m

      c' : DnsCache L
      c' = record c { entries = some (L.put key e t) }

      next : Option State → DnsCache L
      next o = elim o [ none ↦ c | some s ↦ record c { entries = some (L.put key e s) } ]

      done : put L t0 key m c ≡ c'
      done = rw storable (ap next on)
