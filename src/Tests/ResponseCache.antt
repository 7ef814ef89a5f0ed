-- ===== src/Tests/ResponseCache.antt =====
-- The response cache, at concrete inputs, over a map that keeps only the entry put last.
use ad_block.Base.{
  ℕ, zero, suc, ◌-◌, ◌*◌, ◌/◌, ◌≤◌, ◌<◌, ◌≡◌, refl, subst, ◌⊎◌, inl, inr, Bool, true, false, ◌&&◌,
  List, [], ◌∷◌, Option, none, some, arith, ◌==◌, if◌then◌else◌, Bool-cases, All,
}
use ad_block.Dns.Cache.{
  LruCache, Key, Entry, DnsCache, second, clamp_ttl, is_cacheable, entry_of, new, get, put, length,
  capacity, shortest_from, expiry, looked_up, counted,
}
use ad_block.Dns.Cache.Reads.{Hit, Miss, less_age, get_cases}
use ad_block.Dns.Cache.Running.{Call, CallOk, run, configured, run-Sound, run-bounded}
use ad_block.Dns.Cache.Serving.{get_exact, get-put}
use ad_block.Dns.Cache.Stored.{Sound, IsU32, EntryOk, peek}
use ad_block.Dns.Message.{query_code, RData, Message, ResponseCode, records, map_records}
use ad_block.Text.{text_eq, codes}
use ad_block.Text.Laws.{eq_of_text_eq, text_eq_refl}

key_eq : Key → Key → Bool
key_eq j k = text_eq j.name k.name && j.qtype == k.qtype && j.qclass == k.qclass

key_eq_refl : (k : Key) → key_eq k k ≡ true
unfolding key_eq
key_eq_refl k = ground (arith, text_eq_refl k.name)

eq_of_key_eq : (j k : Key) → key_eq j k ≡ true → j ≡ k
unfolding key_eq
eq_of_key_eq j k h =
    let name = eq_of_text_eq j.name k.name (ground arith) in
    let qtype : j.qtype ≡ k.qtype = ground arith in
    let qclass : j.qclass ≡ k.qclass = ground arith in
    λ i. record { name = name i; qtype = qtype i; qclass = qclass i }

abbrev pub Slot : Type 0
Slot = ℕ × Option (Key × Entry)

pub found : Key → Option (Key × Entry) → Option Entry
found k none = none
found k (some (j, e)) = if key_eq k j then some e else none

pub look : Key → Slot → Option Entry
unfolding found
look k (zero, o) = none
look k (suc n, o) = found k o

pub used : Slot → ℕ
used (zero, o) = 0
used (suc n, none) = 0
used (suc n, some e) = 1

pub without : Key → Option (Key × Entry) → Option (Key × Entry)
without k none = none
without k (some (j, e)) = if key_eq k j then none else some (j, e)

pub look_put_self : (k : Key) (v : Entry) (s : Slot) → 0 < s.0 → look k (s.0, some (k, v)) ≡ some v
unfolding look
look_put_self k v (zero, o) h = absurd (omega arith)
look_put_self k v (suc n, o) h = rw (key_eq_refl k)

pub look_put :
    (j k : Key) (v w : Entry) (s : Slot)
    → look j (s.0, some (k, v)) ≡ some w
    → ((j ≡ k) × (w ≡ v)) ⊎ (look j s ≡ some w)
unfolding look
look_put j k v w (zero, o) h = absurd (cc h)
look_put j k v w (suc n, o) h = elim (Bool-cases (key_eq j k)) [
  | inl e ↦ inl (eq_of_key_eq j k e, cc (rw e at h))
  | inr e ↦ absurd (cc (rw e at h))
]

pub look-without_self : (k : Key) (s : Slot) → look k (s.0, without k s.1) ≡ none
unfolding look without
look-without_self k (zero, o) = refl
look-without_self k (suc n, none) = refl
look-without_self k (suc n, some (j, e)) = elim (Bool-cases (key_eq k j)) [
  | inl h ↦ rw h
  | inr h ↦ rw h (rw h)
]

pub look-without :
    (j k : Key) (w : Entry) (s : Slot) → look j (s.0, without k s.1) ≡ some w → look j s ≡ some w
unfolding look without
look-without j k w (zero, o) h = h
look-without j k w (suc n, none) h = h
look-without j k w (suc n, some (i, e)) h = elim (Bool-cases (key_eq k i)) [
  | inl g ↦ absurd (cc (rw g at h))
  | inr g ↦ rw g at h
]

pub look_clear : (j : Key) (s : Slot) → look j (s.0, none) ≡ none
unfolding look
look_clear j (zero, o) = refl
look_clear j (suc n, o) = refl

pub used-le : (s : Slot) → used s ≤ s.0
unfolding used
used-le (zero, o) = omega arith
used-le (suc n, none) = omega arith
used-le (suc n, some e) = omega arith

pub used_clear : (s : Slot) → used (s.0, none) ≡ 0
unfolding used
used_clear (zero, o) = refl
used_clear (suc n, o) = refl

-- A change of the size empties the map.
abbrev pub last_entry : LruCache Key Entry
last_entry = record {
  State = Slot;
  new = λ n. (n, none);
  get = λ k s. (look k s, s);
  put = λ k v s. (s.0, some (k, v));
  pop = λ k s. (s.0, without k s.1);
  resize = λ n s. (n, none);
  clear = λ s. (s.0, none);
  len = used;
  cap = λ s. s.0;
  find = look;
  find-new = λ n k. look_clear k (n, none);
  get-find = λ k s. refl;
  find-get = λ j k s. refl;
  find-put_self = look_put_self;
  find-put = look_put;
  find-pop_self = look-without_self;
  find-pop = look-without;
  find-resize = λ n j w s h. absurd (cc (look_clear j (n, none), h));
  find-clear = look_clear;
  len-le-cap = used-le;
  len-clear = used_clear;
  cap-new = λ n. refl;
  cap-get = λ k s. refl;
  cap-put = λ k v s. refl;
  cap-pop = λ k s. refl;
  cap-resize = λ n s. refl;
  cap-clear = λ s. refl;
}

abbrev key : Key
key = record { name = codes "a.test"; qtype = 1; qclass = 1 }

-- An answer for 60 s, with an authority for 300 s.
abbrev answer : Message
answer = record {
  id = 7;
  is_response = true;
  op_code = query_code;
  recursion_desired = true;
  recursion_available = true;
  authoritative = false;
  queries = [];
  signed = false;
  edns = none;
  truncation = false;
  response_code = ResponseCode.no_error;
  answers = record { ttl = 60; rdata = RData.other_data []; rest = [] } ∷ [];
  authorities = record { ttl = 300; rdata = RData.other_data []; rest = [] } ∷ [];
  additionals = [];
  rest = [];
}

abbrev pub cache : DnsCache last_entry
cache = record { entries = some (2, none); min_ttl = 0; max_ttl = 120; hits = 0; misses = 0 }

program : Unit {0}
unfolding new get put looked_up counted is_cacheable entry_of clamp_ttl shortest_from expiry records
    map_records peek look found used without key_eq text_eq
program = tt

answer-IsU32 : All IsU32 (records answer)
unfolding program
answer-IsU32 = (omega arith, (omega arith, tt))

storable : is_cacheable answer ≡ true
unfolding program
storable = refl

in_time : (t : ℕ) → t < 60 * second → t < (entry_of 0 120 0 answer).expires
unfolding program
in_time t h = omega arith

-- Two and a half seconds after the store, 58 s are left of the first.
get-put_example :
    (get last_entry (2 * second) (5 * second / 2) key (put last_entry 0 key answer cache)).0
    ≡ some (map_records (less_age (5 * second / 2 - 0)) (map_records (clamp_ttl 0 120) answer))
get-put_example =
    get-put last_entry (2 * second) (5 * second / 2) key cache 0 answer (2, none) refl (omega arith)
      storable (omega arith) answer-IsU32 (omega arith) (in_time 2_000_000_000 (omega arith))
      (in_time 2_500_000_000 (omega arith))

abbrev entry : Entry
entry = record { response = answer; stored = 0; expires = 60 * second }

abbrev holding : DnsCache last_entry
holding = record cache { entries = some (2, some (key, entry)) }

holding-peek : peek last_entry key holding ≡ some entry
unfolding program
holding-peek = refl

holding-Sound : Sound last_entry holding
unfolding program
holding-Sound = record {
  entries_ok = λ k e h. elim (Bool-cases (key_eq k key)) [
    | inl same ↦
        subst EntryOk {x = entry} {y = e} (cc (rw same at h))
          ((omega arith, omega arith), ((omega arith, omega arith), tt))
    | inr other ↦ absurd (cc (rw other at h))
  ];
  bound_u32 = omega arith;
}

get_exact_example :
    (get last_entry second (2 * second) key holding).0
    ≡ some (map_records (less_age (2 * second - 0)) answer)
get_exact_example =
    get_exact last_entry second (2 * second) key holding entry holding-Sound holding-peek
      (omega arith) (omega arith) (omega arith)

-- An hour later, when the entry has expired.
get_cases_example :
    Hit last_entry
      (3600 * second)
      (3600 * second)
      key
      holding
      (get last_entry (3600 * second) (3600 * second) key holding).0
      (get last_entry (3600 * second) (3600 * second) key holding).1
    ⊎ Miss last_entry
        (3600 * second)
        key
        holding
        (get last_entry (3600 * second) (3600 * second) key holding).0
        (get last_entry (3600 * second) (3600 * second) key holding).1
get_cases_example = get_cases last_entry (3600 * second) (3600 * second) key holding

abbrev calls : List Call
calls =
    Call.puts 0 key answer
    ∷ Call.gets second second key
    ∷ Call.configures 1 60 0
    ∷ Call.puts (2 * second) key answer
    ∷ Call.clears
    ∷ []

calls_ok : All CallOk calls
calls_ok = (answer-IsU32, (tt, (omega arith, (answer-IsU32, (tt, tt)))))

run-Sound_example : Sound last_entry (run last_entry calls holding)
run-Sound_example = run-Sound last_entry calls holding calls_ok holding-Sound

run-bounded_example :
    (capacity last_entry (run last_entry calls (new last_entry 4 0 0)) ≡ configured 4 calls)
    × (length last_entry (run last_entry calls (new last_entry 4 0 0)) ≤ configured 4 calls)
run-bounded_example = run-bounded last_entry 4 0 0 calls
