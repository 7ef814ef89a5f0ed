-- ===== src/Dns/Upstream/Reached.antt =====
-- What the addresses of servers keep: no lookup gives 0.0.0.0, and an address stays for a minute.
use ad_block.Base.{
  ℕ, ◌+◌, ◌*◌, ◌<◌, ◌≡◌, refl, ap, sym, subst, ◌∙◌, min, max, ◌⊎◌, inl, inr, Bool, true, false,
  List, [], ◌∷◌, Option, none, some, arith, ltb, if◌then◌else◌, Bool-cases, is_empty, Result, ok,
  err,
}
use mathlib.Core.Option.{some-injective}
use ad_block.Dns.Message.{Rr, RData, a_record, aaaa_record, cname_record, https, svcb, other_data}
use ad_block.Dns.Upstream.Addr.{UpstreamAddr}
use ad_block.Net.{Ipv4Addr}
use ad_block.Text.{Text}
use ad_block.Dns.Upstream.Bootstrap.{
  IpAddr, is_unspecified, Asked, no_socket, silent, not_a_message, answered, BootstrapError,
  no_bootstrap, bad_host, or_else, found_or, address_of, first_address, heard, ask_servers,
  bootstrap_lookup, Resolved, remembered, keep_looked_up, known, reach, target_addr,
}

some-no : {A : Type 0} {x : A} → none ≡ some x → ⊥
some-no e = cc

ok-no : {E A : Type 0} {e : E} {x : A} → err e ≡ ok x → ⊥
ok-no {E = E} {A = A} e = absurd (no (ap is_found e))
  where
    is_found : Result E A → Bool
    is_found (ok x) = true
    is_found (err x) = false

    no : false ≡ true → ⊥
    no p = cc

address_of-specified :
    (d : RData) (ttl : ℕ) (found : Ipv4Addr × ℕ)
    → address_of d ttl ≡ some found
    → is_unspecified found.0 ≡ false
unfolding address_of
address_of-specified (a_record ip) ttl found h = elim (Bool-cases (is_unspecified ip)) [
  | inl e ↦ absurd (some-no (rw e at h))
  | inr e ↦ ap (λ q. is_unspecified q.0) (sym (some-injective _ _ (rw e at h))) ∙ e
]
address_of-specified (aaaa_record t) ttl found h = absurd (some-no h)
address_of-specified (cname_record t) ttl found h = absurd (some-no h)
address_of-specified (https params) ttl found h = absurd (some-no h)
address_of-specified (svcb params) ttl found h = absurd (some-no h)
address_of-specified (other_data t) ttl found h = absurd (some-no h)

or_else-cases :
    (o rest : Option (Ipv4Addr × ℕ)) (found : Ipv4Addr × ℕ)
    → or_else o rest ≡ some found
    → (o ≡ some found) ⊎ (rest ≡ some found)
or_else-cases (some f) rest found h = inl h
or_else-cases none rest found h = inr h

first_address-specified :
    (rs : List Rr) (found : Ipv4Addr × ℕ)
    → first_address rs ≡ some found
    → is_unspecified found.0 ≡ false
unfolding first_address
first_address-specified [] found h = absurd (some-no h)
first_address-specified (r ∷ rs) found h =
    elim (or_else-cases (address_of r.rdata r.ttl) (first_address rs) found h) [
      | inl e ↦ address_of-specified r.rdata r.ttl found e
      | inr e ↦ first_address-specified rs found e
    ]

found_of : Result BootstrapError (Ipv4Addr × ℕ) → Option (Ipv4Addr × ℕ)
found_of (ok f) = some f
found_of (err e) = none

heard-cases :
    (asked : Asked) (rest : Result BootstrapError (Ipv4Addr × ℕ)) (found : Ipv4Addr × ℕ)
    → heard asked rest ≡ ok found
    → (is_unspecified found.0 ≡ false) ⊎ (rest ≡ ok found)
unfolding heard found_of
heard-cases no_socket rest found h = absurd (ok-no h)
heard-cases silent rest found h = inr h
heard-cases not_a_message rest found h = inr h
heard-cases (answered m) rest found h = in_message (first_address m.answers) refl h
  where
    in_message :
        (o : Option (Ipv4Addr × ℕ))
        → first_address m.answers ≡ o
        → found_or o rest ≡ ok found
        → (is_unspecified found.0 ≡ false) ⊎ (rest ≡ ok found)
    in_message (some f) e k = inl (first_address-specified m.answers found (e ∙ ap found_of k))
    in_message none e k = inr k

ask_servers-specified :
    (ask : Ipv4Addr × ℕ → Asked) (servers : List (Ipv4Addr × ℕ)) (found : Ipv4Addr × ℕ)
    → ask_servers ask servers ≡ ok found
    → is_unspecified found.0 ≡ false
unfolding ask_servers
ask_servers-specified ask [] found h = absurd (ok-no h)
ask_servers-specified ask (server ∷ servers) found h =
    elim (heard-cases (ask server) (ask_servers ask servers) found h) [
      | inl e ↦ e
      | inr e ↦ ask_servers-specified ask servers found e
    ]

-- An address that bootstrap_lookup returns is never 0.0.0.0, whatever the bootstrap servers answer.
pub bootstrap_lookup-specified :
    (ask : Ipv4Addr × ℕ → Asked) (is_name : Text → Bool) (servers : List (Ipv4Addr × ℕ))
    (host : Text) (found : Ipv4Addr × ℕ)
    → bootstrap_lookup ask is_name servers host ≡ ok found
    → is_unspecified found.0 ≡ false
unfolding bootstrap_lookup
bootstrap_lookup-specified ask is_name servers host found h =
    by_test (is_empty servers) (is_name host) h
  where
    by_test :
        (x y : Bool)
        → (if x then err no_bootstrap else if y then ask_servers ask servers else err bad_host)
          ≡ ok found
        → is_unspecified found.0 ≡ false
    by_test true y h = absurd (ok-no h)
    by_test false true h = ask_servers-specified ask servers found h
    by_test false false h = absurd (ok-no h)

abbrev Same :
    Option IpAddr
    → Result BootstrapError (Ipv4Addr × ℕ)
    → ℕ
    → ℕ
    → ℕ
    → Result BootstrapError (IpAddr × ℕ) × Resolved
    → Type 0
Same o other port later end q = reach o (remembered q.1 later) other port end q.1 ≡ q

reach-again :
    (o : Option IpAddr) (looked_up other : Result BootstrapError (Ipv4Addr × ℕ))
    (port after later end : ℕ) (target : IpAddr × ℕ) (kept : Resolved)
    → reach o none looked_up port after none ≡ (ok target, kept)
    → later < after + 60_000
    → reach o (remembered kept later) other port end kept ≡ (ok target, kept)
unfolding reach keep_looked_up remembered
reach-again (some ip) looked_up other port after later end target kept h k =
    subst (Same (some ip) other port later end) h refl
reach-again none (err e) other port after later end target kept h k =
    absurd (ok-no (ap (λ q. q.0) h))
reach-again none (ok (ip, ttl)) other port after later end target kept h k =
    let early : ltb later (after + min (max ttl 60) 3600 * 1000) ≡ true = ground arith in
    subst (Same none other port later end) h (rw early refl)

-- If a server that remembers no address is reached at one, then within a minute of the clock
-- reading behind its lookup it is reached at the same one, whatever a lookup would give then, and
-- what it remembers stays.
pub target_addr-again :
    (looked_up other : Result BootstrapError (Ipv4Addr × ℕ)) (addr : UpstreamAddr)
    (now after later end : ℕ) (target : IpAddr × ℕ) (kept : Resolved)
    → target_addr looked_up addr now after none ≡ (ok target, kept)
    → later < after + 60_000
    → target_addr other addr later end kept ≡ (ok target, kept)
unfolding target_addr remembered
target_addr-again looked_up other addr now after later end target kept h k =
    reach-again (known addr) looked_up other addr.port after later end target kept h k
