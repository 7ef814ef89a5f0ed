-- ===== src/Dns/Service/Made.antt =====
-- The resolver that is in force is made for the settings that are in force.
use ad_block.Base.{
  ℕ, ◌≡◌, refl, sym, ap, subst, ◌∙◌, inl, inr, arith, Bool, true, false, List, [], ◌∷◌, map, find,
  Bool-cases, Option-cases, Result, ok, err,
}
use ad_block.Dns.Cache.{LruCache, Key, Entry}
use ad_block.Dns.Service.Changes.{
  texts_eq, mode_eq, same_servers, ChangeError, inheriting, resolver_for, Configured, put_in_force,
  when_valid, realize, apply_settings,
}
use ad_block.Dns.Settings.{
  UpstreamMode, failover, load_balance, parallel, DnsOverrides, EffectiveDnsSettings,
  with_overrides, validate, Invalid,
}
use ad_block.Dns.Upstream.Addr.{UpstreamAddr}
use ad_block.Dns.Upstream.Answers.{Result-cases}
use ad_block.Dns.Upstream.Probe.{same_target, inherited, inherit_ech}
use ad_block.Dns.Upstream.Resolver.{
  Upstream, Resolver, ResolverError, parse_upstreams, parse_bootstrap, new,
}
use ad_block.Text.{Text}
use ad_block.Text.Laws.{eq_of_text_eq}

-- The addresses of servers.
abbrev pub addrs : List Upstream → List UpstreamAddr
addrs = map (λ u. u.addr)

-- A resolver has the servers of the settings, in their order, and their mode.
abbrev pub Made : EffectiveDnsSettings → Resolver → Type 0
Made e r =
    (us : List Upstream) × (parse_upstreams e.upstreams ≡ ok us)
    × (addrs r.upstreams ≡ addrs us)
    × (r.mode ≡ e.upstream_mode)

eq_of_texts_eq : (ss ts : List Text) → texts_eq ss ts ≡ true → ss ≡ ts
unfolding texts_eq
eq_of_texts_eq [] [] h = refl
eq_of_texts_eq [] (t ∷ ts) h = cc
eq_of_texts_eq (s ∷ ss) [] h = cc
eq_of_texts_eq (s ∷ ss) (t ∷ ts) h =
    let first : s ≡ t = eq_of_text_eq s t (ground arith) in
    let rest : ss ≡ ts = eq_of_texts_eq ss ts (ground arith) in cc

eq_of_mode_eq : (m n : UpstreamMode) → mode_eq m n ≡ true → m ≡ n
unfolding mode_eq
eq_of_mode_eq failover failover h = refl
eq_of_mode_eq load_balance load_balance h = refl
eq_of_mode_eq parallel parallel h = refl
eq_of_mode_eq failover load_balance h = cc
eq_of_mode_eq failover parallel h = cc
eq_of_mode_eq load_balance failover h = cc
eq_of_mode_eq load_balance parallel h = cc
eq_of_mode_eq parallel failover h = cc
eq_of_mode_eq parallel load_balance h = cc

addrs-inherited : (old us : List Upstream) → addrs (map (inherited old) us) ≡ addrs us
unfolding inherited
addrs-inherited old [] = refl
addrs-inherited old (u ∷ us) = elim (Option-cases (find (same_target u) old)) [
  | inl e ↦ rw (e, inherited) (ap (◌∷◌ u.addr) (addrs-inherited old us))
  | inr (prev, e) ↦ rw (e, inherited) (ap (◌∷◌ u.addr) (addrs-inherited old us))
]

ok-injective : {E A : Type 0} (d : A) {x y : A} → Path (Result E A) (ok x) (ok y) → x ≡ y
ok-injective {E = E} {A = A} d h = ap value h
  where
    value : Result E A → A
    value (ok z) = z
    value (err e) = d

not_ok : {E A : Type 0} {x : E} {y : A} → Path (Result E A) (err x) (ok y) → ⊥
not_ok {E = E} {A = A} h = cc

new-Made :
    (specs : List Text) (mode : UpstreamMode) (boot : List Text) (t : ℕ) (r : Resolver)
    → new specs mode boot t ≡ ok r
    → (parse_upstreams specs ≡ ok r.upstreams) × (r.mode ≡ mode)
unfolding new
new-Made specs mode boot t r h = elim (Result-cases (parse_upstreams specs)) [
  | inl (us, e) ↦ elim (Result-cases (parse_bootstrap boot)) [
    | inl (bs, f) ↦
        let made = ok-injective r (rw (e, f, new) at h) in
        (e ∙ ap (λ q. ok q.upstreams) made, sym (ap (λ q. q.mode) made))
    | inr (x, f) ↦ absurd (not_ok (rw (e, f, new) at h))
  ]
  | inr (x, e) ↦ absurd (not_ok (rw (e, new) at h))
]

resolver_for-Made :
    (t : ℕ) (eff current : EffectiveDnsSettings) (r next : Resolver)
    → Made current r
    → resolver_for t eff current r ≡ ok next
    → Made eff next
unfolding resolver_for same_servers inherit_ech
resolver_for-Made t eff current r next m h = elim (Bool-cases (same_servers eff current)) [
  | inl e ↦ kept e (ok-injective r (rw (e, resolver_for) at h))
  | inr e ↦
      renewed (new eff.upstreams eff.upstream_mode eff.bootstrap t) refl (rw (e, resolver_for) at h)
]
  where
    kept : same_servers eff current ≡ true → r ≡ next → Made eff next
    kept e q =
        let (us, p, a, b) = m in
        let servers : eff.upstreams ≡ current.upstreams =
          eq_of_texts_eq eff.upstreams current.upstreams (ground arith) in
        let mode : eff.upstream_mode ≡ current.upstream_mode =
          eq_of_mode_eq eff.upstream_mode current.upstream_mode (ground arith) in
        (
          us,
          ap parse_upstreams servers ∙ p,
          ap (λ k. addrs k.upstreams) (sym q) ∙ a,
          ap (λ k. k.mode) (sym q) ∙ b ∙ sym mode,
        )

    renewed :
        (o : Result ResolverError Resolver)
        → new eff.upstreams eff.upstream_mode eff.bootstrap t ≡ o
        → inheriting r o ≡ ok next
        → Made eff next
    renewed (err x) e q = absurd (not_ok q)
    renewed (ok fresh) e q =
        let (p, mode) = new-Made eff.upstreams eff.upstream_mode eff.bootstrap t fresh e in
        let same = ok-injective r q in
        (
          fresh.upstreams,
          p,
          ap (λ k. addrs k.upstreams) (sym same) ∙ addrs-inherited r.upstreams fresh.upstreams,
          ap (λ k. k.mode) (sym same) ∙ mode,
        )

module _ (L : LruCache Key Entry) where
  realize-Made :
      (t : ℕ) (eff : EffectiveDnsSettings) (persisted : Bool) (saved : DnsOverrides)
      (c next : Configured L)
      → Made c.service.settings c.service.resolver
      → realize L t eff persisted saved c ≡ ok next
      → Made next.service.settings next.service.resolver
  unfolding realize
  realize-Made t eff persisted saved c next m h =
      valid (validate eff) (resolver_for t eff c.service.settings c.service.resolver) persisted refl
        h
    where
      valid :
          (v : Result Invalid (Unit {0})) (o : Result ChangeError Resolver) (written : Bool)
          → resolver_for t eff c.service.settings c.service.resolver ≡ o
          → when_valid L v (put_in_force L eff written saved o c) ≡ ok next
          → Made next.service.settings next.service.resolver
      valid (err e) o written q k = absurd (not_ok k)
      valid (ok u) (err e) written q k = absurd (not_ok k)
      valid (ok u) (ok r) false q k = absurd (not_ok k)
      valid (ok u) (ok r) true q k =
          subst (λ d. Made d.service.settings d.service.resolver) (ok-injective c k)
            (resolver_for-Made t eff c.service.settings c.service.resolver r m q)

  -- If the resolver in force has the servers of the settings, in their order, and their mode, then
  -- so it is after a change of the settings that succeeds, whether the resolver was kept or
  -- replaced.
  pub apply_settings-Made :
      (t : ℕ) (persisted : Bool) (upd : DnsOverrides) (c next : Configured L)
      → Made c.service.settings c.service.resolver
      → apply_settings L t persisted upd c ≡ ok next
      → Made next.service.settings next.service.resolver
  unfolding apply_settings
  apply_settings-Made t persisted upd c next m h =
      realize-Made t (with_overrides c.service.settings upd) persisted _ c next m h
