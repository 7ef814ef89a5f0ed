-- ===== src/Proxy/Pipeline/Connect.antt =====
-- `plan_connect` over the exclusions, and the host that it takes from an authority.
use ad_block.Base.{
  ℕ, ◌≡◌, ◌≢◌, refl, sym, ap, subst, ◌∙◌, ◌⊎◌, inl, inr, true, false, [], ◌∷◌, ◌++◌, Option, none,
  some, arith, ==_refl, Bool-cases,
}
use ad_block.Proxy.Exclusions.{Exclusion, ExclusionStore, matching}
use ad_block.Proxy.Exclusions.Match.{Tunnels, matching_cases}
use ad_block.Proxy.Pipeline.{
  ConnectVerdict, deny, blind_tunnel, mitm, connect_verdict, plan_connect,
}
use ad_block.Proxy.Target.{split_host_port}
use ad_block.Net.Ports.{port_text}
use ad_block.Text.{Text, is_char, contains, before, strip_prefix}
use ad_block.Text.Laws.{split_once-append}

-- What may be done with a host.
abbrev pub Allowed : (Text → Option Text) → ExclusionStore → Text → ConnectVerdict → Type 0
Allowed check s host v =
    ((rule : Text) × (check host ≡ some rule) × (v ≡ deny rule))
    ⊎ ((check host ≡ none) × (e : Exclusion) × Tunnels s host e × (v ≡ blind_tunnel e.domain))
    ⊎ ((check host ≡ none) × ((e : Exclusion) → ¬ Tunnels s host e) × (v ≡ mitm))

verdict_cases :
    (check : Text → Option Text) (s : ExclusionStore) (host : Text) (found : Option Text)
    → check host ≡ found
    → Allowed check s host (connect_verdict found (matching s host))
unfolding connect_verdict
verdict_cases check s host (some rule) h = inl (rule, h, refl)
verdict_cases check s host none h = elim (matching_cases s host) [
  | inl (e, t, m) ↦ inr (inl (h, e, t, ap (connect_verdict none) m))
  | inr (nobody, m) ↦ inr (inr (h, nobody, ap (connect_verdict none) m))
]

before-append : (c : ℕ) (h t : Text) → contains c h ≡ false → before (is_char c) (h ++ (c ∷ t)) ≡ h
unfolding before
before-append c [] t k = rw (==_refl c)
before-append c (d ∷ h) t k = ground (arith, before-append c h t)

-- For a tunnel to a host without a colon and any port, the host of the plan is that host, and the
-- verdict is to deny it by the rule that the filter names; or the filter names none and it is
-- tunnelled blindly by an enabled exclusion that covers it; or the filter names none, no enabled
-- exclusion covers it, and it is inspected.
pub plan_connect_cases :
    (check : Text → Option Text) (s : ExclusionStore) (host : Text) (port : ℕ)
    → contains b':' host ≡ false
    → ((plan_connect (host ++ (b':' ∷ port_text port)) check (matching s)).host ≡ host)
      × Allowed check s host
          (plan_connect (host ++ (b':' ∷ port_text port)) check (matching s)).verdict
unfolding plan_connect
plan_connect_cases check s host port h =
    let same = before-append b':' host (port_text port) h in
    (
      same,
      subst (λ x. Allowed check s host (connect_verdict (check x) (matching s x))) (sym same)
          (verdict_cases check s host (check host) refl),
    )

-- What stands before the first colon has none.
contains-before : (c : ℕ) (s : Text) → contains c (before (is_char c) s) ≡ false
unfolding before
contains-before c [] = refl
contains-before c (d ∷ s) = elim (Bool-cases (is_char c d)) [
  | inl e ↦ rw e
  | inr e ↦ rw (e, before) (rw e (contains-before c s))
]

contains-append : (c : ℕ) (s t : Text) → contains c s ≡ true → contains c (s ++ t) ≡ true
contains-append c [] t h = absurd (cc h)
contains-append c (d ∷ s) t h = ground (arith, contains-append c s t)

-- For a tunnel to a bracketed address that has a colon and no closing bracket within, with any text
-- behind the brackets, the host of the plan is not the host that split_host_port finds.
pub plan_connect_bracketed :
    (address after : Text) (default : ℕ) (check exclusion : Text → Option Text)
    → contains b']' address ≡ false
    → contains b':' address ≡ true
    → (plan_connect (b'[' ∷ (address ++ (b']' ∷ after))) check exclusion).host
      ≢ (split_host_port (b'[' ∷ (address ++ (b']' ∷ after))) default).0
unfolding plan_connect split_host_port strip_prefix
plan_connect_bracketed address after default check exclusion closed colon same = absurd (
    ground (
      arith,
      contains-before b':' (b'[' ∷ (address ++ (b']' ∷ after))),
      ap (contains b':') (same ∙ host_of),
      contains-append b':' address (b']' ∷ []) colon,
    ))
  where
    host_of :
        (split_host_port (b'[' ∷ (address ++ (b']' ∷ after))) default).0
        ≡ b'[' ∷ (address ++ (b']' ∷ []))
    host_of = rw (split_once-append (is_char b']') address after b']' closed refl, split_host_port)
