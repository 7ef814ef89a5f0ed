-- ===== src/Dns/Commands/Checked.antt =====
-- What a command for the servers has when it gets past its parser.
use ad_block.Base.{
  ◌≡◌, refl, inl, inr, Bool, true, false, [], ◌∷◌, Option, none, some, any, is_empty, if◌then◌else◌,
  Bool-cases, Result, ok, err,
}
use ad_block.Dns.Commands.{
  CommandError, non_empty, spec_or_error, add_with, typed_scheme, parse_host, parse_add, edit_of,
  parse_upstream_command,
}
use ad_block.Dns.Service.Servers.{UpstreamCommand, add, delete, set_enabled}
use ad_block.Dns.Upstream.Addr.{Scheme}
use ad_block.Json.{Value, get, as_str, as_bool}
use ad_block.Text.{Text, codes, is_char, trim}

-- A name without `#` and a host, or a server: none of them empty.
abbrev pub Checked : Result CommandError UpstreamCommand → Type 0
Checked (err e) = Unit
Checked (ok (add name host scheme)) =
    (is_empty name ≡ false) × (any (is_char b'#') name ≡ false) × (is_empty host ≡ false)
Checked (ok (delete spec)) = is_empty spec ≡ false
Checked (ok (set_enabled spec enabled)) = is_empty spec ≡ false

delete-Checked : (o : Option Text) → Checked (spec_or_error o (λ spec. delete spec))
delete-Checked none = tt
delete-Checked (some t) = by_text (trim t)
  where
    by_text :
        (u : Text)
        → Checked (elim (non_empty u) as (λ x. Result CommandError UpstreamCommand) [
          | none ↦ err CommandError.no_spec
          | some spec ↦ ok (delete spec)
        ])
    by_text [] = tt
    by_text (c ∷ u) = refl

set_enabled-Checked :
    (b : Bool) (o : Option Text) → Checked (spec_or_error o (λ spec. set_enabled spec b))
set_enabled-Checked b none = tt
set_enabled-Checked b (some t) = by_text (trim t)
  where
    by_text :
        (u : Text)
        → Checked (elim (non_empty u) as (λ x. Result CommandError UpstreamCommand) [
          | none ↦ err CommandError.no_spec
          | some spec ↦ ok (set_enabled spec b)
        ])
    by_text [] = tt
    by_text (c ∷ u) = refl

module _ (to_lowercase : Text → Text) where
  add_with-Checked :
      (name host : Text) (scheme : Result CommandError Scheme)
      → is_empty name ≡ false
      → any (is_char b'#') name ≡ false
      → is_empty host ≡ false
      → Checked (add_with name host scheme)
  add_with-Checked name host (err e) a b c = tt
  add_with-Checked name host (ok scheme) a b c = (a, b, c)

  parse_host-Checked :
      (name : Text) (v : Value) (typed : Option Text × Text)
      → is_empty name ≡ false
      → any (is_char b'#') name ≡ false
      → Checked (parse_host to_lowercase name v typed)
  unfolding parse_host
  parse_host-Checked name v (typed, []) a b = tt
  parse_host-Checked name v (typed, c ∷ host) a b = add_with-Checked name (c ∷ host) _ a b refl

  parse_add-Checked : (name host : Text) (v : Value) → Checked (parse_add to_lowercase name host v)
  unfolding parse_add
  parse_add-Checked [] host v = tt
  parse_add-Checked (n ∷ name) host v = elim (Bool-cases (any (is_char b'#') (n ∷ name))) [
    | inl e ↦ rw (e, parse_add) tt
    | inr e ↦ rw (e, parse_add) (with_host host e)
  ]
    where
      with_host :
          (host : Text)
          → any (is_char b'#') (n ∷ name) ≡ false
          → Checked (
              if is_empty host
              then err CommandError.no_host
              else parse_host to_lowercase (n ∷ name) v (typed_scheme to_lowercase host))
      with_host [] e = tt
      with_host (c ∷ host) e =
          parse_host-Checked (n ∷ name) v (typed_scheme to_lowercase (c ∷ host)) refl e

  edit_of-Checked : (d b : Option Bool) (v : Value) → Checked (edit_of to_lowercase d b v)
  edit_of-Checked (some true) b v = delete-Checked (as_str (get (codes "spec") v))
  edit_of-Checked (some false) (some b) v = set_enabled-Checked b (as_str (get (codes "spec") v))
  edit_of-Checked (some false) none v = parse_add-Checked _ _ v
  edit_of-Checked none (some b) v = set_enabled-Checked b (as_str (get (codes "spec") v))
  edit_of-Checked none none v = parse_add-Checked _ _ v

  -- Whatever to_lowercase does, a command for the servers that is accepted has, to add one, a name
  -- that is not empty and has no `#` and a host that is not empty, and, to remove or switch one, a
  -- server that is not empty; every other body is refused.
  pub parse_upstream_command-Checked :
      (body : Option Value) → Checked (parse_upstream_command to_lowercase body)
  unfolding parse_upstream_command
  parse_upstream_command-Checked none = tt
  parse_upstream_command-Checked (some v) =
      edit_of-Checked (as_bool (get (codes "delete") v)) (as_bool (get (codes "enabled") v)) v
