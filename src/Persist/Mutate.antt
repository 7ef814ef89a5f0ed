-- ===== src/Persist/Mutate.antt =====
-- What `mutate` promises: the served list changes only together with the file.
use ad_block.Base.{
  ◌≡◌, ◌≢◌, refl, Bool, true, false, List, Bool-cases, ok, err, inl, inr, some, ◌⊎◌,
}
use ad_block.Persist.{Entry, config, Write, written, failed, PersistedSet, persist, body, mutate}

module _ {T : Type 0} (e : Entry T) {R : Type 0} (f : List T → R × Bool × List T) where
  -- A mutation keeps what its change keeps, whatever becomes of the write.
  pub mutate-keeps :
      (P : List T → Type 0) (w : Write) (s : PersistedSet T)
      → P s.entries
      → P (f s.entries).2
      → P (mutate e f w s).1.entries
  unfolding mutate persist
  mutate-keeps P written s h k = elim (Bool-cases (f s.entries).1) [
    | inl c ↦ rw c k
    | inr c ↦ rw c h
  ]
  mutate-keeps P (failed left) s h k = elim (Bool-cases (f s.entries).1) [
    | inl c ↦ rw c h
    | inr c ↦ rw c h
  ]

  -- A mutation of a set file has one of three outcomes: the change reports none, and its result is
  -- answered and nothing is altered; or it reports one and the write succeeds, and its result is
  -- answered, the new list is served and the file is its text; or it reports one and the write does
  -- not succeed, and the error is answered and the old list is still served.
  pub mutate_atomic :
      (w : Write) (s : PersistedSet T)
      → (((f s.entries).1 ≡ false) × (mutate e f w s ≡ (ok (f s.entries).0, s)))
        ⊎ (((f s.entries).1 ≡ true)
            × (w ≡ written)
            × ((mutate e f w s).0 ≡ ok (f s.entries).0)
            × ((mutate e f w s).1.entries ≡ (f s.entries).2)
            × ((mutate e f w s).1.file ≡ some (body e s.header (f s.entries).2)))
        ⊎ (((f s.entries).1 ≡ true)
            × (w ≢ written)
            × ((mutate e f w s).0 ≡ err config)
            × ((mutate e f w s).1.entries ≡ s.entries))
  unfolding mutate persist
  mutate_atomic written s = elim (Bool-cases (f s.entries).1) [
    | inl c ↦ inr (inl (c, refl, rw c, rw c, rw c))
    | inr c ↦ inl (c, rw c)
  ]
  mutate_atomic (failed left) s = elim (Bool-cases (f s.entries).1) [
    | inl c ↦ inr (inr (c, λ h. cc, rw c, rw c))
    | inr c ↦ inl (c, rw c)
  ]
