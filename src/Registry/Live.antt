-- ===== src/Registry/Live.antt =====
-- An identity that resolves is among the live ones of src/plugin/hypr/identity_registry.cpp.
use mru_switcher.Prelude.{
  ℕ, ◌≡◌, ◌∙◌, true, false, ◌||◌, List, [], ◌∷◌, some, arith, lookup, contains, map, subst,
}
use mru_switcher.Window.{WindowRef, ref_eq, ref_eq_iff, window_eq}
use mru_switcher.Registry.{
  Windows, Entry, WindowIdentityRegistry, resolve, open_refs, insert_ref, sort_refs,
  live_refs_newest_first,
}
use mru_switcher.Registry.Laws.{IsValid}
use mru_switcher.Registry.Resolved.{resolved}

module _ (H : Windows) where
  abbrev refs_of : List (ℕ × WindowRef) → List WindowRef
  refs_of = map (λ p. p.1)

  contains-insert_ref :
      (a : ℕ × WindowRef) (l : List (ℕ × WindowRef)) (x : WindowRef)
      → contains (refs_of (insert_ref H a l)) x ≡ (ref_eq a.1 x || contains (refs_of l) x)
  contains-insert_ref a [] x = ground arith
  contains-insert_ref a (b ∷ bs) x = ground (arith, contains-insert_ref a bs x)

  contains-sort_refs :
      (l : List (ℕ × WindowRef)) (x : WindowRef)
      → contains (refs_of (sort_refs H l)) x ≡ contains (refs_of l) x
  contains-sort_refs [] x = ground arith
  contains-sort_refs (a ∷ l) x =
      ground (arith, contains-insert_ref a (sort_refs H l) x, contains-sort_refs l x)

  contains-open_refs :
      (m : List (ℕ × Entry H)) (k : ℕ) (e : Entry H)
      → lookup k m ≡ some e
      → e.closed ≡ false
      → contains (refs_of (open_refs H m)) e.ref ≡ true
  contains-open_refs [] k e f c = ground arith
  contains-open_refs ((j, d) ∷ m) k e f c =
      ground (arith, contains-open_refs m k e, ref_eq_iff e.ref e.ref)

  pub resolve-live :
      (s : H.State) (w : H.Window) (r : WindowIdentityRegistry H) (ref : WindowRef)
      → IsValid H r
      → resolve H s ref r ≡ some w
      → contains (live_refs_newest_first H r) ref ≡ true
  unfolding live_refs_newest_first
  resolve-live s w r ref v h =
      let (e, f, c, g, _, _) = resolved H s w r ref h in
      let same : e.ref ≡ ref = ground (arith, v.placed ref.address e f) in
      contains-sort_refs (open_refs H r.by_address) ref
      ∙ subst (λ x. contains (refs_of (open_refs H r.by_address)) x ≡ true) same
          (contains-open_refs r.by_address ref.address e f c)
