-- ===== src/Registry/Resolved.antt =====
-- An identity that resolves, and the registration of other windows.
use mru_switcher.Prelude.{
  ◌+◌, ◌%◌, ◌^◌, ◌≡◌, ◌∙◌, true, false, some, arith, ◌==◌, value_or, lookup, lookup-set,
  Option-cases, Bool-cases, inl, inr,
}
use mru_switcher.Window.{WindowRef}
use mru_switcher.Registry.{
  Windows, Entry, WindowIdentityRegistry, new_entry, renewed, lock, locks_to, register_window,
  resolve,
}
use mru_switcher.Registry.Laws.{IsValid, lock-locks_to}

module _ (H : Windows) where
  pub resolved :
      (s : H.State) (v : H.Window) (r : WindowIdentityRegistry H) (ref : WindowRef)
      → resolve H s ref r ≡ some v
      → (e : Entry H) × (lookup ref.address r.by_address ≡ some e)
        × (e.closed ≡ false)
        × (e.ref.generation ≡ ref.generation)
        × (e.window ≡ some v)
        × (H.alive s v ≡ true)
  unfolding resolve
  resolved s v r ref h = elim (Option-cases (lookup ref.address r.by_address)) [
    | inl f ↦ ground arith
    | inr (e, f) ↦ elim (Option-cases e.window) [
      | inl g ↦ ground arith
      | inr (w, g) ↦ (e, f, ground arith, ground arith, ground arith, ground arith)
    ]
  ]

  resolve-elsewhere :
      (s : H.State) (w : H.Window) (r : WindowIdentityRegistry H) (ref : WindowRef)
      → (H.address_of w == ref.address) ≡ false
      → resolve H s ref (register_window H s w r).0 ≡ resolve H s ref r
  unfolding register_window resolve
  resolve-elsewhere s w r ref h =
      let addr = H.address_of w in
      let entry = value_or (lookup addr r.by_address) (new_entry H) in
      ground (
        arith,
        lookup-set addr entry r.by_address ref.address,
        lookup-set addr (renewed H w entry ((r.seq_counter + 1) % 2 ^ 64)) r.by_address ref.address,
      )

  resolve-same :
      (s : H.State) (w : H.Window) (r : WindowIdentityRegistry H) (ref : WindowRef) (e : Entry H)
      → lookup (H.address_of w) r.by_address ≡ some e
      → e.ref.address ≡ H.address_of w
      → e.closed ≡ false
      → locks_to H s e.window w ≡ true
      → resolve H s ref (register_window H s w r).0 ≡ resolve H s ref r
  unfolding register_window resolve
  resolve-same s w r ref e f g c l =
      ground (arith, lookup-set (H.address_of w) e r.by_address ref.address)

  -- An identity that resolves goes on to do so when a window that is alive is registered, if two
  -- windows that are alive are never at one address.
  pub resolve-register :
      (s : H.State) (w v : H.Window) (r : WindowIdentityRegistry H) (ref : WindowRef)
      → ((x y : H.Window)
          → H.alive s x ≡ true
          → H.alive s y ≡ true
          → H.address_of x ≡ H.address_of y
          → x ≡ y)
      → IsValid H r
      → H.alive s w ≡ true
      → resolve H s ref r ≡ some v
      → resolve H s ref (register_window H s w r).0 ≡ some v
  resolve-register s w v r ref unique u a h = elim (Bool-cases (H.address_of w == ref.address)) [
    | inr g ↦ resolve-elsewhere s w r ref g ∙ h
    | inl g ↦
        let (e, f, c, _, k, b) = resolved s v r ref h in
        let addr : H.address_of w ≡ ref.address = ground arith in
        let here : lookup (H.address_of w) r.by_address ≡ some e = rw addr f in
        let same : v ≡ w = unique v w b a (u.held (H.address_of w) e v here k) in
        let locked : lock H s e.window ≡ some w = ground arith in
        resolve-same s w r ref e here (u.placed (H.address_of w) e here) c
          (lock-locks_to H s e.window w locked)
        ∙ h
  ]
