-- ===== src/Registry/Laws.antt =====
-- Who resolves to which window, and until when.
use mru_switcher.Prelude.{
  ℕ, ◌+◌, ◌-◌, ◌%◌, ◌^◌, ◌<◌, ◌≡◌, ◌≢◌, refl, true, false, not, ◌&&◌, Option, none, some, arith,
  ◌==◌, if◌then◌else◌, value_or, lookup, set, UniqueKeys, lookup-set, UniqueKeys-set,
  lookup-erase_if, UniqueKeys-erase_if, Option-cases, inl, inr, if_cases,
}
use mru_switcher.Window.{WindowRef}
use mru_switcher.Registry.{
  Windows, Entry, WindowIdentityRegistry, new_entry, renewed, lock, locks_to, register_window,
  resolve, live_ref, is_dead, prune_closed, on_window_close,
}

module _ (H : Windows) where
  -- The addresses are distinct, and an entry's identity and window are at its address.
  pub record IsValid (r : WindowIdentityRegistry H) : Type 0 where
    pub unique : UniqueKeys r.by_address
    pub placed : (k : ℕ) (e : Entry H) → lookup k r.by_address ≡ some e → e.ref.address ≡ k
    pub held :
        (k : ℕ) (e : Entry H) (w : H.Window)
        → lookup k r.by_address ≡ some e
        → e.window ≡ some w
        → H.address_of w ≡ k

  -- Every generation is below the next one at its address.
  abbrev pub Older : WindowIdentityRegistry H → Type 0
  Older r =
      (k : ℕ) (e : Entry H) → lookup k r.by_address ≡ some e → e.ref.generation < e.next_generation

  -- In a valid registry, a close event takes the identities of its window with it: no identity at its
  -- address resolves any more, and every other resolves as before. This is so even while the window is
  -- still alive and the generation matches, where REQ-ID-006 and ADR-016 (docs/SPEC.md,
  -- docs/DECISIONS.md) and the comment in `prune_closed` have the identity stay valid: the code and its
  -- documents diverge here, and the theorem states what the code does.
  pub on_window_close_lem :
      (s : H.State) (w : H.Window) (r : WindowIdentityRegistry H) (ref : WindowRef)
      → IsValid r
      → resolve H s ref (on_window_close H s w r)
        ≡ (if H.address_of w == ref.address then none else resolve H s ref r)
  unfolding resolve on_window_close
  on_window_close_lem s w r ref v = elim (Option-cases (lookup (H.address_of w) r.by_address)) [
    | inl e ↦ ground (arith, lookup-erase_if (is_dead H s) r.by_address ref.address v.unique)
    | inr (e, f) ↦
        let closed : Entry H = record e { closed = true } in
        let m = set (H.address_of w) closed r.by_address in
        ground (
          arith,
          lookup-erase_if (is_dead H s) m ref.address
              (UniqueKeys-set (H.address_of w) closed r.by_address v.unique),
          lookup-set (H.address_of w) closed r.by_address ref.address,
        )
  ]

  locks_to_lem :
      (s : H.State) (o : Option H.Window) (w : H.Window)
      → locks_to H s o w ≡ true
      → lock H s o ≡ some w
  locks_to_lem s o w h = elim (Option-cases (lock H s o)) [
    | inl e ↦ cc
    | inr (v, e) ↦ ground (arith, H.window_eq.beq_iff v w)
  ]

  pub lock-locks_to :
      (s : H.State) (o : Option H.Window) (w : H.Window)
      → lock H s o ≡ some w
      → locks_to H s o w ≡ true
  lock-locks_to s o w h = ground (arith, H.window_eq.beq_iff w w)

  -- The registry knows `w` as `ref`.
  abbrev Knows : H.State → H.Window → WindowIdentityRegistry H × WindowRef → Type 0
  Knows s w (r, ref) =
      (e : Entry H) × (lookup (H.address_of w) r.by_address ≡ some e)
      × (e.ref ≡ ref)
      × (ref.address ≡ H.address_of w)
      × (e.closed ≡ false)
      × (lock H s e.window ≡ some w)

  register_window-Knows :
      (s : H.State) (w : H.Window) (r : WindowIdentityRegistry H)
      → H.alive s w ≡ true
      → Knows s w (register_window H s w r)
  unfolding register_window
  register_window-Knows s w r a =
      let addr = H.address_of w in
      let entry = value_or (lookup addr r.by_address) (new_entry H) in
      if_cases (Knows s w)
        (entry.ref.address == addr && not entry.closed && locks_to H s entry.window w)
        (λ h. (
          entry,
          ground (arith, lookup-set addr entry r.by_address addr),
          refl,
          ground arith,
          ground arith,
          locks_to_lem s entry.window w (ground arith),
        ))
        (λ h.
          let fresh = renewed H w entry ((r.seq_counter + 1) % 2 ^ 64) in
          (
            fresh,
            ground (arith, lookup-set addr fresh r.by_address addr),
            refl,
            refl,
            refl,
            ground arith,
          ))

  register_again :
      (s : H.State) (w : H.Window) (r : WindowIdentityRegistry H) (ref : WindowRef)
      → Knows s w (r, ref)
      → (register_window H s w r).1 ≡ ref
  unfolding register_window
  register_again s w r ref (e, f, g, h, i, j) = ground (arith, lock-locks_to s e.window w j)

  resolve-Knows :
      (s : H.State) (w : H.Window) (r : WindowIdentityRegistry H) (ref : WindowRef)
      → Knows s w (r, ref)
      → (resolve H s ref r ≡ some w) × (live_ref H w r ≡ some ref)
  unfolding resolve live_ref
  resolve-Knows s w r ref (e, f, g, h, i, j) = ground arith

  -- Registration gives a window that is alive an identity at its address that resolves to it and is
  -- its live one, and a second registration gives the same identity.
  pub register_window_lem :
      (s : H.State) (w : H.Window) (r : WindowIdentityRegistry H)
      → H.alive s w ≡ true
      → let q = register_window H s w r in
        (resolve H s q.1 q.0 ≡ some w)
        × (live_ref H w q.0 ≡ some q.1)
        × (q.1.address ≡ H.address_of w)
        × ((register_window H s w q.0).1 ≡ q.1)
  register_window_lem s w r a =
      let q = register_window H s w r in
      let k = register_window-Knows s w r a in
      let (x, y) = resolve-Knows s w q.0 q.1 k in
      let (e, f, g, h, _, _) = k in (x, y, h, register_again s w q.0 q.1 k)

  pub register_window-IsValid :
      (s : H.State) (w : H.Window) (r : WindowIdentityRegistry H)
      → IsValid r
      → IsValid (register_window H s w r).0
  unfolding register_window
  register_window-IsValid s w r v =
      let addr = H.address_of w in
      let entry = value_or (lookup addr r.by_address) (new_entry H) in
      if_cases (λ (q : WindowIdentityRegistry H × WindowRef). IsValid q.0)
        (entry.ref.address == addr && not entry.closed && locks_to H s entry.window w)
        (λ h. record {
          unique = UniqueKeys-set addr entry r.by_address v.unique;
          placed = λ k e f. ground (arith, lookup-set addr entry r.by_address k, v.placed k e);
          held = λ k e x f g.
              ground
                (arith, lookup-set addr entry r.by_address k, v.held k e x, v.held addr entry x);
        })
        (λ h.
          let fresh = renewed H w entry ((r.seq_counter + 1) % 2 ^ 64) in
          record {
            unique = UniqueKeys-set addr fresh r.by_address v.unique;
            placed = λ k e f. ground (arith, lookup-set addr fresh r.by_address k, v.placed k e);
            held = λ k e x f g. ground (arith, lookup-set addr fresh r.by_address k, v.held k e x);
          })

  -- The generation counts up, while it does not wrap round.
  register_window-Older :
      (s : H.State) (w : H.Window) (r : WindowIdentityRegistry H)
      → Older r
      → (value_or (lookup (H.address_of w) r.by_address) (new_entry H)).next_generation < 2 ^ 64 - 1
      → Older (register_window H s w r).0
  unfolding register_window
  register_window-Older s w r v room =
      let addr = H.address_of w in
      let entry = value_or (lookup addr r.by_address) (new_entry H) in
      if_cases (λ (q : WindowIdentityRegistry H × WindowRef). Older q.0)
        (entry.ref.address == addr && not entry.closed && locks_to H s entry.window w)
        (λ h k e f. ground (arith, lookup-set addr entry r.by_address k, v k e, v addr entry))
        (λ h k e f. ground (
          arith,
          lookup-set addr (renewed H w entry ((r.seq_counter + 1) % 2 ^ 64)) r.by_address k,
          v k e,
        ))

  -- In a valid registry whose generations count up, an address whose window has died, though no close
  -- was announced, gets a new window that is alive:
  -- the identity that it had resolves to nothing once the new window is registered, and the new one is another.
  pub register_window-renews :
      (s : H.State) (w : H.Window) (r : WindowIdentityRegistry H) (old : Entry H)
      → IsValid r
      → Older r
      → H.alive s w ≡ true
      → lookup (H.address_of w) r.by_address ≡ some old
      → lock H s old.window ≡ none
      → let q = register_window H s w r in
        (q.1 ≢ old.ref) × (resolve H s old.ref q.0 ≡ none) × (resolve H s q.1 q.0 ≡ some w)
  unfolding register_window resolve
  register_window-renews s w r old v o a f dead =
      let fresh = renewed H w old ((r.seq_counter + 1) % 2 ^ 64) in
      let lt = o (H.address_of w) old f in
      let at_ = v.placed (H.address_of w) old f in
      let here = lookup-set (H.address_of w) fresh r.by_address (H.address_of w) in
      (λ e. ground arith, ground arith, ground arith)

  prune_closed-IsValid :
      (s : H.State) (r : WindowIdentityRegistry H) → IsValid r → IsValid (prune_closed H s r)
  unfolding prune_closed
  prune_closed-IsValid s r v =
      let left = λ (k : ℕ). lookup-erase_if (is_dead H s) r.by_address k v.unique in
      record {
        unique = UniqueKeys-erase_if (is_dead H s) r.by_address v.unique;
        placed = λ k e f. ground (arith, left k, v.placed k e);
        held = λ k e x f g. ground (arith, left k, v.held k e x);
      }

  on_window_close-IsValid :
      (s : H.State) (w : H.Window) (r : WindowIdentityRegistry H)
      → IsValid r
      → IsValid (on_window_close H s w r)
  unfolding on_window_close
  on_window_close-IsValid s w r v = elim (Option-cases (lookup (H.address_of w) r.by_address)) [
    | inl e ↦ rw (e, on_window_close) (prune_closed-IsValid s r v)
    | inr (e, f) ↦
        let closed : Entry H = record e { closed = true } in
        let same = lookup-set (H.address_of w) closed r.by_address in
        rw (f, on_window_close)
          (prune_closed-IsValid s
            (record r { by_address = set (H.address_of w) closed r.by_address })
            (record {
              unique = UniqueKeys-set (H.address_of w) closed r.by_address v.unique;
              placed = λ k d g. ground (arith, same k, v.placed k e, v.placed k d);
              held = λ k d x g h. ground (arith, same k, v.held k e x, v.held k d x);
            }))
  ]
