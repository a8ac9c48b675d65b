-- ===== src/Registry.antt =====
-- src/plugin/hypr/identity_registry.cpp: who a window is. A window of the compositor has an address,
-- which another window may get after it has died; the registry adds a generation.
pub mod Laws
pub mod Live
pub mod Newest
pub mod Resolved
use mru_switcher.Prelude.{
  ℕ, ◌+◌, ◌%◌, ◌^◌, Bool, true, false, not, ◌&&◌, ◌||◌, List, [], ◌∷◌, Option, none, some, ◌==◌,
  ltb, if◌then◌else◌, value_or, ◌>>=◌, lookup, set, erase_if, map, Eq,
}
use mru_switcher.Window.{WindowRef}

-- What the registry asks of the compositor: the address of a window, whether two pointers are to
-- the same window, and whether a weak pointer to it still locks.
pub record Windows : Type 1 where
  pub Window : Type 0
  pub window_eq : Eq Window
  pub address_of : Window → ℕ
  pub State : Type 0
  pub alive : State → Window → Bool

module _ (H : Windows) where
  pub record Entry : Type 0 where
    pub ref : WindowRef
    pub next_generation : ℕ
    pub seq : ℕ
    pub closed : Bool
    pub window : Option H.Window

  pub record WindowIdentityRegistry : Type 0 where
    pub by_address : List (ℕ × Entry)
    pub seq_counter : ℕ

  -- What `by_address_[addr]` makes of an address that it does not hold.
  abbrev pub new_entry : Entry
  new_entry = record {
    ref = record { address = 0; generation = 0 };
    next_generation = 1;
    seq = 0;
    closed = false;
    window = none;
  }

  -- `window.lock()`
  abbrev pub lock : H.State → Option H.Window → Option H.Window
  lock s o = o >>= λ w. if H.alive s w then some w else none

  -- `window.lock() == w`
  abbrev pub locks_to : H.State → Option H.Window → H.Window → Bool
  locks_to s o w = elim (lock s o) [ none ↦ false | some v ↦ H.window_eq.beq v w ]

  -- The entry of a window that is new at its address.
  abbrev pub renewed : H.Window → Entry → ℕ → Entry
  renewed w entry seq = record {
    ref = record { address = H.address_of w; generation = entry.next_generation };
    next_generation = (entry.next_generation + 1) % 2 ^ 64;
    seq = seq;
    closed = false;
    window = some w;
  }

  unfoldable pub register_window :
      H.State → H.Window → WindowIdentityRegistry → WindowIdentityRegistry × WindowRef
  register_window s w r =
      let addr = H.address_of w in
      let entry = value_or (lookup addr r.by_address) new_entry in
      if entry.ref.address == addr && not entry.closed && locks_to s entry.window w
      then (record r { by_address = set addr entry r.by_address }, entry.ref)
      else let seq = (r.seq_counter + 1) % 2 ^ 64 in
        let fresh = renewed w entry seq in
        (record { by_address = set addr fresh r.by_address; seq_counter = seq }, fresh.ref)

  unfoldable pub last_ref : H.Window → WindowIdentityRegistry → Option WindowRef
  last_ref w r = lookup (H.address_of w) r.by_address >>= λ e. some e.ref

  unfoldable pub live_ref : H.Window → WindowIdentityRegistry → Option WindowRef
  live_ref w r = lookup (H.address_of w) r.by_address >>= λ e. if e.closed then none else some e.ref

  unfoldable pub resolve : H.State → WindowRef → WindowIdentityRegistry → Option H.Window
  resolve s ref r = lookup ref.address r.by_address >>= λ e.
      if e.closed || not (e.ref.generation == ref.generation) then none else lock s e.window

  abbrev pub is_dead : H.State → Entry → Bool
  is_dead s e = e.closed && elim (lock s e.window) [ none ↦ true | some w ↦ false ]

  unfoldable pub prune_closed : H.State → WindowIdentityRegistry → WindowIdentityRegistry
  prune_closed s r = record r { by_address = erase_if (is_dead s) r.by_address }

  unfoldable pub on_window_close :
      H.State → H.Window → WindowIdentityRegistry → WindowIdentityRegistry
  unfolding prune_closed
  on_window_close s w r = prune_closed s (elim (lookup (H.address_of w) r.by_address) [
    | none ↦ r
    | some e ↦ record r {
      by_address = set (H.address_of w) (record e { closed = true }) r.by_address;
    }
  ])

  unfoldable pub is_known : ℕ → WindowIdentityRegistry → Bool
  is_known addr r = elim (lookup addr r.by_address) [ none ↦ false | some e ↦ true ]

  abbrev pub open_refs : List (ℕ × Entry) → List (ℕ × WindowRef)
  open_refs [] = []
  open_refs ((a, e) ∷ m) = if not e.closed then (e.seq, e.ref) ∷ open_refs m else open_refs m

  abbrev pub insert_ref : ℕ × WindowRef → List (ℕ × WindowRef) → List (ℕ × WindowRef)
  insert_ref a [] = a ∷ []
  insert_ref a (b ∷ bs) = if ltb a.0 b.0 then b ∷ insert_ref a bs else a ∷ b ∷ bs

  -- `std::sort`, the highest first.
  abbrev pub sort_refs : List (ℕ × WindowRef) → List (ℕ × WindowRef)
  sort_refs [] = []
  sort_refs (a ∷ rest) = insert_ref a (sort_refs rest)

  unfoldable pub live_refs_newest_first : WindowIdentityRegistry → List WindowRef
  live_refs_newest_first r = map (λ p. p.1) (sort_refs (open_refs r.by_address))
