-- ===== src/Session/Pruning.antt =====
-- The middle of an apply: the snapshot is pruned while the session is still active, and the window
-- that is then selected gets the focus.
use mru_switcher.Prelude.{
  ℕ, ◌-◌, ◌<◌, ◌≡◌, refl, ap, ◌∙◌, Bool, true, false, List, [], ◌∷◌, none, some, arith, Bool-cases,
  inl, inr, get_elem?-lt, All-get_elem?, All-filter, ◌⊎◌, value_or, min,
}
use mru_switcher.Window.{WindowRef}
use mru_switcher.Snapshot.{Snapshot, size, empty, at, pruned}
use mru_switcher.Snapshot.Pruned.{pruned_cases, survivors}
use mru_switcher.Scheduler.{SchedulerPort}
use mru_switcher.Ports.{Ports}
use mru_switcher.Session.Defs.{
  SessionController, emit, focus_call, on_focus, deliver, focus_window, clamp_index, prune_active,
}
use mru_switcher.Session.Apply.{clamp_and_focus, resolve_pruned, resolve_and_focus}

pruned_or_empty :
    (v : WindowRef → Bool) (s : Snapshot)
    → value_or (pruned v s) (record { windows = []; scope = s.scope }) ≡ survivors v s
pruned_or_empty v s = elim (pruned_cases v s) [ inl (f, e) ↦ rw (e, f) | inr (_, e) ↦ rw e ]

pub clamp-lt : (s : Snapshot) (i : ℕ) → empty s ≡ false → clamp_index s i < size s
clamp-lt s i h = ground arith

module _ {S : SchedulerPort} {P : Ports} where
  -- What is left of the snapshot when the invalid windows have gone.
  abbrev pub remaining : SessionController S P → Snapshot → Snapshot
  remaining c s = survivors (P.is_valid c.world) s

  -- Pruning leaves exactly the valid windows of the snapshot, in their order, and clamps the index.
  pub prune_active-eq :
      (c : SessionController S P) (s : Snapshot)
      → c.snapshot ≡ some s
      → prune_active c
        ≡ record c { snapshot = some (remaining c s); index = clamp_index (remaining c s) c.index }
  unfolding prune_active
  prune_active-eq c s e =
      rw (e, prune_active)
        (ap (λ (t : Snapshot). record c { snapshot = some t; index = clamp_index t c.index })
          (pruned_or_empty (P.is_valid c.world) s))

  -- While the session is active nothing that is announced has any effect.
  deliver-active :
      (rs : List WindowRef) (c : SessionController S P) → c.active ≡ true → deliver rs c ≡ c
  unfolding deliver on_focus
  deliver-active [] c e = refl
  deliver-active (r ∷ rs) c e = ground (arith, deliver-active rs c)

  pub focus_window-active :
      (r : WindowRef) (c : SessionController S P)
      → c.active ≡ true
      → (focus_window r c).0
        ≡ emit
            (focus_call r (P.focus r c.world).result)
            (record c { world = (P.focus r c.world).world })
  unfolding focus_window
  focus_window-active r c e = deliver-active (P.focus r c.world).activated _ e

  -- The state after the focus call on a window `r` of the pruned snapshot.
  abbrev pub focused_on : SessionController S P → Snapshot → WindowRef → SessionController S P
  focused_on c s r = emit (focus_call r (P.focus r c.world).result) (record c {
    snapshot = some (remaining c s);
    index = clamp_index (remaining c s) c.index;
    world = (P.focus r c.world).world;
  })

  clamp_and_focus-lem :
      (s : Snapshot) (c : SessionController S P) (r : WindowRef)
      → c.active ≡ true
      → c.index < size s
      → at s c.index ≡ some r
      → clamp_and_focus s c
        ≡ some (
          emit
              (focus_call r (P.focus r c.world).result)
              (record c { world = (P.focus r c.world).world }),
          some (P.focus r c.world).result,
        )
  unfolding clamp_and_focus focus_window
  clamp_and_focus-lem s c r e lt f =
      let m : min c.index (size s - 1) ≡ c.index = omega arith in
      rw (m, f)
        (ap (λ (d : SessionController S P). some (d, some (P.focus r c.world).result))
          (focus_window-active r c e))

  resolve_empty :
      (d : SessionController S P) (t : Snapshot)
      → d.snapshot ≡ some t
      → empty t ≡ true
      → resolve_pruned d ≡ some (d, none)
  unfolding resolve_pruned
  resolve_empty d t f h = ground arith

  resolve_full :
      (c : SessionController S P) (t : Snapshot) (r : WindowRef)
      → empty t ≡ false
      → at t c.index ≡ some r
      → P.is_valid c.world r ≡ true
      → resolve_pruned (record c { snapshot = some t })
        ≡ clamp_and_focus t (record c { snapshot = some t })
  unfolding resolve_pruned
  resolve_full c t r h g ok_ = ground arith

  pub resolve_lem :
      (c : SessionController S P) (s : Snapshot)
      → c.active ≡ true
      → c.snapshot ≡ some s
      → ((empty (remaining c s) ≡ true) × (resolve_and_focus c ≡ some (prune_active c, none)))
        ⊎ ((r : WindowRef) × (at (remaining c s) (clamp_index (remaining c s) c.index) ≡ some r)
            × (P.is_valid c.world r ≡ true)
            × (resolve_and_focus c ≡ some (focused_on c s r, some (P.focus r c.world).result)))
  unfolding resolve_and_focus
  resolve_lem c s e f =
      let t = remaining c s in
      let i = clamp_index t c.index in
      let d : SessionController S P = record c { snapshot = some t; index = i } in
      elim (Bool-cases (empty t)) [
        | inl h ↦ inl (h, rw (prune_active-eq c s f) (resolve_empty d t refl h))
        | inr h ↦
            let lt = clamp-lt t c.index h in
            let (r, g) = get_elem?-lt t.windows i lt in
            let ok_ = All-get_elem? _ t.windows i r (All-filter (P.is_valid c.world) s.windows) g in
            inr (
              r,
              g,
              ok_,
              rw (prune_active-eq c s f)
                  (resolve_full d t r h g ok_ ∙ clamp_and_focus-lem t d r e lt g),
            )
      ]
