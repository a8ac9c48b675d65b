-- ===== src/Navigator/Restore.antt =====
-- The monitors that src/plugin/hypr/hypr_workspace_navigator.cpp captures and restores.
use mru_switcher.Prelude.{
  ℕ, ◌≡◌, refl, sym, ap, ◌∙◌, false, ◌||◌, List, [], ◌∷◌, ◌++◌, Option, some, Option-cases,
  Bool-cases, inl, inr, ==_iff, ◌==◌, if◌then◌else◌, if_cases, ℤ, pos, int_eq, int_eq→eq, All,
  arith,
}
use mru_switcher.Window.{WindowRef}
use mru_switcher.Ports.{UiEndReason}
use mru_switcher.Navigator.{
  Screens, MonitorCapture, WorkspaceNavigator, shows, seen, touch, id_or_invalid, is_negative,
  begin, elevate_on, ensure_visible, restore_monitor, restore_monitors, finish,
}

-- A session that selects windows, one after another.
unfoldable pub selections :
    {S : Screens} → List WindowRef → WorkspaceNavigator S → WorkspaceNavigator S
selections [] v = v
selections (ref ∷ refs) v = selections refs (ensure_visible ref v)

-- The captures of the monitor hold the workspace `k`.
abbrev pub Captures : ℕ → ℕ → List MonitorCapture → Type 0
Captures m k = All (λ c. c.monitor ≡ m → c.pre_elevation_id ≡ pos k)

Captures-append :
    (m k : ℕ) (cs : List MonitorCapture) (c : MonitorCapture)
    → Captures m k cs
    → (c.monitor ≡ m → c.pre_elevation_id ≡ pos k)
    → Captures m k (cs ++ c ∷ [])
Captures-append m k [] c h l = (l, tt)
Captures-append m k (d ∷ cs) c (first, rest) l = (first, Captures-append m k cs c rest l)

seen-append :
    (m : ℕ) (cs : List MonitorCapture) (c : MonitorCapture)
    → seen m (cs ++ c ∷ []) ≡ (seen m cs || c.monitor == m)
unfolding seen
seen-append m [] c = ground arith
seen-append m (d ∷ cs) c = ground (arith, seen-append m cs c)

seen-touch :
    (m mon : ℕ) (active : Option ℤ) (cs : List MonitorCapture)
    → seen m (touch mon active cs) ≡ (seen m cs || mon == m)
unfolding touch
seen-touch m mon active cs =
    if_cases (λ ds. seen m ds ≡ (seen m cs || mon == m)) (seen mon cs)
      (λ already. elim (Bool-cases (mon == m)) [
        | inl e ↦ ground (arith, ap (λ n. seen n cs) (sym ((==_iff mon m).0 e)) ∙ already)
        | inr e ↦ ground (arith, e)
      ])
      (λ _. seen-append m cs (record { monitor = mon; pre_elevation_id = id_or_invalid active }))

Captures-touch :
    (m k mon : ℕ) (active : Option ℤ) (cs : List MonitorCapture)
    → Captures m k cs
    → (mon ≡ m → seen mon cs ≡ false → id_or_invalid active ≡ pos k)
    → Captures m k (touch mon active cs)
unfolding touch
Captures-touch m k mon active cs h l =
    if_cases (Captures m k) (seen mon cs) (λ _. h)
      (λ unseen. Captures-append m k cs _ h (λ e. l e unseen))

module _ (S : Screens)
    (change_active : (m : ℕ) (ws : ℤ) (w : S.World) (m' : ℕ)
      → S.active (S.change m ws w) m' ≡ (if m == m' then some ws else S.active w m')) where
  restore_here :
      (m k : ℕ) (z : ℤ) (c : MonitorCapture) (w : S.World)
      → c.monitor ≡ m
      → c.pre_elevation_id ≡ pos k
      → S.active w m ≡ some z
      → S.active (restore_monitor S c w) m ≡ some (pos k)
  unfolding restore_monitor
  restore_here m k z c w at_m id e =
      rw (at_m, id, e, id)
        (if_cases (λ v. S.active v m ≡ some (pos k)) (int_eq z (pos k))
          (λ same. e ∙ ap some (int_eq→eq z (pos k) same))
          (λ _. change_active c.monitor (pos k) w m ∙ ground (arith, at_m)))

  restore_elsewhere :
      (m : ℕ) (c : MonitorCapture) (w : S.World)
      → (c.monitor == m) ≡ false
      → S.active (restore_monitor S c w) m ≡ S.active w m
  unfolding restore_monitor
  restore_elsewhere m c w other =
      let Same : S.World → Type 0 = λ v. S.active v m ≡ S.active w m in
      if_cases Same (is_negative c.pre_elevation_id) (λ _. refl)
        (λ _. elim (Option-cases (S.active w c.monitor)) [
          | inl e ↦ rw e refl
          | inr (id, e) ↦ rw e (
              if_cases Same (int_eq id c.pre_elevation_id) (λ _. refl)
                (λ _. change_active c.monitor c.pre_elevation_id w m ∙ ground (arith, other)))
        ])

  -- The restoration of a monitor that was captured, or that shows its workspace.
  restore_captured :
      (m k : ℕ) (z : ℤ) (cs : List MonitorCapture) (w : S.World)
      → Captures m k cs
      → S.active w m ≡ some z
      → (seen m cs ≡ false → z ≡ pos k)
      → S.active (restore_monitors S cs w) m ≡ some (pos k)
  unfolding restore_monitors seen
  restore_captured m k z [] w h e f = e ∙ ap some (f refl)
  restore_captured m k z (c ∷ cs) w (first, rest) e f = elim (Bool-cases (c.monitor == m)) [
    | inl at_m ↦
        let here = (==_iff c.monitor m).0 at_m in
        restore_captured m k (pos k) cs (restore_monitor S c w) rest
          (restore_here m k z c w here (first here) e) (λ _. refl)
    | inr other ↦
        restore_captured m k z cs (restore_monitor S c w) rest (restore_elsewhere m c w other ∙ e)
          (λ unseen. f (ground (arith, other, unseen)))
  ]

  -- While windows are selected: the monitor showed `k` at first.
  Showing : ℕ → ℕ → WorkspaceNavigator S → Type 0
  Showing m k v =
      Captures m k v.touches
      × ((z : ℤ) × (S.active v.world m ≡ some z) × (seen m v.touches ≡ false → z ≡ pos k))

  elevate_on-Showing :
      (m k mon : ℕ) (ws : ℤ) (v : WorkspaceNavigator S)
      → Showing m k v
      → Showing m k (elevate_on mon ws v)
  unfolding elevate_on Showing
  elevate_on-Showing m k mon ws v (captures, (z, e, f)) =
      if_cases (Showing m k) (shows (S.active v.world mon) ws) (λ _. (captures, (z, e, f)))
        (λ _. (
          Captures-touch m k mon (S.active v.world mon) v.touches captures (λ at_m unseen.
              ap (λ n. id_or_invalid (S.active v.world n)) at_m
              ∙ ap id_or_invalid e
              ∙ f (ap (λ n. seen n v.touches) (sym at_m) ∙ unseen)),
          (
            (if mon == m then ws else z),
            change_active mon ws v.world m ∙ ground (arith, e),
            λ unseen. ground (arith, seen-touch m mon (S.active v.world mon) v.touches, unseen, f),
          ),
        ))

  ensure_visible-Showing :
      (m k : ℕ) (ref : WindowRef) (v : WorkspaceNavigator S)
      → Showing m k v
      → Showing m k (ensure_visible ref v)
  unfolding ensure_visible Showing
  ensure_visible-Showing m k ref v h = elim (Option-cases (S.resolve v.world ref)) [
    | inl e ↦ rw (e, ensure_visible) h
    | inr (w, e) ↦ elim (Option-cases (S.workspace v.world w)) [
      | inl f ↦ rw (e, f, ensure_visible) h
      | inr (ws, f) ↦ elim (Option-cases (S.monitor v.world w)) [
        | inl g ↦ rw (e, f, g, ensure_visible) h
        | inr (mon, g) ↦ rw (e, f, g, ensure_visible) (elevate_on-Showing m k mon ws v h)
      ]
    ]
  ]

  selections-Showing :
      (m k : ℕ) (refs : List WindowRef) (v : WorkspaceNavigator S)
      → Showing m k v
      → Showing m k (selections refs v)
  unfolding selections
  selections-Showing m k [] v h = h
  selections-Showing m k (ref ∷ refs) v h =
      selections-Showing m k refs (ensure_visible ref v) (ensure_visible-Showing m k ref v h)

  -- Where a change of a monitor's workspace shows there, and on that monitor alone: whatever windows a
  -- session selects, when it is cancelled every monitor that showed a workspace with an id from 0 on
  -- shows it again.
  pub finish-selections :
      (m k : ℕ) (refs : List WindowRef) (v : WorkspaceNavigator S)
      → S.active v.world m ≡ some (pos k)
      → S.active (finish UiEndReason.cancelled (selections refs (begin v))).world m ≡ some (pos k)
  unfolding finish begin Showing
  finish-selections m k refs v e =
      let (captures, (z, shown, known)) =
        selections-Showing m k refs (begin v) (tt, (pos k, e, λ _. refl)) in
      restore_captured m k z (selections refs (begin v)).touches _ captures shown known
