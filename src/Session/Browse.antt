-- ===== src/Session/Browse.antt =====
-- While a session is active its list is frozen: nothing but a closed window or the end of the
-- session changes it, and nothing changes the history's order.
use mathlib.Core.Option.{some-injective}
use mru_switcher.Prelude.{
  ℕ, zero, suc, ◌+◌, ◌%◌, ◌^◌, ◌≤◌, ◌<◌, ◌≡◌, refl, ap, ◌∙◌, Bool, true, List, [], ◌∷◌, Option,
  none, some, arith, All,
}
use mru_switcher.Window.{Scope, Direction, next}
use mru_switcher.Selection.{advance_index}
use mru_switcher.Selection.Ring.{advance_times, advance_times-next}
use mru_switcher.Snapshot.{Snapshot, size}
use mru_switcher.Scheduler.{SchedulerPort}
use mru_switcher.History
use mru_switcher.History.Promotion
use mru_switcher.Ports.{Ports}
use mru_switcher.Session.Defs.{
  SessionController, Effect, selection_changed, focus_call, session_start, session_end, emit,
  on_focus, cycle, select_index,
}
use mru_switcher.Session.Apply.{set_policy}
use mru_switcher.Session.Step.{
  Event, cycles, selects, applies, cancels, shuts_down, focuses, closes, reloads, fires, changes,
  step, run,
}
use mru_switcher.Session.Invariant.{IsValid, capacity, Selected-live}
use mru_switcher.Session.Safety.{costs, step_safe}

-- The events of a session that is neither ended nor loses a window.
abbrev pub Browses : {W : Type 0} → Event W → Type 0
Browses applies = ⊥
Browses cancels = ⊥
Browses shuts_down = ⊥
Browses (closes r) = ⊥
Browses (cycles dir scope) = Unit {0}
Browses (selects i) = Unit {0}
Browses (focuses r) = Unit {0}
Browses (reloads policy ms) = Unit {0}
Browses (fires id) = Unit {0}
Browses (changes w) = Unit {0}

-- The focus calls among the effects.
abbrev pub focus_calls : List Effect → List Effect
focus_calls [] = []
focus_calls (focus_call r result ∷ es) = focus_call r result ∷ focus_calls es
focus_calls (session_start s i ∷ es) = focus_calls es
focus_calls (selection_changed i ∷ es) = focus_calls es
focus_calls (session_end reason ∷ es) = focus_calls es

-- `k` steps forward.
abbrev pub cycle_times : {W : Type 0} → ℕ → List (Event W)
cycle_times zero = []
cycle_times (suc k) = cycles next none ∷ cycle_times k

module _ {S : SchedulerPort} {P : Ports} where
  -- The same session, with the same list, origin and policy; the order is the same and no window
  -- has been focused.
  pub record SameSession (c d : SessionController S P) : Type 0 where
    pub active : d.active ≡ c.active
    pub snapshot : d.snapshot ≡ c.snapshot
    pub session_origin : d.session_origin ≡ c.session_origin
    pub session_id : d.session_id ≡ c.session_id
    pub snapshot_policy : d.snapshot_policy ≡ c.snapshot_policy
    pub order : d.tracker.order ≡ c.tracker.order
    pub unfocused : focus_calls d.effects ≡ focus_calls c.effects

  SameSession-trans :
      {c d e : SessionController S P} → SameSession c d → SameSession d e → SameSession c e
  SameSession-trans p q = record {
    active = q.active ∙ p.active;
    snapshot = q.snapshot ∙ p.snapshot;
    session_origin = q.session_origin ∙ p.session_origin;
    session_id = q.session_id ∙ p.session_id;
    snapshot_policy = q.snapshot_policy ∙ p.snapshot_policy;
    order = q.order ∙ p.order;
    unfocused = q.unfocused ∙ p.unfocused;
  }

  step-SameSession :
      (e : Event P.World) (c : SessionController S P) (d : SessionController S P)
      → IsValid c
      → c.active ≡ true
      → Browses e
      → step e c ≡ some d
      → SameSession c d
  unfolding step cycle select_index on_focus set_policy History.set_debounce_ms
  step-SameSession (cycles dir o) c d v a b e = ground arith
  step-SameSession (selects i) c d v a b e = ground arith
  step-SameSession (focuses r) c d v a b e = ground arith
  step-SameSession (reloads policy ms) c d v a b e = ground arith
  step-SameSession (fires id) c d v a b e =
      let locked : c.tracker.locked ≡ true = v.locked ∙ a in
      let same =
        (Promotion.locked_fire S (P.is_valid c.world) c.tracker id v.tracker_valid locked) in
      rw (← some-injective _ _ e) (record {
        active = refl;
        snapshot = refl;
        session_origin = refl;
        session_id = refl;
        snapshot_policy = refl;
        order = same;
        unfocused = refl;
      })
  step-SameSession (changes w) c d v a b e = ground arith
  step-SameSession applies c d v a b e = absurd b
  step-SameSession cancels c d v a b e = absurd b
  step-SameSession shuts_down c d v a b e = absurd b
  step-SameSession (closes r) c d v a b e = absurd b

  -- From a valid state with an active session, with job ids enough left, and while the session is
  -- neither ended nor told of a closed window: however long the user browses, and whatever is
  -- announced, runs out, is reloaded or changes meanwhile, every event returns, the
  -- list, the origin and the policy of the session are those that it was started with, the order of
  -- the history is unchanged, and no window is focused.
  pub browse_frozen :
      (es : List (Event P.World)) (c : SessionController S P)
      → IsValid c
      → c.active ≡ true
      → costs P.burst es ≤ capacity c
      → All Browses es
      → (d : SessionController S P) × (run es c ≡ some d) × SameSession c d
  unfolding run
  browse_frozen [] c v a room b = (
    c,
    refl,
    record {
      active = refl;
      snapshot = refl;
      session_origin = refl;
      session_id = refl;
      snapshot_policy = refl;
      order = refl;
      unfocused = refl;
    },
  )
  browse_frozen (e ∷ es) c v a room b =
      let (d, eq, u, k) = step_safe e c v (omega arith) in
      let p = step-SameSession e c d v a b.0 eq in
      let (f, eq', q) = browse_frozen es d u (p.active ∙ a) (omega arith) b.1 in
      (f, rw eq eq', SameSession-trans p q)

  cycle_active :
      (dir : Direction) (o : Option Scope) (c : SessionController S P) (s : Snapshot)
      → c.active ≡ true
      → c.snapshot ≡ some s
      → let i = advance_index c.index dir c.snapshot_policy.wrap (size s) in
        step (cycles dir o) c ≡ some (emit (selection_changed i) (record c { index = i }))
  unfolding step cycle
  cycle_active dir o c s a f = ground arith

  cycle_times_index :
      (k : ℕ) (c : SessionController S P) (s : Snapshot)
      → c.active ≡ true
      → c.snapshot ≡ some s
      → (d : SessionController S P) × (run (cycle_times k) c ≡ some d)
        × (d.index ≡ advance_times k c.index next c.snapshot_policy.wrap (size s))
  unfolding run
  cycle_times_index zero c s a f = (c, refl, refl)
  cycle_times_index (suc k) c s a f =
      let i = advance_index c.index next c.snapshot_policy.wrap (size s) in
      let (d, eq, h) =
        cycle_times_index k (emit (selection_changed i) (record c { index = i })) s a f in
      (d, rw (cycle_active next none c s a f) eq, h)

  -- From a valid state with an active session whose policy says `wrap` and whose list is shorter than
  -- 2 ^ 63, `k` steps forward select the window `k` places on, modulo the length of the list.
  pub cycle_times-wrap :
      (k : ℕ) (c : SessionController S P) (s : Snapshot)
      → IsValid c
      → c.active ≡ true
      → c.snapshot ≡ some s
      → c.snapshot_policy.wrap ≡ true
      → size s < 2 ^ 63
      → (d : SessionController S P) × (run (cycle_times k) c ≡ some d)
        × (d.index ≡ (c.index + k) % size s)
  cycle_times-wrap k c s v a f wrap small =
      let (d, eq, h) = cycle_times_index k c s a f in
      let (t, g, lt) = Selected-live c.active c.snapshot c.index c.session_origin v.selected a in
      let same : t ≡ s = cc in
      (
        d,
        eq,
        h
            ∙ ap (λ (b : Bool). advance_times k c.index next b (size s)) wrap
            ∙ advance_times-next (size s) small k c.index (rw same at lt),
      )
