-- ===== src/Session/Attempts.antt =====
-- What an attempt to apply does: the focus calls that are made, and the end of the session.
use Prim.Native.String.{String}
use mathlib.Core.List.{append_assoc}
use mru_switcher.Prelude.{
  ◌+◌, ◌≤◌, ◌<◌, ◌≡◌, refl, ap, subst, ◌∙◌, sym, Bool, true, false, List, [], ◌∷◌, ◌++◌, Option,
  none, some, arith, inl, inr, ◌⊎◌, if◌then◌else◌,
}
use mru_switcher.Window.{WindowRef}
use mru_switcher.Snapshot.{Snapshot, at}
use mru_switcher.Scheduler.{SchedulerPort}
use mru_switcher.History
use mru_switcher.History.{HistoryTracker}
use mru_switcher.History.Invariant as Tracker
use mru_switcher.History.Lock
use mru_switcher.Ports.{Ports, FocusResult, UiEndReason}
use mru_switcher.Session.Defs.{
  SessionController, SessionEndReason, CommandResult, Effect, focus_call, session_end, coarse,
  is_applied, end_session, clamp_index, prune_active,
}
use mru_switcher.Session.Apply.{complete_apply, finish_second}
use mru_switcher.Session.Invariant.{IsValid, capacity, end_session-IsValid}
use mru_switcher.Session.Pruning.{remaining, focused_on, prune_active-eq}

abbrev pub is_some {ℓ} : {A : Type ℓ} → Option A → Bool
is_some none = false
is_some (some a) = true

abbrev pub dead : WindowRef → Effect
dead q = focus_call q FocusResult.invalid_target

-- One attempt to focus, by its calls and the window that got the focus: no window was left, the
-- compositor focused one, or it failed to.
pub data Attempt : List Effect → Option WindowRef → Type 0 where
  nothing : Attempt [] none
  focused : (r : WindowRef) → Attempt (focus_call r FocusResult.applied ∷ []) (some r)
  refused : (r : WindowRef) → Attempt (focus_call r FocusResult.failed ∷ []) none

-- The focus calls of one apply, newest first: one attempt; or a second one after the window of the
-- first had died; or two windows that had died.
pub data Attempts (fs : List Effect) (w : Option WindowRef) : Type 0 where
  once : Attempt fs w → Attempts fs w
  again : (q : WindowRef) (gs : List Effect) → Attempt gs w → fs ≡ gs ++ dead q ∷ [] → Attempts fs w
  died_twice : (q r : WindowRef) → fs ≡ dead r ∷ dead q ∷ [] → w ≡ none → Attempts fs w

module _ {S : SchedulerPort} {P : Ports} where
  -- The session that `c` was has ended: the window `w` waits for its promotion, if there is one, the
  -- order is as it was, and the user interface has been told once.
  pub record Ended (c : SessionController S P) (fs : List Effect) (w : Option WindowRef)
      (c' : SessionController S P) (r : CommandResult) : Type 0 where
    pub valid : IsValid c'
    pub idle : c'.active ≡ false
    pub told :
        c'.effects
        ≡ session_end (if is_some w then UiEndReason.applied else UiEndReason.cancelled)
          ∷ (fs ++ c.effects)
    pub ok : r.ok ≡ is_some w
    pub waits : c'.tracker.pending_ref ≡ w
    pub same_order : c'.tracker.order ≡ c.tracker.order
    pub room : capacity c ≤ capacity c' + 1

  pub fail-Ended :
      (reason : SessionEndReason) (e : String) (c : SessionController S P)
      → is_applied reason ≡ false
      → coarse reason ≡ UiEndReason.cancelled
      → Tracker.IsValid S c.tracker
      → c.tracker.locked ≡ true
      → Ended c [] none (end_session reason e c).0 (end_session reason e c).1
  unfolding end_session
  fail-Ended reason e c not_applied cancelled v l =
      let (u, k) = end_session-IsValid reason e c v in
      record {
        valid = u;
        idle = refl;
        told = ground arith;
        ok = not_applied;
        waits = ground (arith, Lock.pending-unlock S c.tracker);
        same_order = Lock.order-set S false c.tracker;
        room = omega arith;
      }

  pub complete-Ended :
      (c : SessionController S P) (t : Snapshot) (r : WindowRef)
      → c.snapshot ≡ some t
      → at t c.index ≡ some r
      → Tracker.IsValid S c.tracker
      → 0 < capacity c
      → (c' : SessionController S P) × (q : CommandResult) × (complete_apply c ≡ some (c', q))
        × Ended c [] (some r) c' q
  unfolding complete_apply end_session
  complete-Ended c t r e f v room =
      let (u, k) = end_session-IsValid SessionEndReason.applied "" c v in
      let d = (end_session SessionEndReason.applied "" c).0 in
      let more : 0 < capacity d = omega (arith, k) in
      (
        record d { tracker = History.on_focus S r d.tracker },
        (end_session SessionEndReason.applied "" c).1,
        ground arith,
        record {
          valid = record {
            tracker_valid = Tracker.on_focus-IsValid S u.tracker_valid r more;
            locked = Lock.locked-on_focus S r d.tracker ∙ u.locked;
            selected = (refl, refl);
          };
          idle = refl;
          told = refl;
          ok = refl;
          waits = Lock.pending-on_focus S r d.tracker u.locked;
          same_order = Lock.order-on_focus S r d.tracker ∙ Lock.order-set S false c.tracker;
          room = omega (arith, k, Tracker.on_focus-capacity S r d.tracker);
        },
      )

  -- What the first attempt adds to what the rest of the apply does.
  pub rebase :
      (c : SessionController S P) (s : Snapshot) (r : WindowRef) (fs : List Effect)
      (w : Option WindowRef) (c' : SessionController S P) (q : CommandResult) (result : FocusResult)
      → (P.focus r c.world).result ≡ result
      → Ended (focused_on c s r) fs w c' q
      → Ended c (fs ++ focus_call r result ∷ []) w c' q
  rebase c s r fs w c' q result e v =
      subst (λ x. Ended c (fs ++ focus_call r x ∷ []) w c' q) e
        (record {
          valid = v.valid;
          idle = v.idle;
          told =
              v.told
              ∙ ap
                  (λ (es : List Effect).
                    session_end (if is_some w then UiEndReason.applied else UiEndReason.cancelled)
                    ∷ es)
                  (sym (append_assoc fs (focus_call r (P.focus r c.world).result ∷ []) c.effects));
          ok = v.ok;
          waits = v.waits;
          same_order = v.same_order;
          room = v.room;
        })

  -- A session that can be applied.
  pub record IsOpen (c : SessionController S P) (s : Snapshot) : Type 0 where
    pub active : c.active ≡ true
    pub frozen : c.snapshot ≡ some s
    pub tracker_valid : Tracker.IsValid S c.tracker
    pub locked : c.tracker.locked ≡ true
    pub room : 0 < capacity c

  abbrev pub Retried :
      SessionController S P → Option (SessionController S P × CommandResult) → Type 0
  Retried c o =
      (c' : SessionController S P) × (q : CommandResult) × (fs : List Effect) × (w : Option
        WindowRef)
      × (o ≡ some (c', q))
      × (Attempt fs w ⊎ ((r : WindowRef) × (fs ≡ dead r ∷ []) × (w ≡ none)))
      × Ended c fs w c' q

  pub second_result :
      (c : SessionController S P) (s : Snapshot) (r : WindowRef) (result : FocusResult)
      → IsOpen c s
      → at (remaining c s) (clamp_index (remaining c s) c.index) ≡ some r
      → (P.focus r c.world).result ≡ result
      → Retried c (finish_second (focused_on c s r, some result))
  unfolding finish_second
  second_result c s r FocusResult.applied v f e =
      let (c', q, eq, u) =
        complete-Ended (focused_on c s r) (remaining c s) r refl f v.tracker_valid v.room in
      (
        c',
        q,
        focus_call r FocusResult.applied ∷ [],
        some r,
        eq,
        inl (focused r),
        rebase c s r [] (some r) c' q FocusResult.applied e u,
      )
  second_result c s r FocusResult.failed v f e =
      let u =
        fail-Ended SessionEndReason.focus_failed "focus failed" (focused_on c s r) refl refl
          v.tracker_valid v.locked in
      (
        _,
        _,
        focus_call r FocusResult.failed ∷ [],
        none,
        refl,
        inl (refused r),
        rebase c s r [] none _ _ FocusResult.failed e u,
      )
  second_result c s r FocusResult.invalid_target v f e =
      let u =
        fail-Ended SessionEndReason.invalid_selection "selection invalid" (focused_on c s r) refl
          refl v.tracker_valid v.locked in
      (
        _,
        _,
        dead r ∷ [],
        none,
        refl,
        inr (r, refl, refl),
        rebase c s r [] none _ _ FocusResult.invalid_target e u,
      )

  pub prune-IsOpen :
      (c : SessionController S P) (s : Snapshot)
      → IsOpen c s
      → (Tracker.IsValid S (prune_active c).tracker) × ((prune_active c).tracker.locked ≡ true)
  prune-IsOpen c s v = rw (prune_active-eq c s v.frozen) (v.tracker_valid, v.locked)
