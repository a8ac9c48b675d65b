-- ===== src/PulseTimer/Armed.antt =====
-- The source that the event loop holds for the timer.
use mru_switcher.Prelude.{
  ◌≡◌, refl, ap, ◌∙◌, Bool, true, false, not, ◌||◌, List, [], ◌∷◌, Option, none, some, if_cases, ℤ,
  pos, less,
}
use mru_switcher.PulseTimer.{
  EventLoop, TimerCall, schedules, cancels, HyprlandPulseTimer, remove_source, update_source,
  cancel, arm, checked, schedule, call, calls, ticked, timer_callback,
}

module _ (E : EventLoop) where
  -- What is relied on of the event loop: which sources it holds for the timer and what each is armed
  -- with, where 0 is not armed.
  pub record Laws : Type 0 where
    pub armed : E.State → List (E.Source × ℤ)
    pub added :
        (h k : E.State) (s : E.Source)
        → E.add_timer h ≡ (k, some s)
        → armed k ≡ (s, pos 0) ∷ armed h
    pub not_added : (h k : E.State) → E.add_timer h ≡ (k, none) → armed k ≡ armed h
    pub updated :
        (h : E.State) (s : E.Source) (p q : ℤ)
        → armed h ≡ (s, p) ∷ []
        → armed (E.timer_update s q h) ≡ (s, q) ∷ []
    pub removed :
        (h : E.State) (s : E.Source) (p : ℤ)
        → armed h ≡ (s, p) ∷ []
        → armed (E.source_remove s h) ≡ []
    pub expired :
        (h : E.State) (s : E.Source) (p : ℤ)
        → armed h ≡ (s, p) ∷ []
        → armed (E.expire s h) ≡ (s, pos 0) ∷ []

  module _ (L : Laws) (Tick : Type 0) where
    abbrev Timer : Type 0
    Timer = HyprlandPulseTimer E Tick

    -- The loop holds the source of the timer, and no other, armed with this.
    abbrev pub Held : Option E.Source → ℤ → E.State → Type 0
    Held none p h = L.armed h ≡ []
    Held (some s) p h = L.armed h ≡ (s, p) ∷ []

    abbrev pub is_set {ℓ} : {A : Type ℓ} → Option A → Bool
    is_set none = false
    is_set (some a) = true

    -- While a callback runs, the source may be armed with anything.
    abbrev IsHeld : Timer → Type 0
    IsHeld t = (p : ℤ) × Held t.timer_source p t.loop × (is_set t.on_tick ≡ is_set t.timer_source)

    -- Outside of it, with the period.
    pub record IsArmed (t : Timer) : Type 0 where
      pub held : Held t.timer_source t.armed_period_ms t.loop
      pub called : is_set t.on_tick ≡ is_set t.timer_source

    remove_source-empty :
        (o : Option E.Source) (p : ℤ) (h : E.State)
        → Held o p h
        → L.armed (remove_source E Tick o h) ≡ []
    remove_source-empty none p h a = a
    remove_source-empty (some s) p h a = L.removed h s p a

    update_source-Held :
        (o : Option E.Source) (p q : ℤ) (h : E.State)
        → Held o p h
        → Held o q (update_source E Tick o q h)
    update_source-Held none p q h a = a
    update_source-Held (some s) p q h a = L.updated h s p q a

    cancel-IsArmed : (t : Timer) → IsHeld t → IsArmed (cancel E Tick t)
    unfolding cancel
    cancel-IsArmed t (p, a, c) = record {
      held = remove_source-empty t.timer_source p t.loop a;
      called = refl;
    }

    cancelled : (t : Timer) → false ≡ is_set (cancel E Tick t).timer_source
    unfolding cancel
    cancelled t = refl

    idle : (t : Timer) → IsHeld t → L.armed (cancel E Tick t).loop ≡ []
    unfolding cancel
    idle t w = (cancel-IsArmed t w).held

    added_source :
        (r : E.State × Option E.Source) (h : E.State) (p : ℤ)
        → E.add_timer h ≡ r
        → L.armed h ≡ []
        → Held r.1 p (update_source E Tick r.1 p r.0)
    added_source (k, none) h p e a = L.not_added h k e ∙ a
    added_source (k, some s) h p e a =
        L.updated k s (pos 0) p (L.added h k s e ∙ ap (λ l. (s, pos 0) ∷ l) a)

    checked-IsArmed :
        (o : Option E.Source) (t : Timer)
        → t.timer_source ≡ o
        → Held o t.armed_period_ms t.loop
        → is_set t.on_tick ≡ true
        → let (u, b) = checked E Tick o t in IsArmed u × (b ≡ is_set u.timer_source)
    checked-IsArmed none t e a c = (record { held = rw e a; called = rw e refl }, rw e refl)
    checked-IsArmed (some s) t e a c =
        (record { held = rw e a; called = rw (c, e) refl }, rw e refl)

    schedule-IsArmed :
        (has_loop : Bool) (period_ms : ℤ) (tick : Tick) (t : Timer)
        → IsHeld t
        → let (u, b) = schedule E Tick has_loop period_ms tick t in
          IsArmed u × (b ≡ is_set u.timer_source)
    unfolding schedule arm
    schedule-IsArmed has_loop period_ms tick t w =
        let u = cancel E Tick t in
        let k = cancel-IsArmed t w in
        let r = E.add_timer u.loop in
        if_cases (λ (x : Timer × Bool). IsArmed x.0 × (x.1 ≡ is_set x.0.timer_source))
          (not has_loop || not (less (pos 0) period_ms)) (λ _. (k, cancelled t))
          (λ _. checked-IsArmed r.1 _ refl (added_source r u.loop period_ms refl (idle t w)) refl)

    IsArmed-IsHeld : (t : Timer) → IsArmed t → IsHeld t
    IsArmed-IsHeld t a = (t.armed_period_ms, a.held, a.called)

    calls-IsArmed :
        (cs : List (TimerCall Tick)) (t : Timer) → IsArmed t → IsArmed (calls E Tick cs t)
    unfolding calls call
    calls-IsArmed [] t a = a
    calls-IsArmed (schedules has_loop p tick ∷ cs) t a =
        calls-IsArmed cs _ (schedule-IsArmed has_loop p tick t (IsArmed-IsHeld t a)).0
    calls-IsArmed (cancels ∷ cs) t a = calls-IsArmed cs _ (cancel-IsArmed t (IsArmed-IsHeld t a))

    calls-IsHeld : (cs : List (TimerCall Tick)) (t : Timer) → IsHeld t → IsHeld (calls E Tick cs t)
    unfolding calls call
    calls-IsHeld [] t w = w
    calls-IsHeld (schedules has_loop p tick ∷ cs) t w =
        IsArmed-IsHeld _ (calls-IsArmed cs _ (schedule-IsArmed has_loop p tick t w).0)
    calls-IsHeld (cancels ∷ cs) t w = IsArmed-IsHeld _ (calls-IsArmed cs _ (cancel-IsArmed t w))

    -- The source of the timer fires: the loop has it expire, and calls back.
    abbrev pub expire_source : Option E.Source → E.State → E.State
    expire_source none h = h
    expire_source (some s) h = E.expire s h

    abbrev pub fire : (Tick → List (TimerCall Tick)) → Timer → Timer
    fire calls_of t =
        timer_callback E Tick calls_of (record t { loop = expire_source t.timer_source t.loop })

    expire_source-Held :
        (o : Option E.Source) (p : ℤ) (h : E.State)
        → Held o p h
        → Held o (pos 0) (expire_source o h)
    expire_source-Held none p h a = a
    expire_source-Held (some s) p h a = L.expired h s p a

    ticked-IsHeld :
        (calls_of : Tick → List (TimerCall Tick)) (o : Option Tick) (t : Timer)
        → IsHeld t
        → IsHeld (ticked E Tick calls_of o t)
    ticked-IsHeld calls_of none t w = w
    ticked-IsHeld calls_of (some tick) t w = calls-IsHeld (calls_of tick) t w

    fire-IsArmed :
        (calls_of : Tick → List (TimerCall Tick)) (t : Timer)
        → IsArmed t
        → IsArmed (fire calls_of t)
    unfolding timer_callback
    fire-IsArmed calls_of t a =
        let s : Timer = record t { loop = expire_source t.timer_source t.loop } in
        let u = ticked E Tick calls_of t.on_tick s in
        let (p, h, c) =
          ticked-IsHeld calls_of t.on_tick s
            (pos 0, expire_source-Held t.timer_source t.armed_period_ms t.loop a.held, a.called) in
        record { held = update_source-Held u.timer_source p u.armed_period_ms u.loop h; called = c }

    -- What happens to a timer: its owner calls it, or the loop fires it.
    pub data Happening : Type 0 where
      owner_calls : TimerCall Tick → Happening
      source_fires : Happening

    abbrev pub happen : (Tick → List (TimerCall Tick)) → List Happening → Timer → Timer
    happen calls_of [] t = t
    happen calls_of (owner_calls c ∷ hs) t = happen calls_of hs (call E Tick c t)
    happen calls_of (source_fires ∷ hs) t = happen calls_of hs (fire calls_of t)

    -- Whatever its owner calls, whenever it fires, and whatever its callbacks call of it in turn: the
    -- event loop holds one source for the timer, armed with its period, while it has a callback, and
    -- none otherwise; and `schedule` then answers that it was done exactly when there is one.
    pub happen-IsArmed :
        (calls_of : Tick → List (TimerCall Tick)) (hs : List Happening) (t : Timer)
        → IsArmed t
        → (has_loop : Bool) (period_ms : ℤ) (tick : Tick)
        → let u = happen calls_of hs t in
          IsArmed u
          × (let (v, b) = schedule E Tick has_loop period_ms tick u in
              IsArmed v × (b ≡ is_set v.timer_source))
    unfolding calls
    happen-IsArmed calls_of [] t a has_loop p tick =
        (a, schedule-IsArmed has_loop p tick t (IsArmed-IsHeld t a))
    happen-IsArmed calls_of (owner_calls c ∷ hs) t a has_loop p tick =
        happen-IsArmed calls_of hs (call E Tick c t) (calls-IsArmed (c ∷ []) t a) has_loop p tick
    happen-IsArmed calls_of (source_fires ∷ hs) t a has_loop p tick =
        happen-IsArmed calls_of hs (fire calls_of t) (fire-IsArmed calls_of t a) has_loop p tick
