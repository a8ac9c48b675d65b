-- ===== src/History/Invariant.antt =====
-- What every operation of the history keeps.
use mru_switcher.Prelude.{
  ℕ, ◌+◌, ◌<◌, ◌≤◌, ◌≡◌, refl, ◌↔◌, Bool, true, false, List, [], ◌∷◌, ◌++◌, none, some, arith, ◌==◌,
  if◌then◌else◌, contains, Distinct, Distinct-remove, contains-remove_self, contains-append,
  Option-cases, if_cases, ◌∙◌, ◌&&◌, not, inl, inr,
}
use mru_switcher.Window.{WindowRef, window_eq, ref_eq_iff}
use mru_switcher.Scheduler.{SchedulerPort}
use mru_switcher.History.{
  HistoryTracker, init, cancel_pending, schedule, on_focus, set_session_locked, promote, commit,
  flush_pending, set_debounce_ms, seed_loop, seed, fire,
}

-- The order names no window twice; `pending` names a job exactly when `pending_ref` holds its
-- window, that job waits in the scheduler and no other does, and none waits under lock-in.
pub record IsValid (S : SchedulerPort) (t : HistoryTracker S) : Type 0 where
  pub scheduler_valid : S.IsValid t.scheduler
  pub jobs : (j : ℕ) → S.job t.scheduler j ≡ (if t.pending == j then t.pending_ref else none)
  pub paired : (t.pending ≡ 0) ↔ (t.pending_ref ≡ none)
  pub quiet : t.locked ≡ true → t.pending ≡ 0
  pub distinct : Distinct t.order
  pub clamped : t.debounce_ms ≤ 5000

pub Distinct-promote : (r : WindowRef) (xs : List WindowRef) → Distinct xs → Distinct (promote r xs)
unfolding promote
Distinct-promote r xs d = (contains-remove_self r xs, Distinct-remove r xs d)

Distinct-snoc :
    (xs : List WindowRef) (r : WindowRef)
    → Distinct xs
    → contains xs r ≡ false
    → Distinct (xs ++ r ∷ [])
Distinct-snoc [] r d h = (refl, tt)
Distinct-snoc (x ∷ xs) r d h =
    ground
      (arith, contains-append xs (r ∷ []) x, ref_eq_iff x r, ref_eq_iff r x, Distinct-snoc xs r d.1)

pub Distinct-seed_loop :
    (is_valid : WindowRef → Bool) (ws order : List WindowRef)
    → Distinct order
    → Distinct (seed_loop is_valid ws order)
unfolding seed_loop
Distinct-seed_loop is_valid [] order d = d
Distinct-seed_loop is_valid (r ∷ ws) order d =
    Distinct-seed_loop is_valid ws _ (ground (arith, Distinct-snoc order r d))

module _ (S : SchedulerPort) where
  pub init-IsValid :
      (s : S.State) (ms : ℕ) → S.IsValid s → ((j : ℕ) → S.job s j ≡ none) → IsValid S (init S s ms)
  unfolding init
  init-IsValid s ms v free = record {
    scheduler_valid = v;
    jobs = λ j. ground (arith, free j);
    paired = ground arith;
    quiet = ground arith;
    distinct = tt;
    clamped = ground arith;
  }

  -- A promotion is made when no job waits any more.
  commit-IsValid :
      (is_valid : WindowRef → Bool) (r : WindowRef) (t : HistoryTracker S)
      → S.IsValid t.scheduler
      → ((j : ℕ) → S.job t.scheduler j ≡ none)
      → Distinct t.order
      → t.debounce_ms ≤ 5000
      → IsValid S (commit S is_valid r t)
  unfolding commit
  commit-IsValid is_valid r t sv free d c = record {
    scheduler_valid = ground (arith, sv);
    jobs = λ j. ground (arith, free j);
    paired = ground arith;
    quiet = ground arith;
    distinct = ground (arith, Distinct-promote r t.order d);
    clamped = ground arith;
  }

  module _ {t : HistoryTracker S} (v : IsValid S t) where
    pub cancel_pending-IsValid : IsValid S (cancel_pending S t)
    unfolding cancel_pending
    cancel_pending-IsValid = record {
      scheduler_valid = ground (arith, S.cancel-IsValid t.pending t.scheduler v.scheduler_valid);
      jobs = λ j. ground (arith, S.cancel-job t.pending t.scheduler j, v.jobs j);
      paired = ground arith;
      quiet = ground arith;
      distinct = ground arith;
      clamped = ground arith;
    }

    schedule-IsValid :
        (r : WindowRef)
        → t.pending ≡ 0
        → t.locked ≡ false
        → 0 < S.capacity t.scheduler
        → IsValid S (schedule S r t)
    unfolding schedule
    schedule-IsValid r idle open_ room = record {
      scheduler_valid = S.schedule-IsValid t.debounce_ms r t.scheduler v.scheduler_valid room;
      jobs = λ j.
          ground
            (arith, S.schedule-job t.debounce_ms r t.scheduler j v.scheduler_valid room, v.jobs j);
      paired = ground (arith, S.schedule-id t.debounce_ms r t.scheduler v.scheduler_valid room);
      quiet = ground arith;
      distinct = v.distinct;
      clamped = v.clamped;
    }

    relock-IsValid : (b : Bool) → (b ≡ true → t.pending ≡ 0) → IsValid S (record t { locked = b })
    relock-IsValid b idle = record {
      scheduler_valid = v.scheduler_valid;
      jobs = v.jobs;
      paired = v.paired;
      quiet = idle;
      distinct = v.distinct;
      clamped = v.clamped;
    }

    pub set_debounce_ms-IsValid : (ms : ℕ) → IsValid S (set_debounce_ms S ms t)
    unfolding set_debounce_ms
    set_debounce_ms-IsValid ms = record {
      scheduler_valid = v.scheduler_valid;
      jobs = v.jobs;
      paired = v.paired;
      quiet = v.quiet;
      distinct = v.distinct;
      clamped = omega arith;
    }

    pub seed-IsValid :
        (is_valid : WindowRef → Bool) (initial : List WindowRef)
        → IsValid S (seed S is_valid initial t)
    unfolding seed
    seed-IsValid is_valid initial = record {
      scheduler_valid = v.scheduler_valid;
      jobs = v.jobs;
      paired = v.paired;
      quiet = v.quiet;
      distinct = Distinct-seed_loop is_valid initial [] tt;
      clamped = v.clamped;
    }

  -- Nothing is pending any more, and all else is as it was.
  abbrev pub Cleared : HistoryTracker S → HistoryTracker S → Type 0
  Cleared t u =
      (u.pending ≡ 0)
      × (u.pending_ref ≡ none)
      × (u.locked ≡ t.locked)
      × (u.order ≡ t.order)
      × (u.debounce_ms ≡ t.debounce_ms)

  pub cancel_pending-Cleared : (t : HistoryTracker S) → Cleared t (cancel_pending S t)
  unfolding cancel_pending
  cancel_pending-Cleared t = ground arith

  pub cancel_pending-capacity :
      (t : HistoryTracker S) → S.capacity (cancel_pending S t).scheduler ≡ S.capacity t.scheduler
  unfolding cancel_pending
  cancel_pending-capacity t = ground (arith, S.cancel-capacity t.pending t.scheduler)

  -- A focus event uses up one job id at most; nothing else uses any.
  pub on_focus-capacity :
      (r : WindowRef) (t : HistoryTracker S)
      → 0 < S.capacity t.scheduler
      → S.capacity t.scheduler ≤ S.capacity (on_focus S r t).scheduler + 1
  unfolding on_focus schedule
  on_focus-capacity r t room =
      let u : HistoryTracker S = cancel_pending S t in
      ground (arith, cancel_pending-capacity t, S.schedule-capacity u.debounce_ms r u.scheduler)

  pub flush_pending-capacity :
      (is_valid : WindowRef → Bool) (t : HistoryTracker S)
      → S.capacity (flush_pending S is_valid t).scheduler ≡ S.capacity t.scheduler
  unfolding flush_pending commit
  flush_pending-capacity is_valid t = ground (arith, cancel_pending-capacity t)

  pub fire-capacity :
      (is_valid : WindowRef → Bool) (id : ℕ) (t : HistoryTracker S)
      → S.capacity (fire S is_valid id t).scheduler ≡ S.capacity t.scheduler
  unfolding fire commit
  fire-capacity is_valid id t = ground (arith, S.expire-capacity id t.scheduler)

  pub set_session_locked-capacity :
      (b : Bool) (t : HistoryTracker S)
      → S.capacity (set_session_locked S b t).scheduler ≡ S.capacity t.scheduler
  unfolding set_session_locked
  set_session_locked-capacity b t = ground (arith, cancel_pending-capacity t)

  no_job :
      {u : HistoryTracker S}
      → IsValid S u
      → u.pending_ref ≡ none
      → (j : ℕ) → S.job u.scheduler j ≡ none
  no_job {u} v e j = ground (arith, v.jobs j)

  module _ {t : HistoryTracker S} (v : IsValid S t) where
    pub on_focus-IsValid : (r : WindowRef) → 0 < S.capacity t.scheduler → IsValid S (on_focus S r t)
    unfolding on_focus
    on_focus-IsValid r room =
        if_cases (IsValid S) t.locked (λ _. v)
          λ open_.
            let (idle, _, same, _, _) = cancel_pending-Cleared t in
            schedule-IsValid (cancel_pending-IsValid v) r idle (same ∙ open_)
              (omega (arith, cancel_pending-capacity t))

    pub set_session_locked-IsValid : (b : Bool) → IsValid S (set_session_locked S b t)
    unfolding set_session_locked
    set_session_locked-IsValid b =
        if_cases (IsValid S) (b && not t.locked)
          (λ _. relock-IsValid (cancel_pending-IsValid v) b (λ _. (cancel_pending-Cleared t).0))
          (λ e. relock-IsValid v b (ground (arith, v.quiet)))

    pub flush_pending-IsValid :
        (is_valid : WindowRef → Bool) → IsValid S (flush_pending S is_valid t)
    unfolding flush_pending
    flush_pending-IsValid is_valid =
        if_cases (IsValid S) (t.pending == 0) (λ _. v)
          λ _.
            (elim t.pending_ref
              as (λ o.
                IsValid S
                  (elim o [ none ↦ t | some r ↦ commit S is_valid r (cancel_pending S t) ])) [
                    | none ↦ v
                    | some r ↦
                        let u = cancel_pending-IsValid v in
                        commit-IsValid is_valid r _ u.scheduler_valid
                          (no_job u (cancel_pending-Cleared t).1) u.distinct u.clamped
                  ])

    -- The job that waits is the pending one.
    job_pending :
        (id : ℕ) (r : WindowRef)
        → S.job t.scheduler id ≡ some r
        → (t.pending ≡ id) × (t.pending_ref ≡ some r)
    job_pending id r e = ground (arith, v.jobs id)

    pub fire-IsValid : (is_valid : WindowRef → Bool) (id : ℕ) → IsValid S (fire S is_valid id t)
    unfolding fire
    fire-IsValid is_valid id = elim (Option-cases (S.job t.scheduler id)) [
      | inl e ↦ rw (e, fire) v
      | inr (r, e) ↦
          rw (e, fire)
            (commit-IsValid is_valid r _ (S.expire-IsValid id t.scheduler v.scheduler_valid)
              (λ j. ground (
                arith,
                S.expire-job id t.scheduler j v.scheduler_valid,
                v.jobs j,
                job_pending id r e,
              ))
              v.distinct v.clamped)
    ]
