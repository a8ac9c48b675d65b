-- ===== src/History/Promotion.antt =====
-- Which window is promoted, and when.
use mru_switcher.Prelude.{
  ℕ, ◌<◌, ◌≡◌, Bool, true, false, ◌||◌, ◌&&◌, List, [], ◌∷◌, Option, none, some, arith, ◌==◌,
  if◌then◌else◌, contains, remove, contains-remove, contains-remove_self, remove_absent,
  contains-append, Option-cases, inl, inr, ◌∙◌,
}
use mru_switcher.Window.{WindowRef, window_eq, ref_eq, ref_eq_iff}
use mru_switcher.Scheduler.{SchedulerPort}
use mru_switcher.History.{
  HistoryTracker, cancel_pending, schedule, on_focus, promote, commit, flush_pending, seed_loop,
  seed, fire,
}
use mru_switcher.History.Invariant.{
  IsValid, cancel_pending-Cleared, on_focus-IsValid, on_focus-capacity, flush_pending-IsValid,
}

-- Moving a window to the front adds that window and no other, and leaves the others as they were, in
-- their order.
pub promote_lem :
    (r : WindowRef) (xs : List WindowRef)
    → ((a : WindowRef) → contains (promote r xs) a ≡ (ref_eq r a || contains xs a))
      × (remove r (promote r xs) ≡ remove r xs)
unfolding promote
promote_lem r xs = (
  λ a. ground (arith, contains-remove r xs a, ref_eq_iff r a, ref_eq_iff a r),
  ground (arith, ref_eq_iff r r, remove_absent r (remove r xs) (contains-remove_self r xs)),
)

-- Promoting the same window again changes nothing.
pub promote_idem : (r : WindowRef) (xs : List WindowRef) → promote r (promote r xs) ≡ promote r xs
unfolding promote
promote_idem r xs =
    ground (arith, ref_eq_iff r r, remove_absent r (remove r xs) (contains-remove_self r xs))

-- The windows of `seed`: those of the list that are valid, and those that were there.
contains-seed_loop :
    (is_valid : WindowRef → Bool) (ws order : List WindowRef) (a : WindowRef)
    → contains (seed_loop is_valid ws order) a ≡ (contains order a || (contains ws a && is_valid a))
unfolding seed_loop
contains-seed_loop is_valid [] order a = ground arith
contains-seed_loop is_valid (r ∷ ws) order a =
    contains-seed_loop is_valid ws _ a
    ∙ ground (arith, contains-append order (r ∷ []) a, ref_eq_iff r a)

module _ (S : SchedulerPort) (is_valid : WindowRef → Bool) where
  -- After `seed` the order holds exactly the valid windows of the list.
  pub contains-seed :
      (initial : List WindowRef) (t : HistoryTracker S) (a : WindowRef)
      → contains (seed S is_valid initial t).order a ≡ (contains initial a && is_valid a)
  unfolding seed
  contains-seed initial t a = contains-seed_loop is_valid initial [] a

  order-commit :
      (r : WindowRef) (t : HistoryTracker S)
      → (commit S is_valid r t).order ≡ (if is_valid r then promote r t.order else t.order)
  unfolding commit
  order-commit r t = ground arith

  -- The order after the window that waits, if there is one, has been committed.
  abbrev pub committed : Option WindowRef → List WindowRef → List WindowRef
  committed none order = order
  committed (some r) order = if is_valid r then promote r order else order

  order-committed :
      (r : WindowRef) (t : HistoryTracker S)
      → (commit S is_valid r t).order ≡ committed (some r) t.order
  order-committed r t = order-commit r t

  -- In a valid history, a timer that fires commits the window that waits if its job is the pending one, and changes no
  -- order otherwise.
  pub order-fire :
      (t : HistoryTracker S) (id : ℕ)
      → IsValid S t
      → (fire S is_valid id t).order
        ≡ (if t.pending == id then committed t.pending_ref t.order else t.order)
  unfolding fire
  order-fire t id v = elim (Option-cases (S.job t.scheduler id)) [
    | inl e ↦ rw (e, fire) (ground (arith, v.jobs id))
    | inr (r, e) ↦
        rw (e, fire)
          (order-commit r (record t { scheduler = S.expire id t.scheduler })
            ∙ ground (arith, v.jobs id))
  ]

  pub order-flush :
      (t : HistoryTracker S)
      → IsValid S t
      → (flush_pending S is_valid t).order ≡ committed t.pending_ref t.order
  unfolding flush_pending
  order-flush t v = elim (Option-cases t.pending_ref) [
    | inl f ↦ ground arith
    | inr (r, f) ↦
        let (_, _, _, same, _) = cancel_pending-Cleared S t in
        ground (arith, order-commit r (cancel_pending S t))
  ]

  pending-flush :
      (t : HistoryTracker S) → IsValid S t → (flush_pending S is_valid t).pending_ref ≡ none
  unfolding flush_pending commit
  pending-flush t v = ground arith

  -- In a valid history, a promotion that waits is committed by `flush_pending` exactly as its timer would commit it,
  -- and afterwards no window waits and no timer changes the order.
  pub flush_pending-fire :
      (t : HistoryTracker S)
      → IsValid S t
      → let u = flush_pending S is_valid t in
        (u.order ≡ (fire S is_valid t.pending t).order)
        × (u.pending_ref ≡ none)
        × ((id : ℕ) → (fire S is_valid id u).order ≡ u.order)
  flush_pending-fire t v =
      let u = flush_pending-IsValid S v is_valid in
      let gone = pending-flush t v in
      (
        ground (arith, order-flush t v, order-fire t t.pending v),
        gone,
        λ id. ground (arith, order-fire (flush_pending S is_valid t) id u, gone),
      )

  -- In a valid history under lock-in no timer and no focus event changes the order.
  pub locked_order :
      (t : HistoryTracker S) (id : ℕ) (r : WindowRef)
      → IsValid S t
      → t.locked ≡ true
      → ((fire S is_valid id t).order ≡ t.order) × (on_focus S r t ≡ t)
  unfolding on_focus
  locked_order t id r v l = (ground (arith, order-fire t id v), ground arith)

  pub locked_fire :
      (t : HistoryTracker S) (id : ℕ)
      → IsValid S t
      → t.locked ≡ true
      → (fire S is_valid id t).order ≡ t.order
  locked_fire t id v l = ground (arith, order-fire t id v)

  on_focus_open :
      (t : HistoryTracker S) (a : WindowRef)
      → t.locked ≡ false
      → ((on_focus S a t).locked ≡ false)
        × ((on_focus S a t).order ≡ t.order)
        × ((on_focus S a t).pending_ref ≡ some a)
  unfolding on_focus schedule
  on_focus_open t a l = ground (arith, cancel_pending-Cleared S t)

  -- In a valid history that is not locked, with two job ids left, a second focus event before the debounce ends replaces the first: whichever timer fires, the
  -- first window is not promoted, and the second is when its own timer fires and it is valid.
  pub debounce_last :
      (t : HistoryTracker S) (a b : WindowRef) (id : ℕ)
      → IsValid S t
      → t.locked ≡ false
      → 1 < S.capacity t.scheduler
      → let u = on_focus S b (on_focus S a t) in
        (fire S is_valid id u).order
        ≡ (if u.pending == id && is_valid b then promote b t.order else t.order)
  debounce_last t a b id v l room =
      let va = on_focus-IsValid S v a (omega arith) in
      let (l', o, _) = on_focus_open t a l in
      let (_, o', p) = on_focus_open (on_focus S a t) b l' in
      ground (
        arith,
        order-fire (on_focus S b (on_focus S a t)) id
            (on_focus-IsValid S va b (omega (arith, on_focus-capacity S a t))),
        l',
        o,
        o',
        p,
      )
