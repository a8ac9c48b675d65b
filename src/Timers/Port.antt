-- ===== src/Timers/Port.antt =====
-- The event loop's timers are a scheduler for the history.
use mru_switcher.Prelude.{
  ℕ, ◌+◌, ◌-◌, ◌^◌, ◌<◌, ◌≡◌, ◌≢◌, refl, List, [], ◌∷◌, none, some, arith, ◌==◌, if◌then◌else◌,
  lookup, lookup-set, Option-cases, inl, inr,
}
use mru_switcher.Window.{WindowRef}
use mru_switcher.Scheduler.{SchedulerPort}
use mru_switcher.Timers.{HyprlandSchedulerPort, erase_key, schedule_after, cancel, expire}

-- The ids in use are below the next one.
pub record IsValid (s : HyprlandSchedulerPort) : Type 0 where
  pub below : (i : ℕ) → lookup i s.timers ≢ none → i < s.next_id
  pub positive : 0 < s.next_id

lookup-erase_key :
    (k : ℕ) (m : List (ℕ × WindowRef)) (j : ℕ)
    → lookup j (erase_key k m) ≡ (if k == j then none else lookup j m)
unfolding erase_key
lookup-erase_key k [] j = ground arith
lookup-erase_key k ((i, r) ∷ m) j = ground (arith, lookup-erase_key k m j)

pub lookup-cancel :
    (k : ℕ) (s : HyprlandSchedulerPort) (j : ℕ)
    → lookup j (cancel k s).timers ≡ (if k == j then none else lookup j s.timers)
unfolding cancel
lookup-cancel k s j = elim (Option-cases (lookup k s.timers)) [
  | inl e ↦ ground arith
  | inr (r, e) ↦ ground (arith, lookup-erase_key k s.timers j)
]

pub cancel-next_id : (k : ℕ) (s : HyprlandSchedulerPort) → (cancel k s).next_id ≡ s.next_id
unfolding cancel
cancel-next_id k s = ground arith

pub schedule-IsValid :
    (d : ℕ) (r : WindowRef) (s : HyprlandSchedulerPort)
    → IsValid s
    → 0 < 2 ^ 64 - 1 - s.next_id
    → IsValid (schedule_after d r s).0
unfolding schedule_after
schedule-IsValid d r s v room = record {
  below = λ i h. ground (arith, lookup-set s.next_id r s.timers i, v.below i);
  positive = ground (arith, v.positive);
}

pub cancel-IsValid : (k : ℕ) (s : HyprlandSchedulerPort) → IsValid s → IsValid (cancel k s)
cancel-IsValid k s v = record {
  below = λ i h. ground (arith, lookup-cancel k s i, cancel-next_id k s, v.below i);
  positive = rw (cancel-next_id k s) v.positive;
}

pub expire-IsValid : (k : ℕ) (s : HyprlandSchedulerPort) → IsValid s → IsValid (expire k s)
unfolding expire
expire-IsValid k s v = record {
  below = λ i h. ground (arith, lookup-erase_key k s.timers i, v.below i);
  positive = v.positive;
}

pub expire-timer :
    (k : ℕ) (s : HyprlandSchedulerPort) (j : ℕ)
    → lookup j (expire k s).timers ≡ (if k == j then none else lookup j s.timers)
unfolding expire
expire-timer k s j = lookup-erase_key k s.timers j

pub schedule-id :
    (d : ℕ) (r : WindowRef) (s : HyprlandSchedulerPort) → IsValid s → (schedule_after d r s).1 ≢ 0
unfolding schedule_after
schedule-id d r s v e = absurd (omega (arith, v.positive))

pub schedule-timer :
    (d : ℕ) (r : WindowRef) (s : HyprlandSchedulerPort) (j : ℕ)
    → lookup j (schedule_after d r s).0.timers
      ≡ (if (schedule_after d r s).1 == j then some r else lookup j s.timers)
unfolding schedule_after
schedule-timer d r s j = lookup-set s.next_id r s.timers j

pub schedule-room :
    (d : ℕ) (r : WindowRef) (s : HyprlandSchedulerPort)
    → 0 < 2 ^ 64 - 1 - s.next_id
    → 2 ^ 64 - 1 - s.next_id ≡ 2 ^ 64 - 1 - (schedule_after d r s).0.next_id + 1
unfolding schedule_after
schedule-room d r s room = omega arith

pub expire-next_id : (k : ℕ) (s : HyprlandSchedulerPort) → (expire k s).next_id ≡ s.next_id
unfolding expire
expire-next_id k s = refl

-- The scheduler of a plugin that has just been loaded.
abbrev pub new_scheduler : HyprlandSchedulerPort
new_scheduler = record { timers = []; next_id = 1 }

pub new_scheduler-IsValid : IsValid new_scheduler
new_scheduler-IsValid = record { below = λ i h. absurd (h refl); positive = omega arith }

abbrev pub hypr_scheduler : SchedulerPort
hypr_scheduler = record {
  State = HyprlandSchedulerPort;
  job = λ s i. lookup i s.timers;
  schedule_after = schedule_after;
  cancel = cancel;
  expire = expire;
  IsValid = IsValid;
  capacity = λ s. 2 ^ 64 - 1 - s.next_id;
  schedule-id = λ d r s v room. schedule-id d r s v;
  schedule-job = λ d r s j v room. schedule-timer d r s j;
  schedule-capacity = schedule-room;
  cancel-capacity = λ i s. ground (arith, cancel-next_id i s);
  expire-capacity = λ i s. ground (arith, expire-next_id i s);
  schedule-IsValid = schedule-IsValid;
  cancel-job = λ i s j. lookup-cancel i s j;
  cancel-IsValid = cancel-IsValid;
  expire-job = λ i s j v. expire-timer i s j;
  expire-IsValid = expire-IsValid;
}
