-- ===== src/Clock/Port.antt =====
-- The clock is a scheduler for the history: the laws of the port.
use mru_switcher.Prelude.{
  ℕ, ◌+◌, ◌%◌, ◌<◌, ◌-◌, ◌^◌, ◌≡◌, ◌≢◌, refl, not, List, [], ◌∷◌, ◌++◌, none, some, arith, ◌==◌,
  if◌then◌else◌, filter, Option-cases, inl, inr,
}
use mru_switcher.Window.{WindowRef}
use mru_switcher.Scheduler.{SchedulerPort}
use mru_switcher.Clock.{Job, FakeClock, schedule_after, cancel, find_job, erase_job}

module _ {ℓ} {C : Type ℓ} where
  abbrev pub Unique : List (Job C) → Type ℓ
  Unique [] = Unit
  Unique (j ∷ js) = (find_job j.id js ≡ none) × Unique js

  -- No id is in use twice, 0 and the next id are in use by none.
  pub record IsValid (c : FakeClock C) : Type ℓ where
    pub unique : Unique c.jobs
    pub below : (i : ℕ) → find_job i c.jobs ≢ none → i < c.next_job
    pub positive : 0 < c.next_job

  find_job-append :
      (i : ℕ) (js : List (Job C)) (j : Job C)
      → find_job i (js ++ j ∷ [])
        ≡ elim (find_job i js) [ none ↦ if j.id == i then some j.cb else none | some cb ↦ some cb ]
  unfolding find_job
  find_job-append i [] j = refl
  find_job-append i (x ∷ js) j = ground (arith, find_job-append i js j)

  find_job-filter :
      (i k : ℕ) (js : List (Job C))
      → find_job k (filter (λ j. not (j.id == i)) js) ≡ (if i == k then none else find_job k js)
  unfolding find_job
  find_job-filter i k [] = ground arith
  find_job-filter i k (j ∷ js) = ground (arith, find_job-filter i k js)

  pub find_job-erase :
      (i k : ℕ) (js : List (Job C))
      → Unique js
      → find_job k (erase_job i js) ≡ (if i == k then none else find_job k js)
  unfolding find_job erase_job
  find_job-erase i k [] u = ground arith
  find_job-erase i k (j ∷ js) u = ground (arith, find_job-erase i k js u.1)

  Unique-append :
      (js : List (Job C)) (j : Job C) → Unique js → find_job j.id js ≡ none → Unique (js ++ j ∷ [])
  unfolding find_job
  Unique-append [] j u h = (refl, tt)
  Unique-append (x ∷ js) j u h = ground (arith, find_job-append x.id js j, Unique-append js j u.1)

  Unique-filter :
      (i : ℕ) (js : List (Job C)) → Unique js → Unique (filter (λ j. not (j.id == i)) js)
  Unique-filter i [] u = tt
  Unique-filter i (j ∷ js) u = ground (arith, find_job-filter i j.id js, Unique-filter i js u.1)

  pub Unique-erase : (i : ℕ) (js : List (Job C)) → Unique js → Unique (erase_job i js)
  unfolding erase_job
  Unique-erase i [] u = tt
  Unique-erase i (j ∷ js) u = ground (arith, find_job-erase i j.id js u.1, Unique-erase i js u.1)

  not_next : (c : FakeClock C) → IsValid c → find_job c.next_job c.jobs ≡ none
  not_next c v = elim (Option-cases (find_job c.next_job c.jobs)) [
    | inl e ↦ e
    | inr (cb, e) ↦ absurd (omega (arith, v.below c.next_job (λ n. cc)))
  ]

  abbrev new_job : ℕ → C → FakeClock C → Job C
  new_job d cb c = record { id = c.next_job; run_at = (c.now + d) % 2 ^ 32; cb = cb }

  module _ (d : ℕ) (cb : C) (c : FakeClock C) (v : IsValid c) where
    pub job-schedule :
        (j : ℕ)
        → find_job j (schedule_after d cb c).0.jobs
          ≡ (if (schedule_after d cb c).1 == j then some cb else find_job j c.jobs)
    unfolding schedule_after
    job-schedule j = ground (arith, find_job-append j c.jobs (new_job d cb c), not_next c v)

    pub schedule-id : (schedule_after d cb c).1 ≢ 0
    unfolding schedule_after
    schedule-id e = absurd (omega (arith, v.positive))

    pub schedule-IsValid : 0 < 2 ^ 64 - 1 - c.next_job → IsValid (schedule_after d cb c).0
    unfolding schedule_after
    schedule-IsValid room = record {
      unique = Unique-append c.jobs (new_job d cb c) v.unique (not_next c v);
      below = λ i h. ground (arith, find_job-append i c.jobs (new_job d cb c), v.below i);
      positive = ground (arith, v.positive);
    }

  pub schedule-capacity :
      (d : ℕ) (cb : C) (c : FakeClock C)
      → 0 < 2 ^ 64 - 1 - c.next_job
      → 2 ^ 64 - 1 - c.next_job ≡ 2 ^ 64 - 1 - (schedule_after d cb c).0.next_job + 1
  unfolding schedule_after
  schedule-capacity d cb c room = omega arith

  pub cancel-capacity :
      (i : ℕ) (c : FakeClock C) → 2 ^ 64 - 1 - (cancel i c).next_job ≡ 2 ^ 64 - 1 - c.next_job
  unfolding cancel
  cancel-capacity i c = refl

  pub cancel-job :
      (i : ℕ) (c : FakeClock C) (j : ℕ)
      → find_job j (cancel i c).jobs ≡ (if i == j then none else find_job j c.jobs)
  unfolding cancel
  cancel-job i c j = find_job-filter i j c.jobs

  pub cancel-IsValid : (i : ℕ) (c : FakeClock C) → IsValid c → IsValid (cancel i c)
  unfolding cancel
  cancel-IsValid i c v = record {
    unique = Unique-filter i c.jobs v.unique;
    below = λ k h. ground (arith, find_job-filter i k c.jobs, v.below k);
    positive = v.positive;
  }

  abbrev expire : ℕ → FakeClock C → FakeClock C
  expire i c = record c { jobs = erase_job i c.jobs }

  pub expire-IsValid : (i : ℕ) (c : FakeClock C) → IsValid c → IsValid (expire i c)
  expire-IsValid i c v = record {
    unique = Unique-erase i c.jobs v.unique;
    below = λ k h. ground (arith, find_job-erase i k c.jobs v.unique, v.below k);
    positive = v.positive;
  }

abbrev pub clock_port : SchedulerPort
clock_port = record {
  State = FakeClock WindowRef;
  job = λ c i. find_job i c.jobs;
  schedule_after = schedule_after;
  cancel = cancel;
  expire = expire;
  IsValid = IsValid;
  capacity = λ c. 2 ^ 64 - 1 - c.next_job;
  schedule-id = λ d r c v room. schedule-id d r c v;
  schedule-job = λ d r c j v room. job-schedule d r c v j;
  schedule-capacity = schedule-capacity;
  cancel-capacity = λ i c. cancel-capacity i c;
  expire-capacity = λ i c. refl;
  schedule-IsValid = λ d r c v room. schedule-IsValid d r c v room;
  cancel-job = λ i c j. cancel-job i c j;
  cancel-IsValid = cancel-IsValid;
  expire-job = λ i c j v. find_job-erase i j c.jobs v.unique;
  expire-IsValid = expire-IsValid;
}
