-- ===== src/Clock.antt =====
-- include/mru/domain/fake_clock.hpp and src/domain/fake_clock.cpp: the scheduler over a simulated
-- clock, for any type of callbacks. Time is a std::uint32_t and job ids are std::uint64_t; both wrap.
pub mod Port
use mru_switcher.Prelude.{
  ℕ, ◌+◌, ◌%◌, ◌^◌, Bool, true, false, not, ◌&&◌, ◌||◌, List, [], ◌∷◌, ◌++◌, Option, none, some,
  ◌==◌, ltb, leb, if◌then◌else◌, filter,
}
use mru_switcher.Scheduler.{invalid_job_id}

pub record Job {ℓ} (C : Type ℓ) : Type ℓ where
  pub id : ℕ
  pub run_at : ℕ
  pub cb : C

pub record FakeClock {ℓ} (C : Type ℓ) : Type ℓ where
  pub now : ℕ
  pub next_job : ℕ
  pub jobs : List (Job C)

module _ {ℓ} {C : Type ℓ} where
  abbrev pub fresh_clock : FakeClock C
  fresh_clock = record { now = 0; next_job = invalid_job_id + 1; jobs = [] }

  unfoldable pub schedule_after : ℕ → C → FakeClock C → FakeClock C × ℕ
  schedule_after delay_ms cb c = (
    record c {
      next_job = (c.next_job + 1) % 2 ^ 64;
      jobs =
          c.jobs ++ record { id = c.next_job; run_at = (c.now + delay_ms) % 2 ^ 32; cb = cb } ∷ [];
    },
    c.next_job,
  )

  unfoldable pub cancel : ℕ → FakeClock C → FakeClock C
  cancel id c = record c { jobs = filter (λ j. not (j.id == id)) c.jobs }

  -- `std::find_if` by id, and the `erase` of what it found.
  unfoldable pub find_job : ℕ → List (Job C) → Option C
  find_job id [] = none
  find_job id (j ∷ js) = if j.id == id then some j.cb else find_job id js

  unfoldable pub erase_job : ℕ → List (Job C) → List (Job C)
  erase_job id [] = []
  erase_job id (j ∷ js) = if j.id == id then js else j ∷ erase_job id js

  -- The pairs `(run_at, id)` of the jobs whose time has come.
  unfoldable pub due_jobs : ℕ → List (Job C) → List (ℕ × ℕ)
  due_jobs now [] = []
  due_jobs now (j ∷ js) =
      if leb j.run_at now then (j.run_at, j.id) ∷ due_jobs now js else due_jobs now js

-- `std::pair`'s order, and `std::sort` by it.
abbrev pub pair_leb : ℕ × ℕ → ℕ × ℕ → Bool
pair_leb a b = ltb a.0 b.0 || (a.0 == b.0 && leb a.1 b.1)

unfoldable pub insert_pair : ℕ × ℕ → List (ℕ × ℕ) → List (ℕ × ℕ)
insert_pair a [] = a ∷ []
insert_pair a (b ∷ bs) = if pair_leb a b then a ∷ b ∷ bs else b ∷ insert_pair a bs

unfoldable pub sort_pairs : List (ℕ × ℕ) → List (ℕ × ℕ)
unfolding insert_pair
sort_pairs [] = []
sort_pairs (a ∷ rest) = insert_pair a (sort_pairs rest)

-- `advance` over a world that holds the clock: `clock_of` reads it, `with_clock` writes it, and
-- `run` is the call of a callback, which may change the world and the clock in it.
module _ {ℓ κ} {C : Type ℓ} {W : Type κ} (clock_of : W → FakeClock C)
    (with_clock : FakeClock C → W → W) (run : C → W → W) where
  -- One turn of the loop: a job that was cancelled meanwhile is passed over.
  unfoldable pub run_due : ℕ → W → W
  run_due id w = elim (find_job id (clock_of w).jobs) [
    | none ↦ w
    | some cb ↦
        run cb (with_clock (record (clock_of w) { jobs = erase_job id (clock_of w).jobs }) w)
  ]

  unfoldable pub sweep : List (ℕ × ℕ) → W → W
  unfolding run_due
  sweep [] w = w
  sweep ((at, id) ∷ due) w = sweep due (run_due id w)

  unfoldable pub advance : ℕ → W → W
  unfolding sweep
  advance ms w =
      let now' = ((clock_of w).now + ms) % 2 ^ 32 in
      let w' = with_clock (record (clock_of w) { now = now' }) w in
      sweep (sort_pairs (due_jobs now' (clock_of w').jobs)) w'
