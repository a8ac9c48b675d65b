-- ===== src/Selection/Ring.antt =====
-- The selection stays within the list, and with `wrap` it walks a ring.
use native.Mathlib.Nat.{add-mod_right, mod-add-mod, mod-eq_of_lt}
use native.Mathlib.Decide.{dec_lt}
use mru_switcher.Prelude.{
  ℕ, zero, suc, ◌+◌, ◌-◌, ◌%◌, ◌^◌, ◌<◌, ◌≡◌, Bool, true, false, arith, min, ltb, ◌==◌,
  if◌then◌else◌, ◌∙◌, ap,
}
use mru_switcher.Window.{Direction, next, prev, StartOffset, first, second}
use mru_switcher.Selection.{initial_index, advance_index, size_mod}

-- The first selection of a session is within a list that is not empty; it is the second window
-- exactly when that is asked for and there are two.
pub initial_index-lt : (o : StartOffset) (len : ℕ) → 0 < len → initial_index o len < len
unfolding initial_index
initial_index-lt first len h = ground arith
initial_index-lt second len h = ground arith

-- Whatever the index, a step lands within a list that is not empty.
pub advance_index-lt :
    (i : ℕ) (d : Direction) (wrap : Bool) (len : ℕ) → 0 < len → advance_index i d wrap len < len
unfolding advance_index
advance_index-lt i next true len h = grind arith
advance_index-lt i next false len h = grind arith
advance_index-lt i prev true len h = grind arith
advance_index-lt i prev false len h = grind arith

-- Without `wrap`, from an index within a list whose length is a std::size_t, the selection moves by
-- one and stops at both ends.
pub advance_index-stops :
    (i len : ℕ)
    → i < len
    → len < size_mod
    → (advance_index i next false len ≡ min (i + 1) (len - 1))
      × (advance_index i prev false len ≡ i - 1)
unfolding advance_index
advance_index-stops i len h small = (grind arith, grind arith)

-- With it, a step is addition or subtraction of one modulo the length.
module _ (len : ℕ) (small : len < 2 ^ 63) where
  advance-next : (i : ℕ) → i < len → advance_index i next true len ≡ (i + 1) % len
  unfolding advance_index
  advance-next i h = grind arith

  advance-prev : (i : ℕ) → i < len → advance_index i prev true len ≡ (i + len - 1) % len
  unfolding advance_index
  advance-prev i h = grind arith

  next-eq :
      (i : ℕ) → i < len → advance_index i next true len ≡ (if ltb (i + 1) len then i + 1 else 0)
  next-eq i h = grind (arith, advance-next i h)

  prev-eq : (i : ℕ) → i < len → advance_index i prev true len ≡ (if i == 0 then len - 1 else i - 1)
  prev-eq zero h = grind (arith, advance-prev zero h)
  prev-eq (suc i) h =
      advance-prev (suc i) h
      ∙ ap (λ t. t % len) (omega arith)
      ∙ add-mod_right i len
      ∙ ground (arith, mod-eq_of_lt {n = i} {m = len} (omega arith))

  -- With `wrap`, from an index within a list shorter than 2 ^ 63, `next` and `prev` undo one another.
  pub next-prev :
      (i : ℕ)
      → i < len
      → (advance_index (advance_index i next true len) prev true len ≡ i)
        × (advance_index (advance_index i prev true len) next true len ≡ i)
  next-prev i h =
      let a = advance_index-lt i next true len (omega arith) in
      let b = advance_index-lt i prev true len (omega arith) in
      (ground (arith, next-eq i h, prev-eq _ a), ground (arith, prev-eq i h, next-eq _ b))

-- `k` steps in one direction.
abbrev pub advance_times : ℕ → ℕ → Direction → Bool → ℕ → ℕ
advance_times zero i d wrap len = i
advance_times (suc k) i d wrap len = advance_times k (advance_index i d wrap len) d wrap len

-- With `wrap` and a list shorter than 2 ^ 63, `k` steps forward are addition of `k` modulo the length.
pub advance_times-next :
    (len : ℕ) → len < 2 ^ 63 → (k i : ℕ) → i < len → advance_times k i next true len ≡ (i + k) % len
advance_times-next len small zero i h = grind arith
advance_times-next len small (suc k) i h =
    let a = advance_index-lt i next true len (omega arith) in
    advance_times-next len small k (advance_index i next true len) a
    ∙ ap (λ t. (t + k) % len) (advance-next len small i h)
    ∙ mod-add-mod (i + 1) len k
    ∙ ap (λ t. t % len) (omega arith)

-- With `wrap` every window is reached: from any index within a list shorter than 2 ^ 63, to any
-- other, by some number of steps forward below the length.
pub advance_times-reaches :
    (len i j : ℕ)
    → len < 2 ^ 63
    → i < len
    → j < len
    → (k : ℕ) × (k < len) × (advance_times k i next true len ≡ j)
advance_times-reaches len i j small hi hj = elim (dec_lt j i) [
  | yes below ↦ (
    len + j - i,
    omega arith,
    advance_times-next len small (len + j - i) i hi
        ∙ ap (λ t. t % len) (omega arith)
        ∙ add-mod_right j len
        ∙ mod-eq_of_lt hj,
  )
  | no above ↦ (
    j - i,
    omega arith,
    advance_times-next len small (j - i) i hi ∙ ap (λ t. t % len) (omega arith) ∙ mod-eq_of_lt hj,
  )
]
