-- ===== src/HostConfig/Calls.antt =====
-- Calls that may throw: a state that is passed on, and a result or an exception. What was written
-- before an exception stays written.
use Prim.Native.String.{String}
use mru_switcher.Prelude.{◌≡◌, refl, ◌⊎◌, inl, inr}

-- `std::exception` with its text, or anything else that is thrown.
pub data Thrown : Type 0 where
  exception : String → Thrown
  unknown : Thrown

pub data Outcome (A : Type 0) : Type 0 where
  returned : A → Outcome A
  threw : Thrown → Outcome A

abbrev pub Call : Type 0 → Type 0 → Type 0
Call σ A = σ → Outcome A × σ

module _ {σ : Type 0} where
  abbrev pub pure : {A : Type 0} → A → Call σ A
  pure a s = (returned a, s)

  abbrev pub throw : {A : Type 0} → String → Call σ A
  throw what s = (threw (exception what), s)

  abbrev pub modify : (σ → σ) → Call σ Unit
  modify f s = (returned tt, f s)

  abbrev pub continue : {A B : Type 0} → Outcome A × σ → (A → Call σ B) → Outcome B × σ
  continue (returned a, s) f = f a s
  continue (threw e, s) f = (threw e, s)

  infixl 5 ◌>>=◌ ◌>>◌
  abbrev pub ◌>>=◌ : {A B : Type 0} → Call σ A → (A → Call σ B) → Call σ B
  ◌>>=◌ m f s = continue (m s) f

  abbrev pub ◌>>◌ : {A B : Type 0} → Call σ A → Call σ B → Call σ B
  m >> k = m >>= λ _. k

-- A call on a part of the state.
abbrev pub on_part : {σ τ A : Type 0} → (σ → τ) → (τ → σ → σ) → Call τ A → Call σ A
on_part get set m s = ((m (get s)).0, set (m (get s)).1 s)

pub Outcome-cases :
    {A : Type 0} (o : Outcome A) → ((a : A) × (o ≡ returned a)) ⊎ ((e : Thrown) × (o ≡ threw e))
Outcome-cases (returned a) = inl (a, refl)
Outcome-cases (threw e) = inr (e, refl)

-- What every call of a chain keeps, the chain keeps, whether or not it throws.
module _ {σ : Type 0} (P : σ → Type 0) where
  abbrev pub Keeps : {A : Type 0} → Call σ A → Type 0
  Keeps m = (s : σ) → P s → P (m s).1

  pub continue-Keeps :
      {A B : Type 0} (o : Outcome A) (s : σ) (f : A → Call σ B)
      → P s
      → ((a : A) → Keeps (f a))
      → P (continue (o, s) f).1
  continue-Keeps (returned a) s f p k = k a s p
  continue-Keeps (threw e) s f p k = p

  pub bind-Keeps :
      {A B : Type 0} (m : Call σ A) (f : A → Call σ B)
      → Keeps m
      → ((a : A) → Keeps (f a))
      → Keeps (m >>= f)
  bind-Keeps m f k l s p = continue-Keeps (m s).0 (m s).1 f (k s p) l

-- What holds of the state if the call returns.
module _ {σ : Type 0} where
  abbrev pub Post : {A : Type 0} → (σ → Type 0) → Outcome A × σ → Type 0
  Post Q (returned a, s) = Q s
  Post Q (threw e, s) = Unit

  pub continue-Post :
      {A B : Type 0} (P Q : σ → Type 0) (o : Outcome A) (s : σ) (f : A → Call σ B)
      → Post P (o, s)
      → ((a : A) (t : σ) → P t → Post Q (f a t))
      → Post Q (continue (o, s) f)
  continue-Post P Q (returned a) s f p k = k a s p
  continue-Post P Q (threw e) s f p k = tt

  pub bind-Post :
      {A B : Type 0} (P Q : σ → Type 0) (m : Call σ A) (f : A → Call σ B) (s : σ)
      → Post P (m s)
      → ((a : A) (t : σ) → P t → Post Q (f a t))
      → Post Q ((m >>= f) s)
  bind-Post P Q m f s p k = continue-Post P Q (m s).0 (m s).1 f p k

  pub Post-map :
      {A : Type 0} (P Q : σ → Type 0) (r : Outcome A × σ)
      → ((t : σ) → P t → Q t)
      → Post P r
      → Post Q r
  Post-map P Q (returned a, s) f p = f s p
  Post-map P Q (threw e, s) f p = tt

  pub Post-any : {A : Type 0} (P : σ → Type 0) (o : Outcome A) (s : σ) → P s → Post P (o, s)
  Post-any P (returned a) s p = p
  Post-any P (threw e) s p = tt
