-- ===== src/HostConfig/Range.antt =====
-- What a read of registered values gives.
use Prim.Native.String.{String}
use mru_switcher.Prelude.{
  ◌≡◌, refl, inl, inr, ap, sym, ◌∙◌, true, false, none, some, pos, negsuc, ℤ, less, arith, not,
  ◌||◌, ◌&&◌,
}
use mru_switcher.Config.{PluginConfig, UiKind, null_ui, border_ui, external_ui}
use mru_switcher.Config.Laws.{clamp_debounce_ms_lem, clamp_pulse_period_ms_lem}
use mru_switcher.Sidecar.Range.{InRange}
use mru_switcher.HostConfig.{
  ValueType, int, string, bool, float, type_eq, Carrier, Host, Slot, Values, Notices, read,
  read_config, to_int32, is_null, is_border, is_external,
}
use mru_switcher.HostConfig.Calls.{Outcome, returned}
use mru_switcher.HostConfig.Register.{registrations, register_all}
use mru_switcher.HostConfig.Register.Laws.{fill, register_all_outcome}

not_some : {x : String} → ¬ (some x ≡ none)
not_some e = cc

type_eq_refl : (t : ValueType) → type_eq t t ≡ true
type_eq_refl int = refl
type_eq_refl string = refl
type_eq_refl bool = refl
type_eq_refl float = refl

-- A size between -1 and 100 is not changed by the conversion.
to_int32_small : (n : ℤ) → less n (negsuc 0) ≡ false → less (pos 100) n ≡ false → to_int32 n ≡ n
unfolding to_int32
to_int32_small (pos n) l u = ground arith
to_int32_small (negsuc n) l u = ground arith

one_of_three :
    (k : UiKind)
    → (is_null k ≡ not (is_border k || is_external k)) × ((is_border k && is_external k) ≡ false)
one_of_three null_ui = (refl, refl)
one_of_three border_ui = (refl, refl)
one_of_three external_ui = (refl, refl)

module _ (H : Host) where
  -- A slot that holds a value of its type.
  abbrev pub IsReadable : {t : ValueType} → Slot H t → Type 0
  IsReadable {t = t} slot = (v : H.Value t) × (slot ≡ some v) × (H.underlying v ≡ t)

  read-returned :
      {σ : Type 0} (t : ValueType) (h : H.State) (v : H.Value t) (s : σ)
      → H.underlying v ≡ t
      → read H t h (some v) s ≡ (returned (H.value v h), s)
  unfolding read
  read-returned t h v s e = rw (e, type_eq_refl) refl

  -- A value that the host makes is stored with the type that it was made with.
  abbrev pub IsTyped : Type 0
  IsTyped =
      (t : ValueType) (key description : String) (default : Carrier H.Float t)
      → H.underlying (H.make_config_value t key description default) ≡ t

  -- What all but the size of the border promise, and what it adds.
  abbrev pub Settled : H.State → Values H → Outcome PluginConfig → Type 0
  Settled h values o =
      (cfg : PluginConfig) × (v : H.Value int) × (o ≡ returned cfg)
      × (values.border_size ≡ some v)
      × (less (H.value v h) (negsuc 0) ≡ false → less (pos 100) (H.value v h) ≡ false → InRange cfg)

  pub read_config-fill :
      IsTyped
      → (h : H.State) (out : Values H) (n : Notices)
      → Settled h
          (fill H (registrations H) out)
          (read_config H h (fill H (registrations H) out) n).0
  unfolding read_config read
  read_config-fill typed h out n = simp typed (
    _,
    _,
    refl,
    refl,
    λ low high. record {
      debounce = let (k, e, l, _) = clamp_debounce_ms_lem _ in (k, e, l);
      period = clamp_pulse_period_ms_lem _;
      size = rw (to_int32_small _ low high) (low, high);
      one_ui = one_of_three _;
    },
  )

  -- Once the host has taken the values, and whatever it holds later, a read throws nothing and gives a
  -- configuration; it is in range when the size of the border that the host holds is between -1 and
  -- 100.
  pub register_all-read_config :
      IsTyped
      → (h k later : H.State) (out values : Values H) (n : Notices)
      → register_all H h out ≡ ((k, values), none)
      → (cfg : PluginConfig) × (v : H.Value int) × ((read_config H later values n).0 ≡ returned cfg)
        × (values.border_size ≡ some v)
        × (less (H.value v later) (negsuc 0) ≡ false
            → less (pos 100) (H.value v later) ≡ false
            → InRange cfg)
  register_all-read_config typed h k later out values n e = elim (register_all_outcome H h out) [
    | inl (m, a, f) ↦
        let same : values ≡ fill H (registrations H) out = ap (λ r. r.0.1) (sym e ∙ f) in
        rw same (read_config-fill typed later out n)
    | inr (before, r, after, m, m', s, a, g, f) ↦ absurd (not_some (ap (λ r. r.1) (sym f ∙ e)))
  ]
