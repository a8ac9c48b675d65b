-- ===== src/Sidecar/Range.antt =====
-- The second configuration file leaves the configuration in range.
use Prim.Native.String.{String}
use mru_switcher.Prelude.{
  ℕ, ◌≤◌, ◌≡◌, refl, Bool, false, not, ◌||◌, ◌&&◌, [], Option, none, some, arith, if_cases,
  Option-cases, inl, inr, ℤ, pos, negsuc, less,
}
use mru_switcher.Config.{PluginConfig, null_ui, border_ui, external_ui, UiKind, parse_border_style}
use mru_switcher.Config.Laws.{clamp_debounce_ms_lem, clamp_pulse_period_ms_lem}
use mru_switcher.Sidecar.{
  SidecarOverrides, Overlaid, with_value, with_style, with_color, with_lock, with_socket, set_ui,
  size_value, parse_int_strict, parse_bool_strict, apply_overlay,
}

-- The numbers are within their bounds, and one user interface is chosen.
pub record InRange (cfg : PluginConfig) : Type 0 where
  pub debounce : (n : ℕ) × (cfg.debounce_ms ≡ pos n) × (n ≤ 5000)
  pub period : (n : ℕ) × (cfg.pulse_period_ms ≡ pos n) × (200 ≤ n) × (n ≤ 10000)
  pub size : (less cfg.border_size (negsuc 0) ≡ false) × (less (pos 100) cfg.border_size ≡ false)
  pub one_ui :
      (cfg.ui_null ≡ not (cfg.ui_border || cfg.ui_external))
      × ((cfg.ui_border && cfg.ui_external) ≡ false)

with_value-InRange {ℓ} :
    {A : Type ℓ} (key : String) (parse : String → Option A)
    (assign : A → PluginConfig → PluginConfig)
    → ((v : String) (a : A) (cfg : PluginConfig)
        → parse v ≡ some a
        → InRange cfg
        → InRange (assign a cfg))
    → (o : Option String) (out : Overlaid) → InRange out.0
    → InRange (with_value key parse assign o out).0
unfolding with_value
with_value-InRange key parse assign f none out u = u
with_value-InRange key parse assign f (some v) out u = elim (Option-cases (parse v)) [
  | inl e ↦ rw (e, with_value) u
  | inr (a, e) ↦ rw (e, with_value) (f v a out.0 e u)
]

set_ui-InRange : (k : UiKind) (cfg : PluginConfig) → InRange cfg → InRange (set_ui k cfg)
set_ui-InRange null_ui cfg u = record {
  debounce = u.debounce;
  period = u.period;
  size = u.size;
  one_ui = (refl, refl);
}
set_ui-InRange border_ui cfg u = record {
  debounce = u.debounce;
  period = u.period;
  size = u.size;
  one_ui = (refl, refl);
}
set_ui-InRange external_ui cfg u = record {
  debounce = u.debounce;
  period = u.period;
  size = u.size;
  one_ui = (refl, refl);
}

-- A change of a key that has no range.
same_range :
    (c d : PluginConfig)
    → InRange c
    → d.debounce_ms ≡ c.debounce_ms
    → d.pulse_period_ms ≡ c.pulse_period_ms
    → d.border_size ≡ c.border_size
    → d.ui_null ≡ c.ui_null
    → d.ui_border ≡ c.ui_border
    → d.ui_external ≡ c.ui_external
    → InRange d
same_range c d u e1 e2 e3 e4 e5 e6 = record {
  debounce = rw e1 u.debounce;
  period = rw e2 u.period;
  size = rw e3 u.size;
  one_ui = rw (e4, e5, e6) u.one_ui;
}

with_style-InRange :
    (o : Option String) (out : Overlaid) → InRange out.0 → InRange (with_style o out).0
unfolding with_style
with_style-InRange none out u = u
with_style-InRange (some v) (cfg, ws) u =
    let w =
      same_range cfg (record cfg { border_style = (parse_border_style v).style }) u refl refl refl
        refl refl refl in
    if_cases (λ (r : Overlaid). InRange r.0) (parse_border_style v).should_warn (λ _. w) (λ _. w)

with_color-InRange :
    (o : Option String) (out : Overlaid) → InRange out.0 → InRange (with_color o out).0
unfolding with_color
with_color-InRange none out u = u
with_color-InRange (some v) (cfg, ws) u = same_range cfg _ u refl refl refl refl refl refl

with_socket-InRange :
    (o : Option String) (out : Overlaid) → InRange out.0 → InRange (with_socket o out).0
unfolding with_socket
with_socket-InRange none out u = u
with_socket-InRange (some v) (cfg, ws) u = same_range cfg _ u refl refl refl refl refl refl

with_lock-InRange :
    (o : Option String) (out : Overlaid) → InRange out.0 → InRange (with_lock o out).0
unfolding with_lock
with_lock-InRange none out u = u
with_lock-InRange (some v) (cfg, ws) u = elim (Option-cases (parse_bool_strict v)) [
  | inl e ↦ rw (e, with_lock) u
  | inr (b, e) ↦
      let w =
        same_range cfg (record cfg { lock_history_on_session = b }) u refl refl refl refl refl
          refl in
      rw (e, with_lock) (if_cases (λ (r : Overlaid). InRange r.0) b (λ _. w) (λ _. w))
]

size_value_lem :
    (v : String) (n : ℤ)
    → size_value v ≡ some n
    → (less n (negsuc 0) ≡ false) × (less (pos 100) n ≡ false)
unfolding size_value
size_value_lem v n e = elim (Option-cases (parse_int_strict v)) [
  | inl f ↦ ground arith
  | inr (m, f) ↦ ground arith
]

-- Whatever the file holds, a configuration that is in range stays so: the debounce and the period of
-- the pulse are within their bounds, the size of the border is between -1 and 100, and exactly one
-- user interface is chosen.
pub apply_overlay-InRange :
    (finite_double : String → Bool) (o : SidecarOverrides) (cfg : PluginConfig)
    → InRange cfg
    → InRange (apply_overlay finite_double o cfg).0
unfolding apply_overlay
apply_overlay-InRange finite_double o cfg u = with_socket-InRange o.external_socket _ (
    with_value-InRange _ _ _ (λ v a c e w. same_range c _ w refl refl refl refl refl refl)
      o.restore_focus_on_cancel _
      (with_lock-InRange o.lock_history_on_session _ (
        with_value-InRange _ _ _ (λ v a c e w. w) o.dim_alpha _
          (with_value-InRange _ _ _
            (λ v n c e w. record {
              debounce = w.debounce;
              period = clamp_pulse_period_ms_lem n;
              size = w.size;
              one_ui = w.one_ui;
            })
            o.pulse_period_ms _
            (with_value-InRange _ _ _ (λ v a c e w. same_range c _ w refl refl refl refl refl refl)
              o.selection_follow_workspace _
              (with_value-InRange _ _ _
                (λ v n c e w. record {
                  debounce = w.debounce;
                  period = w.period;
                  size = size_value_lem v n e;
                  one_ui = w.one_ui;
                })
                o.border_size _
                (with_color-InRange o.border_color _ (
                  with_style-InRange o.border_style _ (
                    with_value-InRange _ _ _ (λ v k c e w. set_ui-InRange k c w) o.ui _
                      (with_value-InRange _ _ _
                        (λ v a c e w. same_range c _ w refl refl refl refl refl refl) o.wrap _
                        (with_value-InRange _ _ _
                          (λ v a c e w. same_range c _ w refl refl refl refl refl refl)
                          o.start_offset _
                          (with_value-InRange _ _ _
                            (λ v a c e w. same_range c _ w refl refl refl refl refl refl)
                            o.default_scope _
                            (with_value-InRange _ _ _
                              (λ v n c e w.
                                let (k, f, g, _) = clamp_debounce_ms_lem n in
                                record {
                                  debounce = (k, f, g);
                                  period = w.period;
                                  size = w.size;
                                  one_ui = w.one_ui;
                                })
                              o.debounce_ms (cfg, []) u)))))))))))))
