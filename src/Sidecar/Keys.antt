-- ===== src/Sidecar/Keys.antt =====
-- What the assignments of src/plugin/sidecar_config.cpp come to, key by key.
use Prim.Native.String.{String, ◌++◌ as str_append}
use text.Mathlib.Text.{◌==◌ as str_eq}
use text.Mathlib.TextEquality.{eq_iff}
use mathlib.Core.List.{append_assoc, append-nil}
use mru_switcher.Prelude.{
  ◌≡◌, refl, sym, ◌∙◌, ap, subst, Bool, false, ◌||◌, List, [], ◌∷◌, ◌++◌, Option, some,
  if◌then◌else◌, All, arith, Bool-cases, inl, inr,
}
use mru_switcher.Sidecar.{SidecarOverrides}
use mru_switcher.Sidecar.Parse.{assign_raw, assign, SidecarParse}

-- The keys that a file may hold.
abbrev pub known_keys : List String
known_keys =
    "debounce_ms" ∷ "default_scope" ∷ "start_offset" ∷ "wrap" ∷ "ui" ∷ "border_style"
    ∷ "border_color" ∷ "border_size" ∷ "selection_follow_workspace" ∷ "pulse_period_ms"
    ∷ "dim_alpha" ∷ "lock_history_on_session" ∷ "restore_focus_on_cancel" ∷ "external_socket" ∷ []

abbrev is_among : List String → String → Bool
is_among [] key = false
is_among (n ∷ ns) key = str_eq key n || is_among ns key

-- What the last entry of a key gives it, or what it had before, where there is none.
abbrev pub last_value : String → Option String → List (String × String) → Option String
last_value key old [] = old
last_value key old ((k, v) ∷ entries) =
    last_value key (if str_eq k key then some v else old) entries

-- Every key with its last value.
abbrev pub last_values : SidecarOverrides → List (String × String) → SidecarOverrides
last_values o entries = record {
  debounce_ms = last_value "debounce_ms" o.debounce_ms entries;
  default_scope = last_value "default_scope" o.default_scope entries;
  start_offset = last_value "start_offset" o.start_offset entries;
  wrap = last_value "wrap" o.wrap entries;
  ui = last_value "ui" o.ui entries;
  border_style = last_value "border_style" o.border_style entries;
  border_color = last_value "border_color" o.border_color entries;
  border_size = last_value "border_size" o.border_size entries;
  selection_follow_workspace =
      last_value "selection_follow_workspace" o.selection_follow_workspace entries;
  pulse_period_ms = last_value "pulse_period_ms" o.pulse_period_ms entries;
  dim_alpha = last_value "dim_alpha" o.dim_alpha entries;
  lock_history_on_session = last_value "lock_history_on_session" o.lock_history_on_session entries;
  restore_focus_on_cancel = last_value "restore_focus_on_cancel" o.restore_focus_on_cancel entries;
  external_socket = last_value "external_socket" o.external_socket entries;
}

-- What is said of an entry with this key.
abbrev pub complaint : String → List String
complaint String.[] = "mru-switcher sidecar: ignoring line with empty key" ∷ []
complaint (String.◌∷◌ c s) =
    if is_among known_keys (String.◌∷◌ c s)
    then []
    else str_append "mru-switcher sidecar: ignoring unknown key '" (str_append (String.◌∷◌ c s) "'")
      ∷ []

-- What is said of the entries, one after another.
abbrev pub complaints : List (String × String) → List String
complaints [] = []
complaints ((k, v) ∷ entries) = complaint k ++ complaints entries

-- One assignment after another.
abbrev pub assign_all : List (String × String) → SidecarParse → SidecarParse
assign_all [] p = p
assign_all ((k, v) ∷ entries) p = assign_all entries (assign k v p)

by_key :
    (P : String → Type 0) (names : List String) (k : String)
    → All P names
    → (All (λ n. str_eq k n ≡ false) names → P k)
    → P k
by_key P [] k h f = f tt
by_key P (n ∷ ns) k h f = elim (Bool-cases (str_eq k n)) [
  | inl e ↦ subst P (sym ((eq_iff k n).0 e)) h.0
  | inr e ↦ by_key P ns k h.1 (λ g. f (e, g))
]

is_among-false :
    (names : List String) (k : String)
    → All (λ n. str_eq k n ≡ false) names
    → is_among names k ≡ false
is_among-false [] k h = refl
is_among-false (n ∷ ns) k h = ground (arith, is_among-false ns k h.1)

abbrev Assigned : String → SidecarParse → String → Type 0
Assigned v p k =
    ((assign k v p).overrides ≡ last_values p.overrides ((k, v) ∷ []))
    × ((assign k v p).warnings ≡ p.warnings ++ complaint k)

Assigned-known : (v : String) (p : SidecarParse) → All (Assigned v p) known_keys
unfolding assign assign_raw
Assigned-known v p =
    let quiet : p.warnings ≡ p.warnings ++ [] = sym (append-nil p.warnings) in
    (
      (refl, quiet),
      (
        (refl, quiet),
        (
          (refl, quiet),
          (
            (refl, quiet),
            (
              (refl, quiet),
              (
                (refl, quiet),
                (
                  (refl, quiet),
                  (
                    (refl, quiet),
                    (
                      (refl, quiet),
                      (
                        (refl, quiet),
                        ((refl, quiet), ((refl, quiet), ((refl, quiet), ((refl, quiet), tt)))),
                      ),
                    ),
                  ),
                ),
              ),
            ),
          ),
        ),
      ),
    )

Assigned-unknown :
    (v : String) (p : SidecarParse) (k : String)
    → All (λ n. str_eq k n ≡ false) known_keys
    → Assigned v p k
unfolding assign assign_raw
Assigned-unknown v p String.[] h = (refl, refl)
Assigned-unknown v p (String.◌∷◌ c s) h =
    rw
      (
        h.0, h.1.0, h.1.1.0, h.1.1.1.0, h.1.1.1.1.0, h.1.1.1.1.1.0, h.1.1.1.1.1.1.0,
        h.1.1.1.1.1.1.1.0, h.1.1.1.1.1.1.1.1.0, h.1.1.1.1.1.1.1.1.1.0, h.1.1.1.1.1.1.1.1.1.1.0,
        h.1.1.1.1.1.1.1.1.1.1.1.0, h.1.1.1.1.1.1.1.1.1.1.1.1.0, h.1.1.1.1.1.1.1.1.1.1.1.1.1.0,
        assign,
      )
      (refl, refl)

assign_lem : (k v : String) (p : SidecarParse) → Assigned v p k
assign_lem k v p = by_key (Assigned v p) known_keys k (Assigned-known v p) (Assigned-unknown v p k)

pub assign_all_lem :
    (entries : List (String × String)) (p : SidecarParse)
    → ((assign_all entries p).overrides ≡ last_values p.overrides entries)
      × ((assign_all entries p).warnings ≡ p.warnings ++ complaints entries)
assign_all_lem [] p = (refl, sym (append-nil p.warnings))
assign_all_lem ((k, v) ∷ entries) p =
    let (o, w) = assign_lem k v p in
    let (os, ws) = assign_all_lem entries (assign k v p) in
    (
      os ∙ ap (λ x. last_values x entries) o,
      ws
          ∙ ap (λ l. l ++ complaints entries) w
          ∙ append_assoc p.warnings (complaint k) (complaints entries),
    )
