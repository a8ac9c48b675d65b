-- ===== src/Tests/Plugin.antt =====
-- The theorems on the parts of the plugin at concrete inputs.
use mru_switcher.Prelude.{
  ℕ, ◌≡◌, ◌≢◌, ◌↔◌, refl, true, false, ◌||◌, List, [], ◌∷◌, ◌++◌, Option, none, some, arith, ◌==◌,
  if◌then◌else◌, contains, Distinct, All, nat_eq,
}
use mru_switcher.Window.{WindowRef, window_eq, Scope, Direction}
use mru_switcher.Merge.{merge_mru_order, merge_mru_order_lem, new_ones}
use mru_switcher.Registry.{
  live_refs_newest_first, Windows, WindowIdentityRegistry, Entry, register_window, resolve,
  live_ref, on_window_close,
}
use mru_switcher.Registry.Newest.{IsCounted, register_window-newest}
use mru_switcher.Registry.Laws.{
  IsValid, Older, on_window_close_lem, register_window_lem, register_window-renews,
}
use mru_switcher.Config.{default_plugin_config}
use mru_switcher.DispatchArgs.{tokens_of, read_tokens, parse_cycle_args}
use mru_switcher.DispatchArgs.Grammar.{words, accepted, parse_cycle_args_iff}
use mru_switcher.Sidecar.{SidecarOverrides, apply_overlay}
use mru_switcher.Sidecar.Range.{InRange, apply_overlay-InRange}
use mru_switcher.Source
use mru_switcher.Source.{Desktop}
use mru_switcher.Source.Answer.{candidates_lem}
use mru_switcher.Source.Eligible.{Eligible, MayShow, Picked}
use mru_switcher.Tests.{term, mail, web}

merge_mru_order_lem_example :
    let merged = merge_mru_order (mail ∷ term ∷ []) (web ∷ mail ∷ []) in
    Distinct merged
    × ((a : WindowRef)
        → contains merged a ≡ (contains (mail ∷ term ∷ []) a || contains (web ∷ mail ∷ []) a))
    × (Distinct (mail ∷ term ∷ []) → (rest : List WindowRef) × (merged ≡ mail ∷ term ∷ [] ++ rest))
    × (Distinct (mail ∷ term ∷ [])
        → Distinct (web ∷ mail ∷ [])
        → merged ≡ mail ∷ term ∷ [] ++ new_ones (mail ∷ term ∷ []) (web ∷ mail ∷ []))
merge_mru_order_lem_example = merge_mru_order_lem (mail ∷ term ∷ []) (web ∷ mail ∷ [])

-- Windows are told apart by a number besides their address; the state is the list of those alive.
abbrev screen : Windows
screen = record {
  Window = WindowRef;
  window_eq = window_eq;
  address_of = λ w. w.address;
  State = List WindowRef;
  alive = contains;
}

abbrev no_windows : WindowIdentityRegistry screen
no_windows = record { by_address = []; seq_counter = 0 }

-- The mail window is known as the first generation at its address.
abbrev mail_entry : Entry screen
mail_entry = record { ref = mail; next_generation = 2; seq = 1; closed = false; window = some mail }

abbrev one_window : WindowIdentityRegistry screen
one_window = record { by_address = (20, mail_entry) ∷ []; seq_counter = 1 }

one_window-IsValid : IsValid screen one_window
one_window-IsValid = record {
  unique = (refl, tt);
  placed = λ k e f. ground arith;
  held = λ k e w f g. ground arith;
}

one_window-Older : Older screen one_window
one_window-Older k e f = ground arith

-- Another window at the address of the mail window.
abbrev chat : WindowRef
chat = record { address = 20; generation = 77 }

register_window_lem_example :
    let q = register_window screen (chat ∷ []) chat one_window in
    (resolve screen (chat ∷ []) q.1 q.0 ≡ some chat)
    × (live_ref screen chat q.0 ≡ some q.1)
    × (q.1.address ≡ 20)
    × ((register_window screen (chat ∷ []) chat q.0).1 ≡ q.1)
register_window_lem_example = register_window_lem screen (chat ∷ []) chat one_window refl

register_window-renews_example :
    let q = register_window screen (chat ∷ []) chat one_window in
    (q.1 ≢ mail)
    × (resolve screen (chat ∷ []) mail q.0 ≡ none)
    × (resolve screen (chat ∷ []) q.1 q.0 ≡ some chat)
register_window-renews_example =
    register_window-renews screen (chat ∷ []) chat one_window mail_entry one_window-IsValid
      one_window-Older refl refl refl

register_window-newest_example :
    let (q, ref) = register_window screen (chat ∷ []) chat one_window in
    IsCounted screen q × (rest : List WindowRef) × (live_refs_newest_first screen q ≡ ref ∷ rest)
register_window-newest_example =
    register_window-newest screen (chat ∷ []) chat one_window (omega arith, tt) (omega arith) refl

on_window_close_lem_example :
    resolve screen (mail ∷ []) mail (on_window_close screen (mail ∷ []) mail one_window)
    ≡ (if 20 == mail.address then none else resolve screen (mail ∷ []) mail one_window)
on_window_close_lem_example =
    on_window_close_lem screen (mail ∷ []) mail one_window mail one_window-IsValid

parse_cycle_args_iff_example : ((parse_cycle_args " prev  app").ok ≡ true) ↔ (
    (d : Option Direction) × (s : Option Scope) × (tokens_of " prev  app" ≡ words d s)
    × (parse_cycle_args " prev  app" ≡ accepted d s))
parse_cycle_args_iff_example = parse_cycle_args_iff " prev  app"

tokens_example : tokens_of " prev  app" ≡ "prev" ∷ "app" ∷ []
unfolding tokens_of read_tokens
tokens_example = refl

-- A desktop on which a window is its address, and the state is the list of those alive.
abbrev pub laptop : Desktop
laptop = record {
  windows = record {
    Window = ℕ;
    window_eq = nat_eq;
    address_of = λ w. w;
    State = List ℕ;
    alive = contains;
  };
  alive-unique = λ s v w a b e. e;
  monitors = λ s. some (record { active_workspace = 1; active_special = none }) ∷ none ∷ [];
  history = λ s. some (30 ∷ 20 ∷ 10 ∷ []);
  focus_window = λ s. some 10;
  monitor_id = λ s w. 0;
  workspace_id = λ s w. 1;
  is_mapped = λ s w. true;
  is_hidden = λ s w. false;
  on_special_workspace = λ s w. false;
  app_class = λ s w. "kitty";
  full_window_focus = λ s w. (s, w ∷ []);
  burst = 1;
  announced-le-burst = λ s w. omega arith;
}

-- The order of the history.
abbrev listed : List WindowRef
listed = record { address = 20; generation = 1 } ∷ []

candidates_lem_example :
    let (w, answer) =
      Source.candidates laptop listed Scope.global
        (10 ∷ 20 ∷ [], record { by_address = []; seq_counter = 0 }) in
    Distinct answer
    × All (Eligible laptop (10 ∷ 20 ∷ []) Scope.global w.1) answer
    × ((ref : WindowRef)
        → Eligible laptop (10 ∷ 20 ∷ []) Scope.global w.1 ref
        → contains answer ref ≡ true)
    × ((entries : List ℕ)
        → laptop.history (10 ∷ 20 ∷ []) ≡ some entries
        → All
            (λ v.
              laptop.windows.alive (10 ∷ 20 ∷ []) v ≡ true
              → MayShow laptop (10 ∷ 20 ∷ []) Scope.global v
              → (ref : WindowRef) × (resolve laptop.windows (10 ∷ 20 ∷ []) ref w.1 ≡ some v)
                × (contains answer ref ≡ true))
            entries)
    × All (λ ref. Source.is_valid laptop w ref ≡ true) answer
    × (Distinct listed
        → (first : List WindowRef) × (rest : List WindowRef) × (answer ≡ first ++ rest)
          × Picked (Eligible laptop (10 ∷ 20 ∷ []) Scope.global w.1) listed first)
    × (w.0 ≡ 10 ∷ 20 ∷ [])
unfolding Source.candidates
candidates_lem_example =
    candidates_lem laptop listed Scope.global (10 ∷ 20 ∷ [])
      (record { by_address = []; seq_counter = 0 })
      (record { unique = tt; placed = λ k e f. ground arith; held = λ k e w f g. ground arith })

abbrev written : SidecarOverrides
written = record {
  debounce_ms = some "90000";
  default_scope = some "app";
  start_offset = none;
  wrap = some "no";
  ui = some "null";
  border_style = none;
  border_color = none;
  border_size = some "-1";
  selection_follow_workspace = none;
  pulse_period_ms = some "7";
  dim_alpha = none;
  lock_history_on_session = some "false";
  restore_focus_on_cancel = none;
  external_socket = none;
}

default-InRange : InRange default_plugin_config
default-InRange = record {
  debounce = (400, refl, omega arith);
  period = (1000, refl, omega arith, omega arith);
  size = (refl, refl);
  one_ui = (refl, refl);
}

apply_overlay-InRange_example : InRange (apply_overlay (λ v. false) written default_plugin_config).0
apply_overlay-InRange_example =
    apply_overlay-InRange (λ v. false) written default_plugin_config default-InRange
