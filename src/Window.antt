-- ===== src/Window.antt =====
-- The value types of the domain: include/mru/domain/window_ref.hpp, window_meta.hpp,
-- focus_context.hpp and scope.hpp. A std::uint64_t is a number; class names are texts.
use Prim.Native.String.{String}
use mru_switcher.Prelude.{ℕ, ◌≡◌, ◌↔◌, Bool, true, ◌&&◌, List, arith, ◌==◌, Eq}

pub record WindowRef : Type 0 where
  pub address : ℕ
  pub generation : ℕ

-- `operator==`
abbrev pub ref_eq : WindowRef → WindowRef → Bool
ref_eq a b = a.address == b.address && a.generation == b.generation

pub ref_eq_iff : (a b : WindowRef) → (ref_eq a b ≡ true) ↔ (a ≡ b)
ref_eq_iff a b = ground arith

instance abbrev pub window_eq : Eq WindowRef
window_eq = record { beq = ref_eq; beq_iff = ref_eq_iff }

pub data Scope : Type 0 where
  global monitor workspace visible app : Scope

pub data Direction : Type 0 where
  next prev : Direction

pub data StartOffset : Type 0 where
  first second : StartOffset

pub record SessionPolicy : Type 0 where
  pub default_scope : Scope
  pub start_offset : StartOffset
  pub wrap : Bool
  pub restore_focus_on_cancel : Bool

pub record WindowMeta : Type 0 where
  pub monitor_id : ℕ
  pub workspace_id : ℕ
  pub mapped : Bool
  pub hidden : Bool
  pub app_class : String

pub record FocusContext : Type 0 where
  pub has_focus : Bool
  pub monitor_id : ℕ
  pub workspace_id : ℕ
  pub app_class : String
  pub visible_workspaces : List ℕ
