-- ===== src/HostConfig/Warnings.antt =====
-- The notifications of repeated reads.
use mru_switcher.Prelude.{
  ℕ, ◌+◌, ◌≤◌, ◌≡◌, refl, Bool, true, false, List, [], ◌∷◌, length, length-append, arith, if_cases,
  none, some,
}
use mru_switcher.Config.{parse_border_style}
use mru_switcher.HostConfig.{
  ValueType, Carrier, int, string, bool, float, type_eq, Host, Slot, Values, Notices, lock_notice,
  style_notice, warn_lock, warn_style, read, read_config,
}
use mru_switcher.HostConfig.Calls.{Call, ◌>>=◌, Keeps, bind-Keeps}

abbrev bit : Bool → ℕ
bit true = 1
bit false = 0

two_bits : (b c : Bool) → bit b + bit c ≤ 2
two_bits b c = ground arith

-- There is one notification for each static that is set.
abbrev pub IsCounted : Notices → Type 0
IsCounted n = length n.notifications ≡ bit n.lock_warned + bit n.style_warned

warn_lock-IsCounted : (b : Bool) (n : Notices) → IsCounted n → IsCounted (warn_lock b n)
unfolding warn_lock
warn_lock-IsCounted b n c = ground (arith, length-append n.notifications (lock_notice ∷ []))

warn_style-IsCounted : (b : Bool) (n : Notices) → IsCounted n → IsCounted (warn_style b n)
unfolding warn_style
warn_style-IsCounted b n c = ground (arith, length-append n.notifications (style_notice ∷ []))

module _ (H : Host) where
  read-IsCounted :
      (t : ValueType) (h : H.State) (slot : Slot H t) → Keeps IsCounted (read H t h slot)
  unfolding read
  read-IsCounted t h none n c = c
  read-IsCounted t h (some v) n c =
      if_cases (λ (m : Call Notices _). IsCounted (m n).1) (type_eq (H.underlying v) t) (λ _. c)
        (λ _. c)

  module _ (h : H.State) where
    then_read :
        {B : Type 0} (t : ValueType) (slot : Slot H t) (f : Carrier H.Float t → Call Notices B)
        → ((a : Carrier H.Float t) → Keeps IsCounted (f a))
        → Keeps IsCounted (read H t h slot >>= f)
    then_read t slot f k = bind-Keeps IsCounted (read H t h slot) f (read-IsCounted t h slot) k

    -- However often the values are read, each of the two warnings is given once.
    read_config-IsCounted : (values : Values H) → Keeps IsCounted (read_config H h values)
    unfolding read_config
    read_config-IsCounted v = then_read int v.debounce_ms _ λ d.
        then_read string v.default_scope _ λ s. then_read string v.start_offset _ λ o.
          then_read bool v.wrap _ λ w. then_read bool v.lock_history_on_session _ λ l n c.
            then_read bool v.restore_focus_on_cancel _
              (λ r. then_read string v.ui _ λ u. then_read string v.border_style _ λ st m d.
                then_read string v.border_color _
                  (λ c. then_read int v.border_size _ λ z.
                    then_read bool v.selection_follow_workspace _ λ f.
                      then_read int v.pulse_period_ms _ λ p.
                        then_read float v.dim_alpha _
                          λ a. then_read string v.external_socket _ λ x k e. e)
                  (warn_style (parse_border_style st).should_warn m)
                  (warn_style-IsCounted (parse_border_style st).should_warn m d))
              (warn_lock l n) (warn_lock-IsCounted l n c)

  -- The notices after a read in each of these states of the host.
  abbrev pub reads : List (H.State) → Values H → Notices → Notices
  reads [] values n = n
  reads (h ∷ hs) values n = reads hs values (read_config H h values n).1

  reads-IsCounted :
      (hs : List (H.State)) (values : Values H) (n : Notices)
      → IsCounted n
      → IsCounted (reads hs values n)
  reads-IsCounted [] values n c = c
  reads-IsCounted (h ∷ hs) values n c =
      reads-IsCounted hs values (read_config H h values n).1 (read_config-IsCounted h values n c)

  -- However often the configuration is read in the life of the plugin, whatever the host then holds
  -- and whether or not a read throws, there are two notifications at most: one for each static that is
  -- set.
  pub reads-notifications :
      (hs : List (H.State)) (values : Values H)
      → let n =
          reads hs values
            (record { lock_warned = false; style_warned = false; notifications = [] }) in
        (length n.notifications ≡ bit n.lock_warned + bit n.style_warned)
        × (length n.notifications ≤ 2)
  reads-notifications hs values =
      let e = reads-IsCounted hs values _ refl in
      let n =
        reads hs values
          (record { lock_warned = false; style_warned = false; notifications = [] }) in
      (e, rw e (two_bits n.lock_warned n.style_warned))
