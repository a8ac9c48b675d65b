-- ===== src/HostConfig/Register/Laws.antt =====
-- What a registration leaves, whether the host takes every value or refuses one.
use mru_switcher.Prelude.{
  ◌≡◌, refl, ap, ◌⊎◌, inl, inr, Bool, true, false, List, [], ◌∷◌, ◌++◌, none, some,
}
use mru_switcher.HostConfig.{Host, Values}
use mru_switcher.HostConfig.Register.{
  Registration, registrations, made, rejection, register_from, register_all,
}

module _ (H : Host) where
  -- The host takes these values one after another.
  abbrev pub Accepts : List (Registration H) → H.State → H.State → Type 0
  Accepts [] h k = h ≡ k
  Accepts (r ∷ rs) h k =
      (m : H.State) × (H.add_config_value (made H r) h ≡ (m, true)) × Accepts rs m k

  -- The slots with these values set.
  abbrev pub fill : List (Registration H) → Values H → Values H
  fill [] out = out
  fill (r ∷ rs) out = fill rs (r.assign (made H r) out)

  abbrev Taken : List (Registration H) → H.State → Values H → Type 0
  Taken rs h out =
      (k : H.State) × Accepts rs h k × (register_from H rs h out ≡ ((k, fill rs out), none))

  abbrev Refused : List (Registration H) → H.State → Values H → Type 0
  Refused rs h out =
      (before : List (Registration H)) × (r : Registration H) × (after : List (Registration H))
      × (k : H.State) × (m : H.State) × (rs ≡ before ++ r ∷ after)
      × Accepts before h k
      × (H.add_config_value (made H r) k ≡ (m, false))
      × (register_from H rs h out ≡ ((m, fill (before ++ r ∷ []) out), some (rejection H r.key)))

  add_cases :
      (r : Registration H) (h : H.State)
      → ((m : H.State) × (H.add_config_value (made H r) h ≡ (m, true)))
        ⊎ ((m : H.State) × (H.add_config_value (made H r) h ≡ (m, false)))
  add_cases r h = of_pair (H.add_config_value (made H r) h)
    where
      of_pair :
          (p : H.State × Bool)
          → ((m : H.State) × (p ≡ (m, true))) ⊎ ((m : H.State) × (p ≡ (m, false)))
      of_pair (m, true) = inl (m, refl)
      of_pair (m, false) = inr (m, refl)

  register_from_lem :
      (rs : List (Registration H)) (h : H.State) (out : Values H)
      → Taken rs h out ⊎ Refused rs h out
  unfolding register_from
  register_from_lem [] h out = inl (h, refl, refl)
  register_from_lem (r ∷ rs) h out = elim (add_cases r h) [
    | inr (m, e) ↦ inr ([], r, rs, h, m, refl, refl, e, rw (e, register_from) refl)
    | inl (m, e) ↦ elim (register_from_lem rs m (r.assign (made H r) out)) [
      | inl (k, a, f) ↦ inl (k, (m, e, a), rw (e, register_from, f) refl)
      | inr (before, q, after, k, n, s, a, g, f) ↦
          inr
            (r ∷ before, q, after, k, n, ap (◌∷◌ r) s, (m, e, a), g, rw (e, register_from, f) refl)
    ]
  ]

  -- Either the host takes all the values, in the order of the keys, and every slot is set; or it
  -- refuses one, having taken those before it: then nothing after it is offered, the slots after it
  -- are as they were, and the answer names its key.
  pub register_all_outcome :
      (h : H.State) (out : Values H)
      → ((k : H.State) × Accepts (registrations H) h k
          × (register_all H h out ≡ ((k, fill (registrations H) out), none)))
        ⊎ ((before : List (Registration H)) × (r : Registration H) × (after : List (Registration H))
            × (k : H.State) × (m : H.State) × (registrations H ≡ before ++ r ∷ after)
            × Accepts before h k
            × (H.add_config_value (made H r) k ≡ (m, false))
            × (register_all H h out ≡ ((m, fill (before ++ r ∷ []) out), some (rejection H r.key))))
  unfolding register_all
  register_all_outcome h out = register_from_lem (registrations H) h out
