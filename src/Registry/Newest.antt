-- ===== src/Registry/Newest.antt =====
-- The order of the windows that have no history: the window that was registered last stands first.
use mru_switcher.Prelude.{
  ℕ, ◌+◌, ◌%◌, ◌^◌, ◌≤◌, ◌<◌, ◌≡◌, refl, ap, sym, subst, ◌∙◌, Bool, true, false, not, ◌&&◌, List,
  [], ◌∷◌, some, ◌==◌, ltb, if_cases, value_or, lookup, set, erase_if, map, All, arith, lt→ltb,
  Option-cases, inl, inr,
}
use mru_switcher.Window.{WindowRef}
use mru_switcher.Registry.{
  Windows, Entry, WindowIdentityRegistry, new_entry, locks_to, renewed, register_window, is_dead,
  prune_closed, on_window_close, open_refs, insert_ref, sort_refs, live_refs_newest_first,
}

true-false : ¬ (true ≡ false)
true-false e = cc

module _ (H : Windows) where
  abbrev Numbered : Type 0
  Numbered = ℕ × WindowRef

  -- No entry is numbered higher than the counter.
  abbrev pub IsCounted : WindowIdentityRegistry H → Type 0
  IsCounted r = All (λ p. p.1.seq ≤ r.seq_counter) r.by_address

  -- The registry has this very window at its address, open and alive.
  abbrev pub is_held : H.State → H.Window → WindowIdentityRegistry H → Bool
  is_held s w r =
      let entry = value_or (lookup (H.address_of w) r.by_address) (new_entry H) in
      entry.ref.address == H.address_of w && not entry.closed && locks_to H s entry.window w

  insert_ref-below :
      (a : Numbered) (n : ℕ) (l : List Numbered)
      → a.0 < n
      → All (λ b. b.0 < n) l
      → All (λ b. b.0 < n) (insert_ref H a l)
  insert_ref-below a n [] h k = (h, tt)
  insert_ref-below a n (b ∷ bs) h k =
      if_cases (All (λ c. c.0 < n)) (ltb a.0 b.0) (λ _. (k.0, insert_ref-below a n bs h k.1))
        (λ _. (h, k))

  sort_refs-below :
      (n : ℕ) (l : List Numbered) → All (λ b. b.0 < n) l → All (λ b. b.0 < n) (sort_refs H l)
  sort_refs-below n [] k = tt
  sort_refs-below n (a ∷ l) k = insert_ref-below a n (sort_refs H l) k.0 (sort_refs-below n l k.1)

  insert_ref-top :
      (x : Numbered) (l : List Numbered) → All (λ b. b.0 < x.0) l → insert_ref H x l ≡ x ∷ l
  insert_ref-top x [] k = refl
  insert_ref-top x (b ∷ bs) k = ground arith

  open_refs-below :
      (n : ℕ) (m : List (ℕ × Entry H))
      → All (λ p. p.1.seq < n) m
      → All (λ b. b.0 < n) (open_refs H m)
  open_refs-below n [] k = tt
  open_refs-below n ((a, e) ∷ m) k =
      if_cases (All (λ b. b.0 < n)) (not e.closed) (λ _. (k.0, open_refs-below n m k.1))
        (λ _. open_refs-below n m k.1)

  abbrev Leads : Numbered → List Numbered → Type 0
  Leads x l = (rest : List Numbered) × (l ≡ x ∷ rest)

  insert_ref-under :
      (a x : Numbered) (l : List Numbered) → a.0 < x.0 → Leads x l → Leads x (insert_ref H a l)
  insert_ref-under a x l h (rest, e) = (insert_ref H a rest, rw (e, lt→ltb a.0 x.0 h) refl)

  sort_refs-set :
      (k : ℕ) (e : Entry H) (m : List (ℕ × Entry H))
      → e.closed ≡ false
      → All (λ p. p.1.seq < e.seq) m
      → Leads (e.seq, e.ref) (sort_refs H (open_refs H (set k e m)))
  sort_refs-set k e [] o h = ([], rw o refl)
  sort_refs-set k e ((j, d) ∷ m) o h =
      if_cases (λ l. Leads (e.seq, e.ref) (sort_refs H (open_refs H l))) (j == k)
        (λ _. (
          sort_refs H (open_refs H m),
          rw o (
              insert_ref-top (e.seq, e.ref) (sort_refs H (open_refs H m))
                (sort_refs-below e.seq (open_refs H m) (open_refs-below e.seq m h.1))),
        ))
        (λ _.
          let rest = sort_refs-set k e m o h.1 in
          if_cases (λ l. Leads (e.seq, e.ref) (sort_refs H l)) (not d.closed)
            (λ _.
              insert_ref-under (d.seq, d.ref) (e.seq, e.ref) (sort_refs H (open_refs H (set k e m)))
                h.0 rest)
            (λ _. rest))

  IsCounted-set :
      (k n : ℕ) (e : Entry H) (m : List (ℕ × Entry H))
      → e.seq ≤ n
      → All (λ p. p.1.seq ≤ n) m
      → All (λ p. p.1.seq ≤ n) (set k e m)
  IsCounted-set k n e [] h a = (h, tt)
  IsCounted-set k n e ((j, d) ∷ m) h a =
      if_cases (All (λ p. p.1.seq ≤ n)) (j == k) (λ _. (h, a.1))
        (λ _. (a.0, IsCounted-set k n e m h a.1))

  later :
      (n p : ℕ) (m : List (ℕ × Entry H))
      → n ≤ p
      → All (λ q. q.1.seq ≤ n) m
      → All (λ q. q.1.seq ≤ p) m
  later n p [] h a = tt
  later n p ((j, d) ∷ m) h a = (omega (arith, a.0), later n p m h a.1)

  under : (n : ℕ) (m : List (ℕ × Entry H)) → All (λ q. q.1.seq ≤ n) m → All (λ q. q.1.seq < n + 1) m
  under n [] a = tt
  under n ((j, d) ∷ m) a = (omega (arith, a.0), under n m a.1)

  -- In a registry whose counter has not come to its end, a window that is registered and was not held
  -- before is the first of the live ones, and no entry is numbered higher than the counter then.
  pub register_window-newest :
      (s : H.State) (w : H.Window) (r : WindowIdentityRegistry H)
      → IsCounted r
      → r.seq_counter + 1 < 2 ^ 64
      → is_held s w r ≡ false
      → let (q, ref) = register_window H s w r in
        IsCounted q × (rest : List WindowRef) × (live_refs_newest_first H q ≡ ref ∷ rest)
  unfolding register_window live_refs_newest_first
  register_window-newest s w r a h n =
      let entry = value_or (lookup (H.address_of w) r.by_address) (new_entry H) in
      let seq = (r.seq_counter + 1) % 2 ^ 64 in
      let fresh = renewed H w entry seq in
      let counted : seq ≡ r.seq_counter + 1 = ground arith in
      let below =
        subst (λ m. All (λ q. q.1.seq < m) r.by_address) (sym counted)
          (under r.seq_counter r.by_address a) in
      let (rest, e) = sort_refs-set (H.address_of w) fresh r.by_address refl below in
      if_cases
        (λ (x : WindowIdentityRegistry H × WindowRef).
          IsCounted x.0 × (l : List WindowRef) × (live_refs_newest_first H x.0 ≡ x.1 ∷ l))
        (is_held s w r) (λ t. absurd (true-false (sym t ∙ n)))
        (λ _. (
          IsCounted-set (H.address_of w) seq fresh r.by_address (omega arith)
              (later r.seq_counter seq r.by_address (omega (arith, counted)) a),
          map (λ p. p.1) rest,
          ap (map (λ p. p.1)) e,
        ))

  IsCounted-erase_if :
      (p : Entry H → Bool) (n : ℕ) (m : List (ℕ × Entry H))
      → All (λ q. q.1.seq ≤ n) m
      → All (λ q. q.1.seq ≤ n) (erase_if p m)
  IsCounted-erase_if p n [] a = tt
  IsCounted-erase_if p n ((j, d) ∷ m) a =
      if_cases (All (λ q. q.1.seq ≤ n)) (p d) (λ _. IsCounted-erase_if p n m a.1)
        (λ _. (a.0, IsCounted-erase_if p n m a.1))

  counted-lookup :
      (k n : ℕ) (e : Entry H) (m : List (ℕ × Entry H))
      → All (λ q. q.1.seq ≤ n) m
      → lookup k m ≡ some e
      → e.seq ≤ n
  counted-lookup k n e [] a f = cc
  counted-lookup k n e ((j, d) ∷ m) a f = ground (arith, counted-lookup k n e m a.1)

  -- The closing of a window keeps the counter ahead of the entries.
  pub on_window_close-IsCounted :
      (s : H.State) (w : H.Window) (r : WindowIdentityRegistry H)
      → IsCounted r
      → IsCounted (on_window_close H s w r)
  unfolding on_window_close prune_closed
  on_window_close-IsCounted s w r a = elim (Option-cases (lookup (H.address_of w) r.by_address)) [
    | inl e ↦
        rw (e, on_window_close) (IsCounted-erase_if (is_dead H s) r.seq_counter r.by_address a)
    | inr (d, e) ↦
        rw (e, on_window_close)
          (IsCounted-erase_if (is_dead H s) r.seq_counter
            (set (H.address_of w) (record d { closed = true }) r.by_address)
            (IsCounted-set (H.address_of w) r.seq_counter (record d { closed = true }) r.by_address
              (counted-lookup (H.address_of w) r.seq_counter d r.by_address a e) a))
  ]
