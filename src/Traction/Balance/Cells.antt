-- ===== src/Traction/Balance/Cells.antt =====
-- packages/core/src/traction.ts: counters of wallets and of the cells of days, changed at one place.
use koul.Base.{
  ℕ, zero, suc, ◌+◌, Bool, true, false, Option, none, some, List, [], ◌∷◌, ◌++◌, ◌==◌, length,
  get_elem?, set, if◌then◌else◌, or_else, ◌≡◌, refl, sym, ap, subst, ◌∙◌, arith, inl, inr, NatMap,
  at, alter, at-alter, Num, Text, text_eq, Bool-cases, Option-cases,
}
use koul.Competition.Value.{Prices}
use koul.Traction.State.{
  RouterEvent, event_id, event_user, Wallet, DayCell, TractionState, new_wallet, empty_cell,
}
use koul.Traction.Apply.{
  on_wallet, on_cell, index_of, wallet_of, update, count_event, is_seen, apply_loop, drop_hours,
  apply_events,
}

module _ (num : Num) where
  -- A count of a wallet, or 0 where there is none.
  abbrev pub tally : (Wallet num → ℕ) → Option (Wallet num) → ℕ
  tally f none = 0
  tally f (some w) = f w

  abbrev pub cell_of : ℕ → NatMap (DayCell num) → DayCell num
  cell_of i day = or_else (at i day) (empty_cell num)

  -- A count of a wallet's cells, over all days.
  unfoldable pub over_days : (DayCell num → ℕ) → ℕ → NatMap (NatMap (DayCell num)) → ℕ
  over_days f i [] = 0
  over_days f i ((day, cells) ∷ days) = f (cell_of i cells) + over_days f i days

  pub cell_of-alter :
      (f : DayCell num → ℕ) (g : DayCell num → DayCell num) (d i j : ℕ) (day : NatMap (DayCell num))
      → ((c : DayCell num) → f (g c) ≡ f c + d)
      → f (cell_of i (alter j (empty_cell num) g day))
        ≡ f (cell_of i day) + (if j == i then d else 0)
  cell_of-alter f g d i j day h = elim (Bool-cases (j == i)) [
    | inl e ↦ rw (at-alter j i (empty_cell num) g day, e) (h (cell_of i day))
    | inr e ↦ rw (at-alter j i (empty_cell num) g day, e) (omega arith)
  ]

  pub over_days-alter :
      (f : DayCell num → ℕ) (g : DayCell num → DayCell num) (d i j k : ℕ)
      (days : NatMap (NatMap (DayCell num)))
      → f (empty_cell num) ≡ 0
      → ((c : DayCell num) → f (g c) ≡ f c + d)
      → over_days f i (alter k [] (alter j (empty_cell num) g) days)
        ≡ over_days f i days + (if j == i then d else 0)
  unfolding over_days alter at
  over_days-alter f g d i j k [] z h = omega (arith, cell_of-alter f g d i j [] h, z)
  over_days-alter f g d i j k ((day, cells) ∷ days) z h = elim (Bool-cases (day == k)) [
    | inl e ↦ rw e (omega (arith, cell_of-alter f g d i j cells h))
    | inr e ↦ rw e (omega (arith, over_days-alter f g d i j k days z h))
  ]

  get_elem?-index_of :
      (user : Text) (ws : List (Wallet num)) (i : ℕ)
      → index_of num user ws ≡ some i
      → (w : Wallet num) × (get_elem? ws i ≡ some w) × (text_eq w.address user ≡ true)
  unfolding index_of
  get_elem?-index_of user [] i h = cc
  get_elem?-index_of user (w ∷ ws) i h = elim (Option-cases (index_of num user ws)) [
    | inl e ↦ elim (Bool-cases (text_eq w.address user)) [
      | inl t ↦
          let k : some zero ≡ some i = rw (e, t) at h in
          let q : zero ≡ i = cc in
          subst
            (λ n.
              (v : Wallet num) × (get_elem? (w ∷ ws) n ≡ some v) × (text_eq v.address user ≡ true))
            q (w, refl, t)
      | inr t ↦ absurd (let k : none ≡ some i = rw (e, t) at h in cc)
    ]
    | inr (j, e) ↦
        let k : some (suc j) ≡ some i = rw e at h in
        let q : suc j ≡ i = cc in
        subst
          (λ n.
            (v : Wallet num) × (get_elem? (w ∷ ws) n ≡ some v) × (text_eq v.address user ≡ true))
          q (get_elem?-index_of user ws j e)
  ]

  pub tally-snoc :
      (f : Wallet num → ℕ) (ws : List (Wallet num)) (w : Wallet num) (i : ℕ)
      → f w ≡ 0
      → tally f (get_elem? (ws ++ w ∷ []) i) ≡ tally f (get_elem? ws i)
  tally-snoc f [] w zero h = h
  tally-snoc f [] w (suc i) h = refl
  tally-snoc f (v ∷ ws) w zero h = refl
  tally-snoc f (v ∷ ws) w (suc i) h = tally-snoc f ws w i h

  get_elem?-snoc :
      (ws : List (Wallet num)) (w : Wallet num) → get_elem? (ws ++ w ∷ []) (length ws) ≡ some w
  get_elem?-snoc [] w = refl
  get_elem?-snoc (v ∷ ws) w = get_elem?-snoc ws w

  pub tally-set :
      (f : Wallet num → ℕ) (ws : List (Wallet num)) (w v : Wallet num) (d i j : ℕ)
      → get_elem? ws j ≡ some w
      → f v ≡ f w + d
      → tally f (get_elem? (set ws j v) i) ≡ tally f (get_elem? ws i) + (if j == i then d else 0)
  tally-set f [] w v d i j h k = cc
  tally-set f (x ∷ ws) w v d zero zero h k = let e : x ≡ w = cc in rw e k
  tally-set f (x ∷ ws) w v d (suc i) zero h k = ground arith
  tally-set f (x ∷ ws) w v d zero (suc j) h k = ground arith
  tally-set f (x ∷ ws) w v d (suc i) (suc j) h k =
      let ih = tally-set f ws w v d i j h k in ground arith

  pub update-set :
      (f : Wallet num → Wallet num) (ws : List (Wallet num)) (w : Wallet num) (j : ℕ)
      → get_elem? ws j ≡ some w
      → update num j f ws ≡ set ws j (f w)
  update-set f ws w j h = ap (λ o. elim o [ none ↦ ws | some v ↦ set ws j (f v) ]) h

  pub if_both :
      (P : TractionState num → Type 0) (b : Bool) (s t : TractionState num)
      → P s
      → P t
      → P (if b then s else t)
  if_both P true s t h k = h
  if_both P false s t h k = k

  -- A count that wallets and cells both keep, which an event raises by d.
  module _ (prices : Prices num) (fw : Wallet num → ℕ) (fc : DayCell num → ℕ) (d : RouterEvent → ℕ)
      (new : (user : Text) → fw (new_wallet num user) ≡ 0) (empty : fc (empty_cell num) ≡ 0)
      (up_w : (e : RouterEvent) (w : Wallet num) → fw (on_wallet num prices e w) ≡ fw w + d e)
      (up_c : (e : RouterEvent) (c : DayCell num) → fc (on_cell num prices e c) ≡ fc c + d e) where
    tally-update :
        (e : RouterEvent) (ws : List (Wallet num)) (w : Wallet num) (i j : ℕ)
        → get_elem? ws j ≡ some w
        → tally fw (get_elem? (update num j (on_wallet num prices e) ws) i)
          ≡ tally fw (get_elem? ws i) + (if j == i then d e else 0)
    tally-update e ws w i j h =
        ap (λ vs. tally fw (get_elem? vs i)) (update-set (on_wallet num prices e) ws w j h)
        ∙ tally-set fw ws w (on_wallet num prices e w) (d e) i j h (up_w e w)

    tally-wallet_of :
        (e : RouterEvent) (ws : List (Wallet num)) (i : ℕ)
        → let p = wallet_of num (event_user e) ws in
          tally fw (get_elem? (update num p.1 (on_wallet num prices e) p.0) i)
          ≡ tally fw (get_elem? ws i) + (if p.1 == i then d e else 0)
    unfolding wallet_of
    tally-wallet_of e ws i = elim (Option-cases (index_of num (event_user e) ws)) [
      | inl n ↦
          let u = new_wallet num (event_user e) in
          rw n (
            tally-update e (ws ++ u ∷ []) u i (length ws) (get_elem?-snoc ws u)
            ∙ ap (λ k. k + (if length ws == i then d e else 0))
                (tally-snoc fw ws u i (new (event_user e))))
      | inr (j, q) ↦
          let (w, g, t) = get_elem?-index_of (event_user e) ws j q in
          rw q (tally-update e ws w i j g)
    ]

    abbrev Balanced : TractionState num → Type 0
    Balanced s = (i : ℕ) → tally fw (get_elem? s.wallets i) ≡ over_days fc i s.days

    count_event-Balanced :
        (e : RouterEvent) (s : TractionState num)
        → Balanced s
        → Balanced (count_event num prices e s)
    unfolding count_event
    count_event-Balanced e s h i =
        tally-wallet_of e s.wallets i
        ∙ ap (λ k. k + (if (wallet_of num (event_user e) s.wallets).1 == i then d e else 0)) (h i)
        ∙ sym (over_days-alter fc _ (d e) i _ _ s.days empty (up_c e))

    apply_loop-Balanced :
        (es : List RouterEvent) (s : TractionState num)
        → Balanced s
        → Balanced (apply_loop num prices s es)
    unfolding apply_loop
    apply_loop-Balanced [] s h = h
    apply_loop-Balanced (e ∷ es) s h =
        apply_loop-Balanced es
          (if is_seen num s.last_event_id (event_id e) then s else count_event num prices e s)
          (if_both Balanced (is_seen num s.last_event_id (event_id e)) s
            (count_event num prices e s) h (count_event-Balanced e s h))

    pub apply_events-kept :
        (es : List RouterEvent) (s : TractionState num) (now : ℕ)
        → Balanced s
        → Balanced (apply_events num s es prices now)
    unfolding apply_events drop_hours
    apply_events-kept es s now h = apply_loop-Balanced es s h
