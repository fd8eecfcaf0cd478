-- ===== src/Traction/Overlap.antt =====
-- packages/core/src/traction.ts, `applyEvents`: a run over events that an earlier run has read.
use koul.Base.{
  ℕ, ◌+◌, ◌*◌, ◌/◌, ◌≤◌, true, false, Option, none, some, List, [], ◌∷◌, ◌++◌, leb, if◌then◌else◌,
  ◌≡◌, refl, sym, ap, ◌∙◌, arith, inl, inr, All, NatMap, alter, from_key, from_key-alter_kept,
  from_key-alter_dropped, from_key-from_key, Num, Text, text_leb, text_leb_refl, text_leb_total,
  text_leb_trans, Bool-cases,
}
use koul.Competition.Value.{Prices}
use koul.Traction.State.{
  hour_ms, RouterEvent, autopilot_set, autopilot_cleared, fired, swapped, event_id, TractionState,
}
use koul.Traction.Apply.{
  cutoff, on_hours, count_event, is_seen, apply_loop, drop_hours, apply_events,
}

cutoff_mono : (m n : ℕ) → m ≤ n → leb (cutoff m) (cutoff n) ≡ true
unfolding cutoff
cutoff_mono m n h = ground arith

module _ (num : Num) where
  from_key-on_hours :
      (c i : ℕ) (e : RouterEvent) (h : NatMap (NatMap ℕ))
      → from_key c (on_hours num e i h) ≡ from_key c (on_hours num e i (from_key c h))
  unfolding on_hours
  from_key-on_hours c i (autopilot_set id at user autopilot_id rules) h =
      sym (from_key-from_key c c h (ground arith))
  from_key-on_hours c i (autopilot_cleared id at user autopilot_id) h =
      sym (from_key-from_key c c h (ground arith))
  from_key-on_hours c i (fired id at user kind amount tx) h =
      let k = at / hour_ms * hour_ms in
      let f : NatMap ℕ → NatMap ℕ = alter i 0 (λ n. n + 1) in
      let twice = from_key-from_key c c h (ground arith) in
      elim (Bool-cases (leb c k)) [
        | inl e ↦
            from_key-alter_kept c k [] f h e
            ∙ sym (from_key-alter_kept c k [] f (from_key c h) e ∙ ap (alter k [] f) twice)
        | inr e ↦
            from_key-alter_dropped c k [] f h e
            ∙ sym (from_key-alter_dropped c k [] f (from_key c h) e ∙ twice)
      ]
  from_key-on_hours c i (swapped id at user token_in token_out amount_in amount_out) h =
      sym (from_key-from_key c c h (ground arith))

  is_seen-later :
      (last : Option Text) (id later : Text)
      → is_seen num last id ≡ true
      → is_seen num last later ≡ false
      → text_leb id later ≡ true
  is_seen-later none id later h k = cc
  is_seen-later (some l) id later h k = text_leb_trans id l later h (text_leb_total later l k)

  module _ (prices : Prices num) where
    -- What the loop does with one event.
    abbrev step : RouterEvent → TractionState num → TractionState num
    step e s = if is_seen num s.last_event_id (event_id e) then s else count_event num prices e s

    drop_hours-twice :
        (n : ℕ) (s : TractionState num) → drop_hours num n (drop_hours num n s) ≡ drop_hours num n s
    unfolding drop_hours
    drop_hours-twice n s =
        ap (λ h. record s { hours = h })
          (from_key-from_key (cutoff n) (cutoff n) s.hours (ground arith))

    drop_hours-older :
        (m n : ℕ) (s : TractionState num)
        → m ≤ n
        → drop_hours num n (drop_hours num m s) ≡ drop_hours num n s
    unfolding drop_hours
    drop_hours-older m n s h =
        ap (λ h. record s { hours = h })
          (from_key-from_key (cutoff m) (cutoff n) s.hours (cutoff_mono m n h))

    drop_hours-count_event :
        (n : ℕ) (e : RouterEvent) (s : TractionState num)
        → drop_hours num n (count_event num prices e s)
          ≡ drop_hours num n (count_event num prices e (drop_hours num n s))
    unfolding drop_hours count_event
    drop_hours-count_event n e s =
        ap (λ h. record (count_event num prices e s) { hours = h })
          (from_key-on_hours (cutoff n) _ e s.hours)

    drop_hours-step :
        (n : ℕ) (e : RouterEvent) (s : TractionState num)
        → drop_hours num n (step e s) ≡ drop_hours num n (step e (drop_hours num n s))
    unfolding drop_hours
    drop_hours-step n e s = elim (Bool-cases (is_seen num s.last_event_id (event_id e))) [
      | inl k ↦ rw k (sym (drop_hours-twice n s))
      | inr k ↦ rw k (drop_hours-count_event n e s)
    ]

    drop_hours-apply_loop :
        (n : ℕ) (es : List RouterEvent) (s : TractionState num)
        → drop_hours num n (apply_loop num prices s es)
          ≡ drop_hours num n (apply_loop num prices (drop_hours num n s) es)
    unfolding apply_loop
    drop_hours-apply_loop n [] s = sym (drop_hours-twice n s)
    drop_hours-apply_loop n (e ∷ es) s =
        drop_hours-apply_loop n es (step e s)
        ∙ ap (λ t. drop_hours num n (apply_loop num prices t es)) (drop_hours-step n e s)
        ∙ sym (drop_hours-apply_loop n es (step e (drop_hours num n s)))

    apply_loop-append :
        (xs ys : List RouterEvent) (s : TractionState num)
        → apply_loop num prices s (xs ++ ys) ≡ apply_loop num prices (apply_loop num prices s xs) ys
    unfolding apply_loop
    apply_loop-append [] ys s = refl
    apply_loop-append (x ∷ xs) ys s = apply_loop-append xs ys (step x s)

    is_seen-step :
        (e : RouterEvent) (id : Text) (s : TractionState num)
        → is_seen num s.last_event_id id ≡ true
        → is_seen num (step e s).last_event_id id ≡ true
    unfolding count_event
    is_seen-step e id s h = elim (Bool-cases (is_seen num s.last_event_id (event_id e))) [
      | inl k ↦ rw k h
      | inr k ↦ rw k (is_seen-later s.last_event_id id (event_id e) h k)
    ]

    is_seen-step_self :
        (e : RouterEvent) (s : TractionState num)
        → is_seen num (step e s).last_event_id (event_id e) ≡ true
    unfolding count_event
    is_seen-step_self e s = elim (Bool-cases (is_seen num s.last_event_id (event_id e))) [
      | inl k ↦ rw k k
      | inr k ↦ rw k (text_leb_refl (event_id e))
    ]

    is_seen-apply_loop :
        (es : List RouterEvent) (id : Text) (s : TractionState num)
        → is_seen num s.last_event_id id ≡ true
        → is_seen num (apply_loop num prices s es).last_event_id id ≡ true
    unfolding apply_loop
    is_seen-apply_loop [] id s h = h
    is_seen-apply_loop (e ∷ es) id s h = is_seen-apply_loop es id (step e s) (is_seen-step e id s h)

    All-seen :
        (es : List RouterEvent) (s : TractionState num)
        → All (λ e. is_seen num (apply_loop num prices s es).last_event_id (event_id e) ≡ true) es
    unfolding apply_loop
    All-seen [] s = tt
    All-seen (e ∷ es) s = (
      is_seen-apply_loop es (event_id e) (step e s) (is_seen-step_self e s),
      All-seen es (step e s),
    )

    apply_loop-seen :
        (xs ys : List RouterEvent) (s : TractionState num)
        → All (λ e. is_seen num s.last_event_id (event_id e) ≡ true) xs
        → apply_loop num prices s (xs ++ ys) ≡ apply_loop num prices s ys
    unfolding apply_loop
    apply_loop-seen [] ys s h = refl
    apply_loop-seen (x ∷ xs) ys s (h, hs) =
        let same : step x s ≡ s = rw h refl in
        ap (λ t. apply_loop num prices t (xs ++ ys)) same ∙ apply_loop-seen xs ys s hs

    apply_loop-again :
        (xs ys : List RouterEvent) (s : TractionState num)
        → apply_loop num prices (apply_loop num prices s xs) (xs ++ ys)
          ≡ apply_loop num prices s (xs ++ ys)
    apply_loop-again xs ys s =
        apply_loop-seen xs ys (apply_loop num prices s xs) (All-seen xs s)
        ∙ sym (apply_loop-append xs ys s)

    -- A run at a later time over events that begin with those of an earlier run, at the same prices,
    -- gives the state of one run over them all: what overlaps counts once, and hours that the earlier
    -- run dropped change nothing.
    pub apply_events_overlap :
        (s : TractionState num) (xs ys : List RouterEvent) (m n : ℕ)
        → m ≤ n
        → apply_events num (apply_events num s xs prices m) (xs ++ ys) prices n
          ≡ apply_events num s (xs ++ ys) prices n
    unfolding apply_events
    apply_events_overlap s xs ys m n h =
        let l = apply_loop num prices s xs in
        drop_hours-apply_loop n (xs ++ ys) (drop_hours num m l)
        ∙ ap (λ t. drop_hours num n (apply_loop num prices t (xs ++ ys))) (drop_hours-older m n l h)
        ∙ sym (drop_hours-apply_loop n (xs ++ ys) l)
        ∙ ap (drop_hours num n) (apply_loop-again xs ys s)
