-- ===== src/Competition/Flags/Laws.antt =====
-- packages/core/src/competition.ts, `flagsFor` and `fxRules`: exactly when an entry stays unflagged.
use koul.Base.{
  ℕ, ◌≤◌, Bool, true, false, ◌&&◌, Option, none, some, List, [], ◌∷◌, ◌++◌, leb, ltb, any, Num, ◌≡◌,
  refl, subst, arith, ◌⊎◌, inl, inr, ◌↔◌, In, Bool-cases,
}
use koul.Core.Schema.{Rule, Autopilot}
use koul.Competition.Value.{CapitalCheck, CompetitionConfig}
use koul.Competition.Flags.{
  is_fx, count_fx, fx_rules, EntryTotals, Reason, not_by_autopilot, fx_rule, over_basket,
  over_start, when, capital_reasons, flags_for,
}

-- One of the stored autopilots has a rule with a price on the mock oracle.
abbrev pub ReadsFx : List (Option Autopilot) → Type 0
ReadsFx aps =
    (ap : Autopilot) × In (some ap) aps
    × ((r : Rule) × In r ap.rules × (any is_fx r.conditions ≡ true))

count_fx_iff :
    (rs : List Rule) → (1 ≤ count_fx rs) ↔ ((r : Rule) × In r rs × (any is_fx r.conditions ≡ true))
unfolding count_fx
count_fx_iff [] = (λ h. ground arith, λ (r, i, e). absurd i)
count_fx_iff (r ∷ rs) = elim (Bool-cases (any is_fx r.conditions)) [
  | inl e ↦ (λ h. (r, inl refl, e), λ k. rw e (omega arith))
  | inr e ↦ (
    λ h. let (q, i, f) = (count_fx_iff rs).0 (rw e at h) in (q, inr i, f),
    λ (q, i, f). elim i [
      | inl i ↦ absurd (let g = rw i at f in cc)
      | inr i ↦ rw e ((count_fx_iff rs).1 (q, i, f))
    ],
  )
]

-- The count of mock-oracle rules is not 0 exactly when a stored autopilot has such a rule.
pub fx_rules_iff : (aps : List (Option Autopilot)) → (1 ≤ fx_rules aps) ↔ ReadsFx aps
unfolding fx_rules
fx_rules_iff [] = (λ h. ground arith, λ (a, i, e). absurd i)
fx_rules_iff (none ∷ aps) = (
  λ h. let (a, i, e) = (fx_rules_iff aps).0 h in (a, inr i, e),
  λ (a, i, e). elim i [ inl i ↦ absurd (cc) | inr i ↦ (fx_rules_iff aps).1 (a, i, e) ],
)
fx_rules_iff (some b ∷ aps) = (
  λ h. elim (Bool-cases (leb 1 (count_fx b.rules))) [
    | inl e ↦ (b, inl refl, (count_fx_iff b.rules).0 (ground arith))
    | inr e ↦ let (a, i, f) = (fx_rules_iff aps).0 (ground arith) in (a, inr i, f)
  ],
  λ (a, i, e). elim i [
    | inl i ↦
        let q : a ≡ b = cc in
        let c =
          (count_fx_iff b.rules).1
            (subst (λ x. (r : Rule) × In r x.rules × (any is_fx r.conditions ≡ true)) q e) in
        omega (arith, c)
    | inr i ↦ let c = (fx_rules_iff aps).1 (a, i, e) in omega (arith, c)
  ],
)

module _ (num : Num) where
  open num use {F}

  -- Outside money is within what an entry may start with.
  abbrev pub Within : EntryTotals num → CompetitionConfig num → Option (CapitalCheck num) → Type 0
  Within t config none = over_start num t config.starting_capital_usd ≡ false
  Within t config (some c) = over_basket num c ≡ false

  abbrev pub Unflagged :
      EntryTotals num → CompetitionConfig num → Option (CapitalCheck num) → Bool → Type 0
  Unflagged t config capital fx =
      ((config.autopilot_only ≡ false) ⊎ (t.manual_txs ≡ 0))
      × Within t config capital
      × (fx ≡ false)

  when-nil : (b : Bool) (r : Reason num) → when num b r ≡ [] → b ≡ false
  when-nil true r h = cc
  when-nil false r h = refl

  capital_reasons_iff :
      (t : EntryTotals num) (config : CompetitionConfig num) (capital : Option (CapitalCheck num))
      → (capital_reasons num t config.starting_capital_usd capital ≡ []) ↔ Within t config capital
  capital_reasons_iff t config none = (when-nil _ _, λ h. rw h refl)
  capital_reasons_iff t config (some c) = (when-nil _ _, λ h. rw h refl)

  append-nil_both : {A : Type 0} → (xs ys : List A) → xs ++ ys ≡ [] → (xs ≡ []) × (ys ≡ [])
  append-nil_both [] ys h = (refl, h)
  append-nil_both (x ∷ xs) ys h = cc

  no_manual : (only : Bool) (n : ℕ) → (only && ltb 0 n) ≡ false → (only ≡ false) ⊎ (n ≡ 0)
  no_manual true n h = inr (ground arith)
  no_manual false n h = inl refl

  no_manual_back : (only : Bool) (n : ℕ) → (only ≡ false) ⊎ (n ≡ 0) → (only && ltb 0 n) ≡ false
  no_manual_back only n (inl h) = rw h refl
  no_manual_back true n (inr h) = rw h refl
  no_manual_back false n (inr h) = refl

  -- An entry has no flag exactly when, if only autopilots may trade, it has no manual transaction, its
  -- outside money is within the check that applies, and no rule reads the mock oracle.
  pub flags_for_iff :
      (t : EntryTotals num) (config : CompetitionConfig num) (capital : Option (CapitalCheck num))
      (fx : Bool)
      → (flags_for num t config capital fx ≡ []) ↔ Unflagged t config capital fx
  unfolding flags_for
  flags_for_iff t config capital fx = (
    λ h.
        let (a, bc) =
          append-nil_both
            (when num (config.autopilot_only && ltb 0 t.manual_txs) (not_by_autopilot t.manual_txs))
            (capital_reasons num t config.starting_capital_usd capital ++ when num fx fx_rule) h in
        let (b, c) =
          append-nil_both (capital_reasons num t config.starting_capital_usd capital)
            (when num fx fx_rule) bc in
        (
          no_manual config.autopilot_only t.manual_txs (when-nil _ _ a),
          (capital_reasons_iff t config capital).0 b,
          when-nil fx fx_rule c,
        ),
    λ (m, w, f).
        let c = (capital_reasons_iff t config capital).1 w in
        let a = no_manual_back config.autopilot_only t.manual_txs m in rw (a, c, f) refl,
  )
