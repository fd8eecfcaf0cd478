-- ===== src/Model/Pairing/Laws.antt =====
-- web/lib/model/pairing.ts against `toCoreAutopilot` of web/lib/model/autopilot.ts: a rule that the page
-- accepts has a contract form.
use koul.Base.{
  Bool, true, false, not, ◌&&◌, ◌||◌, Option, none, some, List, [], ◌∷◌, any, all, is_nil,
  if◌then◌else◌, Num, ◌≡◌, refl, arith, Bool-cases, inl, inr, ℕ, In, sym, ◌∙◌, and-true,
}
use koul.Model.Rules.{
  Comparator, gte, lte, ConditionKind, rate_gap, pool_rate, health_factor, fx_price, idle_usdc,
  token_price, token_balance, ActionKind, move_to_best_pool, supply_from_wallet, repay_from_wallet,
  withdraw_to_wallet, sell_token, buy_token, withdraw_to_token, PoolId, Condition, Amount,
  everything, fixed, share, Rule,
}
use koul.Model.Tokens.{Symbol}
use koul.Model.Mapping.Laws.{mapping_of_lem}
use koul.Model.Mapping.{
  CoreMapping, rule_fits, map_rules, mapping_of, to_core_autopilot, to_core_condition,
  is_unsupported, is_gap, amount_ready, value_ready, fits_gap, is_supported,
}
use koul.Model.Pairing.{is_move, is_sale, is_gte, reads_gap, amount_problem, pairing_problem}

-- A chain of tests that ends with no problem has passed each.
if_none :
    {A : Type 0}
    → (b : Bool) (x : A) (rest : Option A) → (if b then some x else rest) ≡ none
    → (b ≡ false) × (rest ≡ none)
if_none true x rest h = cc
if_none false x rest h = (refl, h)

or-false : (a b : Bool) → (a || b) ≡ false → (a ≡ false) × (b ≡ false)
or-false a b h = ground arith

module _ (num : Num) where
  open num use {F, lit, lt, le, is_finite}

  -- A number that is being typed is not finite.
  abbrev pub amount_typed : Amount num → Bool
  amount_typed everything = true
  amount_typed (share percent) = true
  amount_typed (fixed n) = is_finite n

  supported_kind :
      (k : ConditionKind) (cmp : Comparator) (v : F) (p : Option PoolId) (t : Option Symbol)
      → let c : Condition num = record {
        kind = k;
        comparator = cmp;
        value = v;
        pool = p;
        token = t;
      } in
        (reads_gap num c && not (is_gte cmp)) ≡ false
        → is_unsupported num (to_core_condition num c) ≡ false
  unfolding to_core_condition
  supported_kind rate_gap gte v p t h = refl
  supported_kind rate_gap lte v p t h = cc
  supported_kind pool_rate cmp v p t h = refl
  supported_kind health_factor cmp v p t h = refl
  supported_kind fx_price cmp v p t h = refl
  supported_kind idle_usdc cmp v p t h = refl
  supported_kind token_price cmp v p t h = refl
  supported_kind token_balance cmp v p t h = refl

  supported_conditions :
      (cs : List (Condition num))
      → any (λ c. reads_gap num c && not (is_gte c.comparator)) cs ≡ false
      → any (λ c. is_unsupported num (to_core_condition num c)) cs ≡ false
  supported_conditions [] h = refl
  supported_conditions (c ∷ cs) h =
      let (a, b) =
        or-false (reads_gap num c && not (is_gte c.comparator))
          (any (λ d. reads_gap num d && not (is_gte d.comparator)) cs) h in
      rw (supported_kind c.kind c.comparator c.value c.pool c.token a, supported_conditions cs b)
        refl

  fits_kind :
      (k : ActionKind) (gap : Bool)
      → (is_move k && not gap) ≡ false
      → (not (is_move k) && gap) ≡ false
      → fits_gap num k gap ≡ true
  fits_kind move_to_best_pool gap h k = ground arith
  fits_kind supply_from_wallet gap h k = rw k refl
  fits_kind repay_from_wallet gap h k = rw k refl
  fits_kind withdraw_to_wallet gap h k = rw k refl
  fits_kind sell_token gap h k = rw k refl
  fits_kind buy_token gap h k = rw k refl
  fits_kind withdraw_to_token gap h k = rw k refl

  -- A number above 0, or at least 1, is not at most 0.
  module _ (positive : (x : F) → lt (lit 0 0) x ≡ true → le x (lit 0 0) ≡ false)
      (one_or_more : (x : F) → le (lit 1 0) x ≡ true → le x (lit 0 0) ≡ false) where
    ready_amount :
        (sale : Bool) (a : Amount num)
        → amount_typed a ≡ true
        → amount_problem num sale a ≡ none
        → amount_ready num a ≡ true
    unfolding amount_problem
    ready_amount sale everything t h = refl
    ready_amount sale (share percent) t h = refl
    ready_amount true (fixed n) t h = elim (Bool-cases (lt (lit 0 0) n)) [
      | inl e ↦ rw (t, positive n e) refl
      | inr e ↦ absurd (let k = rw e at h in cc)
    ]
    ready_amount false (fixed n) t h = elim (Bool-cases (le (lit 1 0) n)) [
      | inl e ↦ rw (t, one_or_more n e) refl
      | inr e ↦ absurd (let k = rw e at h in cc)
    ]

    ready_values :
        (cs : List (Condition num))
        → all (λ c. is_finite c.value) cs ≡ true
        → any (λ c. not (lt (lit 0 0) c.value)) cs ≡ false
        → any (λ c. not (value_ready num c)) cs ≡ false
    ready_values [] f h = refl
    ready_values (c ∷ cs) f h =
        let (g, gs) = and-true (is_finite c.value) (all (λ d. is_finite d.value) cs) f in
        let (a, b) =
          or-false (not (lt (lit 0 0) c.value)) (any (λ d. not (lt (lit 0 0) d.value)) cs) h in
        let above : lt (lit 0 0) c.value ≡ true = ground arith in
        rw (g, positive c.value above, ready_values cs gs b) refl

    pairing-supported :
        (r : Rule num)
        → is_nil r.conditions ≡ false
        → all (λ c. is_finite c.value) r.conditions ≡ true
        → amount_typed r.action.amount ≡ true
        → pairing_problem num r ≡ none
        → is_supported num r ≡ true
    unfolding pairing_problem is_supported
    pairing-supported r n f t h =
        let (m, h1) = if_none _ _ _ h in
        let (g, h2) = if_none _ _ _ h1 in
        let (o, h3) = if_none _ _ _ h2 in
        let (l, h4) = if_none _ _ _ h3 in
        let (b, h5) = if_none _ _ _ h4 in
        rw
          (
            ready_amount (is_sale r.action.kind) r.action.amount t h5,
            ready_values r.conditions f l,
            supported_conditions r.conditions o,
            n,
            fits_kind r.action.kind (any (is_gap num) r.conditions) m g,
          )
          refl

    -- If a number above 0 and one of at least 1 are not at most 0: an enabled rule with a condition, whose
    -- levels and fixed amount are finite and with which the page finds no problem, has a contract rule in what
    -- toCoreAutopilot returns; and it returns where no number of the rules overflows its integer form.
    pub pairing_problem-mapped :
        (rules : List (Rule num)) (r : Rule num) (account_id : ℕ)
        → In r rules
        → r.enabled ≡ true
        → is_nil r.conditions ≡ false
        → all (λ c. is_finite c.value) r.conditions ≡ true
        → amount_typed r.action.amount ≡ true
        → pairing_problem num r ≡ none
        → all (rule_fits num) rules ≡ true
        → (m : CoreMapping num) × (to_core_autopilot num rules account_id ≡ some m)
          × In r.id m.rule_ids
    unfolding to_core_autopilot
    pairing_problem-mapped rules r account_id i e n f t h fits =
        let (traced, left_out, placed) = mapping_of_lem num rules account_id in
        (
          mapping_of num (map_rules num rules) account_id,
          rw fits refl,
          elim (placed r i e) [
            | inl left ↦
                let (j, on, no_form) = left_out r left in
                absurd (let s = pairing-supported r n f t h in let c = sym s ∙ no_form in cc)
            | inr k ↦ k
          ],
        )
