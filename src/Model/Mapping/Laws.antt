-- ===== src/Model/Mapping/Laws.antt =====
-- web/lib/model/autopilot.ts, `toCoreAutopilot`: where each contract rule comes from, and which rules of
-- the page have none.
use koul.Base.{
  ℕ, Bool, true, false, List, [], ◌∷◌, ◌++◌, map, any, is_nil, Text, Num, ◌≡◌, refl, arith, ◌⊎◌,
  inl, inr, In,
}
use koul.Core.Schema as Core
use koul.Model.Rules.{
  Condition, Rule, ActionKind, supply_from_wallet, move_to_best_pool, repay_from_wallet,
  withdraw_to_wallet, sell_token, buy_token, withdraw_to_token,
}
use koul.Model.Mapping.{
  to_ledgers, Variants, one, directions, unsupported, Direction, a_to_b, b_to_a, Mapped,
  to_core_condition, is_unsupported, variant_of, conditions_from, conditions_for, pushed,
  actions_of, is_supported, contract_rules, place_rule, map_rules, mapping_of,
}

module _ (num : Num) where
  -- A contract rule and an id are of an enabled and supported rule of the page.
  abbrev pub Origin : List (Rule num) → Core.Rule → Text → Type 0
  Origin rules c id =
      (r : Rule num) × In r rules
      × (r.enabled ≡ true)
      × (is_supported num r ≡ true)
      × (r.id ≡ id)
      × (c.match_all ≡ r.match_all)
      × (c.cooldown_ledgers ≡ to_ledgers r.cooldown_sec)
      × (is_nil c.conditions ≡ false)

  -- The contract rules and the ids stand side by side.
  abbrev pub Traced : List (Rule num) → List Core.Rule → List Text → Type 0
  Traced rules [] [] = Unit
  Traced rules [] (i ∷ is) = ⊥
  Traced rules (c ∷ cs) [] = ⊥
  Traced rules (c ∷ cs) (i ∷ is) = Origin rules c i × Traced rules cs is

  variant_of-supported :
      (d : Direction) (b : Bool) (v : Variants)
      → is_unsupported num v ≡ false
      → is_nil (variant_of num d b v) ≡ false
  variant_of-supported d b (one c) h = refl
  variant_of-supported a_to_b true (directions f k) h = refl
  variant_of-supported a_to_b false (directions f k) h = refl
  variant_of-supported b_to_a true (directions f k) h = refl
  variant_of-supported b_to_a false (directions f k) h = refl
  variant_of-supported d b unsupported h = cc

  is_nil-append : {A : Type 0} → (xs ys : List A) → is_nil xs ≡ false → is_nil (xs ++ ys) ≡ false
  is_nil-append [] ys h = cc
  is_nil-append (x ∷ xs) ys h = refl

  conditions_from-supported :
      (d : Direction) (cs : List (Condition num))
      → any (λ c. is_unsupported num (to_core_condition num c)) cs ≡ false
      → is_nil cs ≡ false
      → is_nil (conditions_from num d true cs) ≡ false
  unfolding conditions_from
  conditions_from-supported d [] h k = cc
  conditions_from-supported d (c ∷ cs) h k =
      is_nil-append _ _ (variant_of-supported d true (to_core_condition num c) (ground arith))

  conditions_for-supported :
      (d : Direction) (r : Rule num)
      → is_supported num r ≡ true
      → is_nil (conditions_for num d r) ≡ false
  unfolding is_supported
  conditions_for-supported d r h =
      conditions_from-supported d r.conditions (ground arith) (ground arith)

  Origin-of_pushed :
      (rules : List (Rule num)) (r : Rule num) (d : Direction) (a : Core.Action)
      → In r rules
      → r.enabled ≡ true
      → is_supported num r ≡ true
      → Origin rules (pushed num r d a).rule (pushed num r d a).rule_id
  Origin-of_pushed rules r d a i e s =
      (r, i, e, s, refl, refl, refl, conditions_for-supported d r s)

  Traced-pushed :
      (rules : List (Rule num)) (r : Rule num) (acts : List (Direction × Core.Action))
      (rest : List (Mapped num))
      → In r rules
      → r.enabled ≡ true
      → is_supported num r ≡ true
      → Traced rules (map (λ m. m.rule) rest) (map (λ m. m.rule_id) rest)
      → let all = map (λ p. pushed num r p.0 p.1) acts ++ rest in
        Traced rules (map (λ m. m.rule) all) (map (λ m. m.rule_id) all)
  Traced-pushed rules r [] rest i e s t = t
  Traced-pushed rules r ((d, a) ∷ acts) rest i e s t =
      (Origin-of_pushed rules r d a i e s, Traced-pushed rules r acts rest i e s t)

  ids-append :
      (id : Text) (ms rest : List (Mapped num))
      → In id (map (λ m. m.rule_id) rest)
      → In id (map (λ m. m.rule_id) (ms ++ rest))
  ids-append id [] rest h = h
  ids-append id (m ∷ ms) rest h = inr (ids-append id ms rest h)

  ids_of_actions :
      (r : Rule num) (k : ActionKind) (rest : List (Mapped num))
      → In r.id
          (map (λ m. m.rule_id) (map (λ p. pushed num r p.0 p.1) (actions_of num r k) ++ rest))
  ids_of_actions r supply_from_wallet rest = inl refl
  ids_of_actions r move_to_best_pool rest = inl refl
  ids_of_actions r repay_from_wallet rest = inl refl
  ids_of_actions r withdraw_to_wallet rest = inl refl
  ids_of_actions r sell_token rest = inl refl
  ids_of_actions r buy_token rest = inl refl
  ids_of_actions r withdraw_to_token rest = inl refl

  abbrev SideBySide : List (Rule num) → List (Mapped num) → Type 0
  SideBySide all mapped = Traced all (map (λ m. m.rule) mapped) (map (λ m. m.rule_id) mapped)

  place_rule-SideBySide :
      (all : List (Rule num)) (r : Rule num) (e s : Bool) (mapped : List (Mapped num))
      (left : List (Rule num))
      → In r all
      → r.enabled ≡ e
      → is_supported num r ≡ s
      → SideBySide all mapped
      → SideBySide all (place_rule num e s r (mapped, left)).0
  unfolding place_rule contract_rules
  place_rule-SideBySide all r true true mapped left i e s t =
      Traced-pushed all r (actions_of num r r.action.kind) mapped i e s t
  place_rule-SideBySide all r true false mapped left i e s t = t
  place_rule-SideBySide all r false b mapped left i e s t = t

  map_rules-SideBySide :
      (all rs : List (Rule num))
      → ((r : Rule num) → In r rs → In r all)
      → SideBySide all (map_rules num rs).0
  unfolding map_rules
  map_rules-SideBySide all [] sub = tt
  map_rules-SideBySide all (r ∷ rs) sub =
      place_rule-SideBySide all r r.enabled (is_supported num r) (map_rules num rs).0
        (map_rules num rs).1 (sub r (inl refl)) refl refl
        (map_rules-SideBySide all rs (λ q i. sub q (inr i)))

  -- A rule that is left out is enabled, and not supported.
  abbrev pub LeftOut : List (Rule num) → List (Rule num) → Type 0
  LeftOut rules left =
      (r : Rule num) → In r left → In r rules × (r.enabled ≡ true) × (is_supported num r ≡ false)

  place_rule-LeftOut :
      (rs : List (Rule num)) (q : Rule num) (e s : Bool) (mapped : List (Mapped num))
      (left : List (Rule num))
      → q.enabled ≡ e
      → is_supported num q ≡ s
      → LeftOut rs left
      → LeftOut (q ∷ rs) (place_rule num e s q (mapped, left)).1
  unfolding place_rule
  place_rule-LeftOut rs q true true mapped left e s h r i = let (j, f, t) = h r i in (inr j, f, t)
  place_rule-LeftOut rs q true false mapped left e s h r (inl k) = (inl k, rw k e, rw k s)
  place_rule-LeftOut rs q true false mapped left e s h r (inr i) =
      let (j, f, t) = h r i in (inr j, f, t)
  place_rule-LeftOut rs q false b mapped left e s h r i = let (j, f, t) = h r i in (inr j, f, t)

  map_rules-LeftOut : (rs : List (Rule num)) → LeftOut rs (map_rules num rs).1
  unfolding map_rules
  map_rules-LeftOut [] = λ r i. absurd i
  map_rules-LeftOut (q ∷ rs) =
      place_rule-LeftOut rs q q.enabled (is_supported num q) (map_rules num rs).0
        (map_rules num rs).1 refl refl (map_rules-LeftOut rs)

  -- An enabled rule is left out or one of the contract rules carries its id.
  abbrev pub Placed : List (Rule num) → List (Rule num) → List Text → Type 0
  Placed rules left ids = (r : Rule num) → In r rules → r.enabled ≡ true → In r left ⊎ In r.id ids

  contract_rules-id :
      (r : Rule num) (rest : List (Mapped num))
      → In r.id (map (λ m. m.rule_id) (contract_rules num r ++ rest))
  unfolding contract_rules
  contract_rules-id r rest = ids_of_actions r r.action.kind rest

  place_rule-Placed :
      (rs : List (Rule num)) (q : Rule num) (e s : Bool) (mapped : List (Mapped num))
      (left : List (Rule num))
      → q.enabled ≡ e
      → Placed rs left (map (λ m. m.rule_id) mapped)
      → let p = place_rule num e s q (mapped, left) in
        Placed (q ∷ rs) p.1 (map (λ m. m.rule_id) p.0)
  unfolding place_rule
  place_rule-Placed rs q true true mapped left e h r (inl k) on =
      inr (rw k (contract_rules-id q mapped))
  place_rule-Placed rs q true true mapped left e h r (inr i) on = elim (h r i on) [
    | inl j ↦ inl j
    | inr j ↦ inr (ids-append r.id (contract_rules num q) mapped j)
  ]
  place_rule-Placed rs q true false mapped left e h r (inl k) on = inl (inl k)
  place_rule-Placed rs q true false mapped left e h r (inr i) on = elim (h r i on) [
    | inl j ↦ inl (inr j)
    | inr j ↦ inr j
  ]
  place_rule-Placed rs q false b mapped left e h r (inl k) on = absurd (let f = rw k at on in cc)
  place_rule-Placed rs q false b mapped left e h r (inr i) on = h r i on

  map_rules-Placed :
      (rs : List (Rule num))
      → Placed rs (map_rules num rs).1 (map (λ m. m.rule_id) (map_rules num rs).0)
  unfolding map_rules
  map_rules-Placed [] = λ r i on. absurd i
  map_rules-Placed (q ∷ rs) =
      place_rule-Placed rs q q.enabled (is_supported num q) (map_rules num rs).0
        (map_rules num rs).1 refl (map_rules-Placed rs)

  -- The contract rules and their ids stand side by side, each of an enabled and supported rule of the
  -- page with its id, its match and its cooldown and with a condition; the rules left out are enabled ones
  -- that are not supported; and every enabled rule is left out or has a contract rule.
  pub mapping_of_lem :
      (rules : List (Rule num)) (account_id : ℕ)
      → let m = mapping_of num (map_rules num rules) account_id in
        Traced rules m.autopilot.rules m.rule_ids
        × LeftOut rules m.unsupported_rules
        × Placed rules m.unsupported_rules m.rule_ids
  mapping_of_lem rules account_id =
      (map_rules-SideBySide rules rules (λ r i. i), map_rules-LeftOut rules, map_rules-Placed rules)
