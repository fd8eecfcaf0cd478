-- ===== src/Core/Templates.antt =====
-- packages/core/src/templates.ts: the ready-made autopilots.
use koul.Base.{
  ℕ, ◌≤◌, ◌≡◌, Bool, true, false, List, [], ◌∷◌, map, arith, Text, codes, if◌then◌else◌,
}
use koul.Core.Decimal.{is_decimal, big}
use koul.Core.Schema.{
  utf16_length, below, everything, Condition, health_factor, supply_rate_gap, fx_price, Action,
  move_supply, repay_from_wallet, withdraw_to_wallet, Rule, Autopilot, autopilot_ok,
}
use koul.Core.Validate.{u64_max, validate}
use koul.Core.Validate.Laws.{Fits, validate_complete}

abbrev pub fx : Condition
fx = fx_price (codes "TRY") below (codes "2000000000000") (codes "900")

abbrev pub health : Condition
health = health_factor below (codes "1250000000000000000")

abbrev pub single_rule : Condition → Action → ℕ → Rule
single_rule c a cooldown = record {
  conditions = c ∷ [];
  match_all = true;
  action = a;
  cooldown_ledgers = cooldown;
}

abbrev pub fx_exit : ℕ → Rule
fx_exit hub = single_rule fx (withdraw_to_wallet hub everything) 30

unfoldable pub lira_shield : Text → Bool → Autopilot
lira_shield account with_fx = record {
  account_id = account;
  rules =
      single_rule health (repay_from_wallet 1 everything) 30
      ∷ single_rule (supply_rate_gap 2 1 100) (move_supply 1 2 everything) 300
      ∷ single_rule (supply_rate_gap 1 2 100) (move_supply 2 1 everything) 300
      ∷ (if with_fx then map fx_exit (1 ∷ 2 ∷ []) else []);
}

-- `rules.slice(1, 3)`
abbrev slice_1_3 : List Rule → List Rule
slice_1_3 (a ∷ b ∷ c ∷ rest) = b ∷ c ∷ []
slice_1_3 (a ∷ rest) = rest
slice_1_3 [] = []

unfoldable pub yield_only : Text → Autopilot
unfolding lira_shield
yield_only account = record {
  account_id = account;
  rules = slice_1_3 (lira_shield account false).rules;
}

abbrev first_rule : List Rule → List Rule
first_rule (r ∷ rs) = r ∷ []
first_rule [] = []

unfoldable pub health_guard : Text → Autopilot
unfolding lira_shield
health_guard account = record {
  account_id = account;
  rules = first_rule (lira_shield account false).rules;
}

module _ (account : Text) (decimal : is_decimal account ≡ true) (fits : big account ≤ u64_max) where
  lira_shield-Fits : (with_fx : Bool) → Fits (lira_shield account with_fx)
  unfolding lira_shield autopilot_ok big utf16_length
  lira_shield-Fits true = record {
    shape = rw decimal;
    account = unfold big in fits;
    rules = omega arith;
  }
  lira_shield-Fits false = record { shape = rw decimal; account = fits; rules = omega arith }

  yield_only-Fits : Fits (yield_only account)
  unfolding yield_only autopilot_ok big
  yield_only-Fits = record { shape = rw decimal; account = fits; rules = omega arith }

  health_guard-Fits : Fits (health_guard account)
  unfolding health_guard autopilot_ok big
  health_guard-Fits = record { shape = rw decimal; account = fits; rules = omega arith }

  -- Every template is accepted for every account number that a u64 holds, with and without the
  -- USD/TRY exits.
  pub templates_accepted :
      ((with_fx : Bool) → validate (lira_shield account with_fx) ≡ [])
      × (validate (yield_only account) ≡ [])
      × (validate (health_guard account) ≡ [])
  templates_accepted = (
    λ with_fx. validate_complete (lira_shield account with_fx) (lira_shield-Fits with_fx),
    validate_complete (yield_only account) yield_only-Fits,
    validate_complete (health_guard account) health_guard-Fits,
  )
