-- ===== src/Model/Tally.antt =====
-- web/lib/model/runs.ts and the rows of web/hooks/use-activity.ts that it counts: how often each
-- rule card ran since the autopilot was last saved.
use koul.Base.{
  ℕ, ◌+◌, Bool, true, false, not, ◌&&◌, Option, none, some, List, [], ◌∷◌, get_elem?, leb, ltb,
  Text, if◌then◌else◌, Num,
}

pub data ActivityWho : Type 0 where
  auto you : ActivityWho

pub data ActivityKind : Type 0 where
  run rules_saved rules_cleared access_given access_revoked : ActivityKind
  supplied withdrew deposited sent wallet_created : ActivityKind

abbrev pub is_run : ActivityKind → Bool
is_run run = true
is_run rules_saved = false
is_run rules_cleared = false
is_run access_given = false
is_run access_revoked = false
is_run supplied = false
is_run withdrew = false
is_run deposited = false
is_run sent = false
is_run wallet_created = false

abbrev pub is_saved : ActivityKind → Bool
is_saved run = false
is_saved rules_saved = true
is_saved rules_cleared = false
is_saved access_given = false
is_saved access_revoked = false
is_saved supplied = false
is_saved withdrew = false
is_saved deposited = false
is_saved sent = false
is_saved wallet_created = false

-- `===` on numbers, of which the first may be missing
abbrev pub is_number : Option ℕ → ℕ → Bool
is_number none n = false
is_number (some m) n = leb m n && leb n m

module _ (num : Num) where
  open num use {F, lit, add, abs}

  pub record ActivityRow : Type 0 where
    pub id : Text
    pub kind : ActivityKind
    pub who : ActivityWho
    pub at : ℕ
    pub title : Text
    pub amount : Option F
    pub signed : Option Bool
    pub tx_hash : Option Text
    pub autopilot_id : Option ℕ
    pub rule_index : Option ℕ

  pub record RuleRuns : Type 0 where
    pub n : ℕ
    pub usdc : F
    pub last : ActivityRow

  abbrev pub latest : ℕ → Option ℕ → ℕ
  latest t none = t
  latest t (some u) = if ltb t u then u else t

  -- The time of the last save of an autopilot, over the rows that are its saves
  unfoldable pub saved_at : List ActivityRow → ℕ → Option ℕ
  saved_at [] autopilot = none
  saved_at (row ∷ rows) autopilot =
      let later = saved_at rows autopilot in
      if is_saved row.kind && is_number row.autopilot_id autopilot
      then some (latest row.at later)
      else later

  abbrev pub or_zero : Option F → F
  or_zero none = lit 0 0
  or_zero (some x) = x

  -- What a card has after one more run
  unfoldable pub one_more : ActivityRow → Option RuleRuns → RuleRuns
  one_more row none = record { n = 1; usdc = add (lit 0 0) (abs (or_zero row.amount)); last = row }
  one_more row (some seen) = record {
    n = seen.n + 1;
    usdc = add seen.usdc (abs (or_zero row.amount));
    last = if ltb seen.last.at row.at then row else seen.last;
  }

  -- The map's entry of a card, replaced in place or added at the end
  unfoldable pub count_card : ℕ → ActivityRow → List (ℕ × RuleRuns) → List (ℕ × RuleRuns)
  count_card card row [] = (card, one_more row none) ∷ []
  count_card card row ((c, seen) ∷ more) =
      let rest = count_card card row more in
      if leb c card && leb card c then (c, one_more row (some seen)) ∷ more else (c, seen) ∷ rest

  abbrev pub before_save : ℕ → Option ℕ → Bool
  before_save t none = false
  before_save t (some s) = ltb t s

  abbrev pub card_of : List ℕ → Option ℕ → Option ℕ
  card_of contract_to_ui none = none
  card_of contract_to_ui (some i) = get_elem? contract_to_ui i

  -- A rule that names no card is not counted
  abbrev pub count_on : Option ℕ → ActivityRow → List (ℕ × RuleRuns) → List (ℕ × RuleRuns)
  count_on none row by_card = by_card
  count_on (some card) row by_card = count_card card row by_card

  unfoldable pub count_row :
      ℕ → List ℕ → Option ℕ → ActivityRow → List (ℕ × RuleRuns) → List (ℕ × RuleRuns)
  count_row autopilot contract_to_ui saved row by_card =
      if is_run row.kind && (is_number row.autopilot_id autopilot && not (before_save row.at saved))
      then count_on (card_of contract_to_ui row.rule_index) row by_card
      else by_card

  unfoldable pub count_rows :
      ℕ → List ℕ → Option ℕ → List ActivityRow → List (ℕ × RuleRuns) → List (ℕ × RuleRuns)
  count_rows autopilot contract_to_ui saved [] by_card = by_card
  count_rows autopilot contract_to_ui saved (row ∷ rows) by_card =
      count_rows autopilot contract_to_ui saved rows
        (count_row autopilot contract_to_ui saved row by_card)

  unfoldable pub tally_runs : List ActivityRow → ℕ → List ℕ → List (ℕ × RuleRuns) × Option ℕ
  tally_runs rows autopilot contract_to_ui =
      let saved = saved_at rows autopilot in
      (count_rows autopilot contract_to_ui saved rows [], saved)
