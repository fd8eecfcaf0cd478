-- ===== src/Competition/Tests.antt =====
-- The laws of the competition on concrete entries.
use koul.Base.{
  ℕ, ◌≤◌, ◌≡◌, ◌↔◌, true, false, none, some, List, [], ◌∷◌, map, codes, join, All, keep, pos, le_ℤ,
  ltb, arith,
}
use koul.Core.Schema.{Autopilot, fx_price, below, withdraw_to_wallet, everything}
use koul.Competition.Chunks.{chunk_by_size}
use koul.Competition.Chunks.Laws.{chunk_by_size_sound, Sendable, Tight}
use koul.Competition.Value.{ScoredToken, Holdings, Prices, value_usd, CompetitionConfig}
use koul.Competition.Value.Laws.{value_usd-unpriced, is_missed, is_counted, symbols}
use koul.Competition.Moves.{InsideMove, inside_moves}
use koul.Competition.Moves.Laws.{ManualSwap, manual_txs_iff}
use koul.Competition.Flags.{EntryTotals}
use koul.Competition.Rank.{Returns, Row, sort_rows, rank}
use koul.Competition.Rank.Laws.{placed, rank_correct}
use koul.Samples.{hundredths}

abbrev sizes : List ℕ
sizes = 3 ∷ 4 ∷ 9 ∷ 2 ∷ []

chunk_by_size_sound_example :
    (join (chunk_by_size sizes (λ n. n) 7) ≡ sizes)
    × All (Sendable (λ n. n) 7) (chunk_by_size sizes (λ n. n) 7)
    × Tight (λ n. n) 7 (chunk_by_size sizes (λ n. n) 7)
chunk_by_size_sound_example = chunk_by_size_sound (λ n. n) 7 sizes

abbrev xlm : ScoredToken
xlm = record { symbol = codes "XLM"; id = codes "C1"; decimals = 0; feed = some (codes "XLM") }

abbrev btc : ScoredToken
btc = record { symbol = codes "BTC"; id = codes "C2"; decimals = 0; feed = some (codes "BTC") }

abbrev held : Holdings
held = record {
  tokens = (codes "XLM", pos 2) ∷ (codes "BTC", pos 1) ∷ [];
  supplied = pos 0;
  borrowed = pos 0;
}

abbrev prices : Prices hundredths
prices = (codes "XLM", 30) ∷ []

value_usd-unpriced_example :
    let v = value_usd hundredths held (xlm ∷ btc ∷ []) prices in
    (v.unpriced
      ≡ symbols hundredths held prices (keep (is_missed hundredths held prices) (xlm ∷ btc ∷ [])))
    × (v.usd
        ≡ (value_usd hundredths held
            (keep (is_counted hundredths held prices) (xlm ∷ btc ∷ []))
            prices).usd)
value_usd-unpriced_example = value_usd-unpriced hundredths held prices (xlm ∷ btc ∷ [])

abbrev swap_moves : List (InsideMove hundredths)
swap_moves =
    record { tx_hash = codes "t"; token = codes "XLM"; incoming = false; amount = 5; usd = 100 }
    ∷ record { tx_hash = codes "t"; token = codes "USDC"; incoming = true; amount = 5; usd = 120 }
    ∷ []

manual_txs_iff_example :
    (1 ≤ (inside_moves hundredths swap_moves []).manual_txs) ↔ ManualSwap hundredths swap_moves []
manual_txs_iff_example = manual_txs_iff hundredths swap_moves []

abbrev totals : EntryTotals hundredths
totals = record {
  net_in_usd = 10000;
  in_usd = 10000;
  out_usd = 0;
  manual_txs = 0;
  swap_edge_usd = none;
}

abbrev config : CompetitionConfig hundredths
config = record {
  id = [];
  name = [];
  start_ledger = 1;
  end_ledger = none;
  starts_at = none;
  ends_at = none;
  starting_capital_usd = 10000;
  starting_basket = none;
  max_entrants = none;
  prize = none;
  autopilot_only = true;
  exclude_tokens = none;
}

abbrev lira : Autopilot
lira = record {
  account_id = codes "7";
  rules =
      record {
        conditions = fx_price (codes "TRY") below (codes "2") (codes "900") ∷ [];
        match_all = true;
        action = withdraw_to_wallet 1 everything;
        cooldown_ledgers = 30;
      }
      ∷ [];
}

abbrev whole : Returns
whole = record { F = ℕ; lt = ltb; rounded = pos }

whole_up : (a b : ℕ) → ltb a b ≡ true → le_ℤ (pos a) (pos b) ≡ true
whole_up a b h = ground arith

whole_down : (a b : ℕ) → ltb a b ≡ false → le_ℤ (pos b) (pos a) ≡ true
whole_down a b h = ground arith

abbrev rows : List (Row whole)
rows =
    record { return_pct = some 3; flagged = false }
    ∷ record { return_pct = some 9; flagged = true }
    ∷ record { return_pct = none; flagged = false }
    ∷ record { return_pct = some 3; flagged = false }
    ∷ []

rank_correct_example : rank whole rows ≡ map (placed whole rows) (sort_rows whole rows)
rank_correct_example = rank_correct whole whole_up whole_down rows
