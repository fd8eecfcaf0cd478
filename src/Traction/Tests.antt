-- ===== src/Traction/Tests.antt =====
-- The laws of the traction counts on a concrete history.
use koul.Base.{◌≡◌, refl, none, List, [], ◌∷◌, ◌++◌, codes, arith, pos}
use koul.Competition.Value.{Prices}
use koul.Traction.State.{RouterEvent, autopilot_set, fired, TractionState, empty_traction}
use koul.Traction.Apply.{apply_events}
use koul.Traction.Overlap.{apply_events_overlap}
use koul.Traction.Balance.{Balances, apply_events-Balances}
use koul.Traction.Summary.{counts_of}
use koul.Traction.Split.{SumsUp, counts_of-SumsUp}
use koul.Samples.{hundredths}

abbrev start : TractionState hundredths
start = empty_traction hundredths (codes "R")

abbrev saved : List RouterEvent
saved = autopilot_set (codes "1") 7200000 (codes "CA") 1 2 ∷ []

abbrev ran : List RouterEvent
ran = fired (codes "2") 7300000 (codes "CA") (codes "swap") (pos 5) none ∷ []

abbrev no_prices : Prices hundredths
no_prices = []

apply_events_overlap_example :
    apply_events hundredths
      (apply_events hundredths start saved no_prices 8000000)
      (saved ++ ran)
      no_prices
      9000000
    ≡ apply_events hundredths start (saved ++ ran) no_prices 9000000
apply_events_overlap_example =
    apply_events_overlap hundredths no_prices start saved ran 8000000 9000000 (omega arith)

start-Balances : Balances hundredths start
unfolding koul.Traction.Balance.over_days
start-Balances = λ i. (refl, refl, refl, refl)

apply_events-Balances_example :
    Balances hundredths (apply_events hundredths start (saved ++ ran) no_prices 9000000)
apply_events-Balances_example =
    apply_events-Balances hundredths no_prices (saved ++ ran) start 9000000 start-Balances

counts_of-SumsUp_example : SumsUp hundredths (
    counts_of hundredths
      (apply_events hundredths start (saved ++ ran) no_prices 9000000)
      (codes "CA" ∷ [])
      ((codes "CB", 5) ∷ [])
      9000000)
counts_of-SumsUp_example =
    counts_of-SumsUp hundredths (apply_events hundredths start (saved ++ ran) no_prices 9000000)
      (codes "CA" ∷ []) ((codes "CB", 5) ∷ []) 9000000
