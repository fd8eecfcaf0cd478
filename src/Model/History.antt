-- ===== src/Model/History.antt =====
-- web/lib/model/history.ts: the balance line and the profit of a wallet from its deposits and sends.
use koul.Base.{
  ℕ, ◌-◌, ◌*◌, Bool, ◌&&◌, Option, none, some, List, [], ◌∷◌, map, reverse, keep, leb, ltb, find,
  if◌then◌else◌, Num,
}

module _ (num : Num) where
  open num use {F, lit, add, sub, mul, div, lt, max_of}

  pub record Flow : Type 0 where
    pub at : ℕ
    pub amount : F

  pub record HistoryPoint : Type 0 where
    pub t : ℕ
    pub v : F

  pub record BalanceHistory : Type 0 where
    pub series : List HistoryPoint
    pub pnl : Option F
    pub pnl_pct : Option F
    pub net_in : F

  -- Stable sorts by time, forwards and backwards
  unfoldable pub insert_flow : (ℕ → ℕ → Bool) → Flow → List Flow → List Flow
  insert_flow before f [] = f ∷ []
  insert_flow before f (g ∷ gs) =
      if before g.at f.at then g ∷ insert_flow before f gs else f ∷ g ∷ gs

  unfoldable pub sort_flows : (ℕ → ℕ → Bool) → List Flow → List Flow
  sort_flows before [] = []
  sort_flows before (f ∷ fs) = insert_flow before f (sort_flows before fs)

  unfoldable pub sum_from : F → List Flow → F
  sum_from s [] = s
  sum_from s (f ∷ fs) = sum_from (add s f.amount) fs

  abbrev pub point : ℕ → F → HistoryPoint
  point t v = record { t = t; v = v }

  -- From 0 forwards
  unfoldable pub forward_points : ℕ → F → F → List Flow → List HistoryPoint
  forward_points now current v [] = point now current ∷ []
  forward_points now current v (f ∷ fs) =
      point (f.at - 1) v
      ∷ point f.at (add v f.amount)
      ∷ forward_points now current (add v f.amount) fs

  -- From today backwards
  unfoldable pub backward_points : ℕ → F → List Flow → List HistoryPoint
  backward_points since v [] = point since v ∷ []
  backward_points since v (f ∷ fs) =
      point f.at v ∷ point (f.at - 1) (sub v f.amount) ∷ backward_points since (sub v f.amount) fs

  -- Points that are not later than the point before them go.
  unfoldable pub later_points : Option ℕ → List HistoryPoint → List HistoryPoint
  later_points last [] = []
  later_points none (p ∷ ps) = p ∷ later_points (some p.t) ps
  later_points (some t) (p ∷ ps) =
      let rest = later_points (some p.t) ps in if ltb t p.t then p ∷ rest else rest

  abbrev pub in_window : ℕ → ℕ → Flow → Bool
  in_window since now f = leb since f.at && leb f.at now

  abbrev pub pct_of : F → Option F → Option F
  pct_of deposited none = none
  pct_of deposited (some pnl) =
      if lt (lit 0 0) deposited then some (mul (div pnl deposited) (lit 100 0)) else none

  unfoldable pub balance_history : List Flow → F → ℕ → Bool → ℕ → BalanceHistory
  balance_history flows current since complete now =
      let inside = keep (in_window since now) flows in
      let net_in = sum_from (lit 0 0) inside in
      let deposited = sum_from (lit 0 0) (keep (λ f. lt (lit 0 0) f.amount) inside) in
      let points =
        if complete
        then point since (lit 0 0) ∷ forward_points now current (lit 0 0) (sort_flows ltb inside)
        else reverse (
            point now current
            ∷ backward_points since current (sort_flows (λ a b. ltb b a) inside)) in
      let pnl : Option F = if complete then some (sub current net_in) else none in
      record {
        series =
            map {A = HistoryPoint} (λ p. point p.t (max_of (lit 0 0) p.v))
              (later_points none points);
        pnl = pnl;
        pnl_pct = pct_of deposited pnl;
        net_in = net_in;
      }

  abbrev pub value_at : Option HistoryPoint → List HistoryPoint → F
  value_at (some p) inside = p.v
  value_at none [] = lit 0 0
  value_at none (p ∷ ps) = p.v

  -- `lastDays`, whose start may not be before 1970
  unfoldable pub last_days : List HistoryPoint → Option ℕ → ℕ → List HistoryPoint
  last_days series none now = series
  last_days [] (some days) now = []
  last_days (q ∷ qs) (some days) now =
      let from = now - days * 86400000 in
      let inside = keep (λ p. ltb from p.t) (q ∷ qs) in
      point from (value_at (find (λ p. leb p.t from) (reverse (q ∷ qs))) inside) ∷ inside
