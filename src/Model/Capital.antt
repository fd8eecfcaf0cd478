-- ===== src/Model/Capital.antt =====
-- web/lib/model/capital.ts: how much of what it could move each rule takes.
use koul.Base.{Bool, ◌&&◌, Option, none, some, List, [], ◌∷◌, map, all, if◌then◌else◌, Num}
use koul.Model.Rules.{Amount, everything, fixed, share, Rule}

module _ (num : Num) where
  open num use {F, lit, le, round, min_of, max_of}

  pub data Capital : Type 0 where
    one_share : F → Capital
    mixed : Capital

  unfoldable pub share_of : Amount num → Option F
  share_of everything = some (lit 100 0)
  share_of (share percent) = some percent
  share_of (fixed n) = none

  abbrev pub add_share : Option F → List F → List F
  add_share none ss = ss
  add_share (some s) ss = s ∷ ss

  abbrev pub shares_of : List (Rule num) → List F
  shares_of [] = []
  shares_of (r ∷ rs) = add_share (share_of r.action.amount) (shares_of rs)

  -- `s === shares[0]` on numbers
  abbrev pub same : F → F → Bool
  same a b = le a b && le b a

  abbrev pub capital_from : List F → Option Capital
  capital_from [] = none
  capital_from (s ∷ ss) = if all (λ t. same t s) (s ∷ ss) then some (one_share s) else some mixed

  unfoldable pub capital_of : List (Rule num) → Option Capital
  capital_of rules = capital_from (shares_of rules)

  abbrev pub new_amount : F → Amount num
  new_amount percent =
      if le (lit 100 0) percent
      then everything
      else share (max_of (lit 1 0) (min_of (lit 100 0) (round percent)))

  abbrev pub with_amount : Amount num → Amount num → Amount num
  with_amount new (fixed n) = fixed n
  with_amount new _ = new

  unfoldable pub apply_capital : List (Rule num) → F → List (Rule num)
  apply_capital rules percent =
      map {A = Rule num}
        (λ r. record r {
          action = record (r.action) { amount = with_amount (new_amount percent) r.action.amount };
        })
        rules
