-- ===== src/Competition/Moves.antt =====
-- packages/core/src/competition.ts, `insideMoves`: the moves inside a wallet, by transaction.
pub mod Laws
use koul.Base.{
  ℕ, suc, ◌+◌, Bool, true, false, not, ◌&&◌, Option, none, some, List, [], ◌∷◌, ◌++◌, Text, text_eq,
  member, leb, length, or_else, if◌then◌else◌, Assoc, get, put, Num,
}

-- `set.add(x)`
abbrev pub with_token : Text → List Text → List Text
with_token x xs = if member x xs then xs else xs ++ x ∷ []

module _ (num : Num) where
  open num use {F, lit, add, sub, lt}

  pub record InsideMove : Type 0 where
    pub tx_hash : Text
    pub token : Text
    pub incoming : Bool
    pub amount : ℕ
    pub usd : F

  -- What is known of a transaction: USD out and in, and the set of its tokens.
  pub record Tx : Type 0 where
    pub out_usd : F
    pub in_usd : F
    pub tokens : List Text

  abbrev pub no_moves : Tx
  no_moves = record { out_usd = lit 0 0; in_usd = lit 0 0; tokens = [] }

  unfoldable pub add_move : Tx → InsideMove → Tx
  add_move t m = record {
    out_usd = if m.incoming then t.out_usd else add t.out_usd m.usd;
    in_usd = if m.incoming then add t.in_usd m.usd else t.in_usd;
    tokens = with_token m.token t.tokens;
  }

  unfoldable pub by_tx : Assoc Tx → List InsideMove → Assoc Tx
  by_tx txs [] = txs
  by_tx txs (m ∷ ms) =
      by_tx (put m.tx_hash (add_move (or_else (get m.tx_hash txs) no_moves) m) txs) ms

  pub record Inside : Type 0 where
    pub manual_txs : ℕ
    pub swap_edge_usd : F

  abbrev pub is_manual : List Text → Text → Tx → Bool
  is_manual fired hash t = not (member hash fired) && leb 2 (length t.tokens)

  abbrev pub has_edge : Tx → Bool
  has_edge t = leb 2 (length t.tokens) && lt (lit 0 0) t.out_usd && lt t.out_usd t.in_usd

  unfoldable pub sum_up : List Text → Inside → Assoc Tx → Inside
  sum_up fired acc [] = acc
  sum_up fired acc ((hash, t) ∷ rest) =
      sum_up fired
        (record {
          manual_txs = if is_manual fired hash t then acc.manual_txs + 1 else acc.manual_txs;
          swap_edge_usd =
              if has_edge t
              then add acc.swap_edge_usd (sub t.in_usd t.out_usd)
              else acc.swap_edge_usd;
        })
        rest

  unfoldable pub inside_moves : List InsideMove → List Text → Inside
  inside_moves moves fired =
      sum_up fired (record { manual_txs = 0; swap_edge_usd = lit 0 0 }) (by_tx [] moves)
