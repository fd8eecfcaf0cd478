-- ===== src/Competition/Moves/Laws.antt =====
-- packages/core/src/competition.ts, `insideMoves`: when the moves inside a wallet flag its entry.
mod Tokens
use koul.Base.{
  ℕ, ◌+◌, true, false, not, some, List, [], ◌∷◌, ◌++◌, Text, text_eq, member, leb, length, or_else,
  if◌then◌else◌, Assoc, get, put, Num, ◌≡◌, refl, sym, ap, ◌∙◌, subst, arith, ◌⊎◌, inl, inr, In,
  In-append_left, In-append_right, In-append, All, Bool-cases, text_eq_iff, ◌≢◌, ◌↔◌, get-put,
  get-put_same, ◌≤◌, All-get, All-put, Option-cases, and-true,
}
use koul.Competition.Moves.{
  InsideMove, Tx, no_moves, with_token, add_move, by_tx, Inside, is_manual, sum_up, inside_moves,
}
use koul.Competition.Moves.Laws.Tokens.{
  Distinct, member-In, In-member, In-with_token, In-with_token_old, In-of_with_token,
  text_eq-false_sym, member-snoc, Distinct-snoc, Distinct-with_token, different, two_members,
}

module _ (num : Num) where
  open num use {F}

  -- One more move at its transaction, as `by_tx` does it.
  abbrev step : InsideMove num → Assoc (Tx num) → Assoc (Tx num)
  step m txs = put m.tx_hash (add_move num (or_else (get m.tx_hash txs) (no_moves num)) m) txs

  -- The transaction of a hash has been seen with a token.
  abbrev Seen : Assoc (Tx num) → Text → Text → Type 0
  Seen txs h k = (t : Tx num) × (get h txs ≡ some t) × In k t.tokens

  Seen-step_new : (m : InsideMove num) (txs : Assoc (Tx num)) → Seen (step m txs) m.tx_hash m.token
  unfolding add_move
  Seen-step_new m txs =
      let old = or_else (get m.tx_hash txs) (no_moves num) in
      (
        add_move num old m,
        get-put_same m.tx_hash (add_move num old m) txs,
        In-with_token m.token old.tokens,
      )

  Seen-step_old :
      (m : InsideMove num) (txs : Assoc (Tx num)) (h k : Text)
      → Seen txs h k
      → Seen (step m txs) h k
  unfolding add_move
  Seen-step_old m txs h k (t, e, i) = elim (Bool-cases (text_eq m.tx_hash h)) [
    | inl s ↦
        let q = (text_eq_iff m.tx_hash h).0 s in
        let old = or_else (get m.tx_hash txs) (no_moves num) in
        let o : get m.tx_hash txs ≡ some t = rw q e in
        let i' : In k old.tokens = rw o i in
        (
          add_move num old m,
          ap (λ x. get x (step m txs)) (sym q) ∙ get-put_same m.tx_hash (add_move num old m) txs,
          In-with_token_old m.token k old.tokens i',
        )
    | inr s ↦ (t, get-put m.tx_hash h _ txs ∙ rw s e, i)
  ]

  Seen-by_tx :
      (ms : List (InsideMove num)) (txs : Assoc (Tx num)) (h k : Text)
      → Seen txs h k
      → Seen (by_tx num txs ms) h k
  unfolding by_tx
  Seen-by_tx [] txs h k s = s
  Seen-by_tx (m ∷ ms) txs h k s = Seen-by_tx ms (step m txs) h k (Seen-step_old m txs h k s)

  In-by_tx :
      (m : InsideMove num) (ms : List (InsideMove num)) (txs : Assoc (Tx num))
      → In m ms
      → Seen (by_tx num txs ms) m.tx_hash m.token
  unfolding by_tx
  In-by_tx m [] txs h = absurd h
  In-by_tx m (n ∷ ms) txs (inl e) =
      let s = Seen-by_tx ms (step n txs) n.tx_hash n.token (Seen-step_new n txs) in
      subst (λ x. Seen (by_tx num (step n txs) ms) x.tx_hash x.token) (sym e) s
  In-by_tx m (n ∷ ms) txs (inr h) = In-by_tx m ms (step n txs) h

  -- How many transactions are manual.
  unfoldable manual : List Text → Assoc (Tx num) → ℕ
  manual fired [] = 0
  manual fired ((h, t) ∷ txs) = (if is_manual num fired h t then 1 else 0) + manual fired txs

  sum_up-manual :
      (fired : List Text) (txs : Assoc (Tx num)) (acc : Inside num)
      → (sum_up num fired acc txs).manual_txs ≡ acc.manual_txs + manual fired txs
  unfolding sum_up manual
  sum_up-manual fired [] acc = omega arith
  sum_up-manual fired ((h, t) ∷ txs) acc = elim (Bool-cases (is_manual num fired h t)) [
    | inl e ↦ sum_up-manual fired txs _ ∙ rw e (omega arith)
    | inr e ↦ sum_up-manual fired txs _ ∙ rw e (omega arith)
  ]

  get-manual :
      (fired : List Text) (txs : Assoc (Tx num)) (h : Text) (t : Tx num)
      → get h txs ≡ some t
      → is_manual num fired h t ≡ true
      → 1 ≤ manual fired txs
  unfolding get manual
  get-manual fired [] h t g e = cc
  get-manual fired ((j, u) ∷ txs) h t g e = elim (Bool-cases (text_eq j h)) [
    | inl s ↦
        let q = (text_eq_iff j h).0 s in
        let g' : some u ≡ some t = rw s at g in
        let w : u ≡ t = cc in
        let m : is_manual num fired j u ≡ true = rw (q, w) e in rw m (omega arith)
    | inr s ↦ let ih = get-manual fired txs h t (rw s at g) e in omega (arith, ih)
  ]

  -- Each token of a transaction came with a move of it.
  abbrev From : List (InsideMove num) → Text → Tx num → Type 0
  From ms h t =
      Distinct t.tokens
      × ((k : Text)
          → In k t.tokens
          → (m : InsideMove num) × In m ms × (m.tx_hash ≡ h) × (m.token ≡ k))

  From-add_move :
      (ms : List (InsideMove num)) (m : InsideMove num) (t : Tx num)
      → In m ms
      → From ms m.tx_hash t
      → From ms m.tx_hash (add_move num t m)
  unfolding add_move
  From-add_move ms m t i (d, f) = (
    Distinct-with_token m.token t.tokens d,
    λ k h. elim (In-of_with_token m.token k t.tokens h) [
      | inl e ↦ (m, i, refl, sym e)
      | inr o ↦ f k o
    ],
  )

  From-by_tx :
      (all ms : List (InsideMove num)) (txs : Assoc (Tx num))
      → ((m : InsideMove num) → In m ms → In m all)
      → All (λ e. From all e.0 e.1) txs
      → All (λ e. From all e.0 e.1) (by_tx num txs ms)
  unfolding by_tx
  From-by_tx all [] txs sub h = h
  From-by_tx all (m ∷ ms) txs sub h =
      let old : From all m.tx_hash (or_else (get m.tx_hash txs) (no_moves num)) =
        elim (Option-cases (get m.tx_hash txs)) [
          | inl e ↦ rw e (tt, λ k i. absurd i)
          | inr (t, e) ↦ rw e (All-get (From all) m.tx_hash t txs h e)
        ] in
      From-by_tx all ms (step m txs) (λ n i. sub n (inr i))
        (All-put (From all) m.tx_hash _ txs h (From-add_move all m _ (sub m (inl refl)) old))

  -- Two moves of one transaction that the autopilot did not fire, in different tokens.
  abbrev pub ManualSwap : List (InsideMove num) → List Text → Type 0
  ManualSwap moves fired =
      (m n : InsideMove num) × In m moves
      × In n moves
      × (m.tx_hash ≡ n.tx_hash)
      × (m.token ≢ n.token)
      × (member m.tx_hash fired ≡ false)

  two_tokens :
      (xs : List Text)
      → Distinct xs
      → leb 2 (length xs) ≡ true
      → (x y : Text) × In x xs × In y xs × (x ≢ y)
  two_tokens [] d h = cc
  two_tokens (x ∷ []) d h = cc
  two_tokens (x ∷ y ∷ xs) (d, ds) h = (x, y, inl refl, inr (inl refl), different x y xs d)

  manual-From :
      (all : List (InsideMove num)) (fired : List Text) (txs : Assoc (Tx num))
      → All (λ e. From all e.0 e.1) txs
      → 1 ≤ manual fired txs
      → ManualSwap all fired
  unfolding manual
  manual-From all fired [] h k = ground arith
  manual-From all fired ((j, t) ∷ txs) ((d, f), hs) k =
      elim (Bool-cases (is_manual num fired j t)) [
        | inl e ↦
            let (nf, big) = and-true (not (member j fired)) (leb 2 (length t.tokens)) e in
            let (x, y, ix, iy, ne) = two_tokens t.tokens d big in
            let (m, im, hm, em) = f x ix in
            let (n, ni, hn, en) = f y iy in
            (m, n, im, ni, hm ∙ sym hn, rw (em, en) ne, rw hm (ground arith))
        | inr e ↦ manual-From all fired txs hs (let k' = rw e at k in omega (arith, k'))
      ]

  inside_moves-manual :
      (moves : List (InsideMove num)) (fired : List Text)
      → (inside_moves num moves fired).manual_txs ≡ manual fired (by_tx num [] moves)
  unfolding inside_moves
  inside_moves-manual moves fired =
      sum_up-manual fired (by_tx num [] moves)
        (record { manual_txs = 0; swap_edge_usd = num.lit 0 0 })
      ∙ omega arith

  ManualSwap-manual :
      (moves : List (InsideMove num)) (fired : List Text)
      → ManualSwap moves fired
      → 1 ≤ manual fired (by_tx num [] moves)
  ManualSwap-manual moves fired (m, n, im, ni, same, ne, free) =
      let (t, g, mt) = In-by_tx m moves [] im in
      let (u, g', nu) = In-by_tx n moves [] ni in
      let w : some t ≡ some u = sym g ∙ ap (λ h. get h (by_tx num [] moves)) same ∙ g' in
      let e : t ≡ u = cc in
      let nt : In n.token t.tokens = rw e nu in
      let big = two_members m.token n.token t.tokens ne mt nt in
      get-manual fired (by_tx num [] moves) m.tx_hash t g (rw (free, big) refl)

  -- An entry has a manual transaction exactly when two of its inside moves, of one transaction that
  -- the autopilot did not fire, are in different tokens.
  pub manual_txs_iff :
      (moves : List (InsideMove num)) (fired : List Text)
      → (1 ≤ (inside_moves num moves fired).manual_txs) ↔ ManualSwap moves fired
  manual_txs_iff moves fired = rw (inside_moves-manual moves fired) (
    λ h. manual-From moves fired (by_tx num [] moves) (From-by_tx moves moves [] (λ m i. i) tt) h,
    ManualSwap-manual moves fired,
  )
