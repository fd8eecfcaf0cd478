-- ===== src/Competition/Value/Laws.antt =====
-- What a value counts and what it lists as having no price.
use koul.Base.{
  ◌≡◌, refl, sym, ap, ◌∙◌, Bool, true, false, Option, none, some, not, ◌&&◌, List, [], ◌∷◌, ◌++◌,
  append_assoc, append-nil, Text, or_else, get, pos, is_zero_ℤ, is_some, keep, Bool-cases,
  Option-cases, inl, inr, Num, if◌then◌else◌,
}
use koul.Competition.Value.{
  ScoredToken, Holdings, Prices, Valued, units, finite_price, price_of, add_token, add_tokens,
  value_usd,
}

module _ (num : Num) (h : Holdings) (prices : Prices num) where
  abbrev pub is_held : ScoredToken → Bool
  is_held t = not (is_zero_ℤ (or_else (get t.symbol h.tokens) (pos 0)))

  -- The token's feed has a price, and it is finite; a token without a feed is worth 1.
  unfoldable pub is_priced : ScoredToken → Bool
  is_priced t = elim t.feed [
    | none ↦ num.is_finite (num.lit 1 0)
    | some feed ↦ elim (get feed prices) [ none ↦ false | some p ↦ num.is_finite p ]
  ]

  price_of-is_priced : (t : ScoredToken) → is_some (price_of num t prices) ≡ is_priced t
  unfolding price_of is_priced
  price_of-is_priced t =
      elim t.feed
        as (λ f.
          is_some
            (finite_price num (elim f [ none ↦ some (num.lit 1 0) | some feed ↦ get feed prices ]))
          ≡ (elim f [
            | none ↦ num.is_finite (num.lit 1 0)
            | some feed ↦ elim (get feed prices) [ none ↦ false | some p ↦ num.is_finite p ]
          ])) [ none ↦ finite (some (num.lit 1 0)) | some feed ↦ finite (get feed prices) ]
    where
      finite :
          (o : Option num.F)
          → is_some (finite_price num o) ≡ (elim o [ none ↦ false | some p ↦ num.is_finite p ])
      finite none = refl
      finite (some p) = elim (Bool-cases (num.is_finite p)) [
        | inl e ↦ rw e refl
        | inr e ↦ rw e refl
      ]

  abbrev pub symbols : List ScoredToken → List Text
  symbols [] = []
  symbols (t ∷ ts) = t.symbol ∷ symbols ts

  abbrev pub is_missed : ScoredToken → Bool
  is_missed t = is_held t && not (is_priced t)

  abbrev pub is_counted : ScoredToken → Bool
  is_counted t = is_held t && is_priced t

  abbrev pub rest_of : ScoredToken → Bool → List Text
  rest_of t b = if b then t.symbol ∷ [] else []

  not_priced : (t : ScoredToken) → price_of num t prices ≡ none → is_priced t ≡ false
  not_priced t k = sym (price_of-is_priced t) ∙ ap is_some k

  priced : (t : ScoredToken) {p : num.F} → price_of num t prices ≡ some p → is_priced t ≡ true
  priced t k = sym (price_of-is_priced t) ∙ ap is_some k

  unpriced-add_token :
      (v : Valued num) (t : ScoredToken)
      → (add_token num h prices v t).unpriced ≡ v.unpriced ++ rest_of t (is_missed t)
  unfolding add_token
  unpriced-add_token v t = elim (Bool-cases (is_zero_ℤ (or_else (get t.symbol h.tokens) (pos 0)))) [
    | inl e ↦ rw e (sym (append-nil v.unpriced))
    | inr e ↦ elim (Option-cases (price_of num t prices)) [
      | inl k ↦ let q = not_priced t k in rw (e, k, q)
      | inr (p, k) ↦ let q = priced t k in rw (e, k, q) (sym (append-nil v.unpriced))
    ]
  ]

  usd-add_token :
      (v w : Valued num) (t : ScoredToken)
      → v.usd ≡ w.usd
      → (add_token num h prices v t).usd
        ≡ (if is_counted t then add_token num h prices w t else w).usd
  unfolding add_token
  usd-add_token v w t same =
      elim (Bool-cases (is_zero_ℤ (or_else (get t.symbol h.tokens) (pos 0)))) [
        | inl e ↦ rw e same
        | inr e ↦ elim (Option-cases (price_of num t prices)) [
          | inl k ↦ let q = not_priced t k in rw (e, k, q) same
          | inr (p, k) ↦
              let q = priced t k in
              rw (e, k, q)
                (ap
                  (λ x.
                    num.add x
                      (num.mul (units num (or_else (get t.symbol h.tokens) (pos 0)) t.decimals) p))
                  same)
        ]
      ]

  symbols-missed :
      (t : ScoredToken) (ts : List ScoredToken)
      → symbols (keep is_missed (t ∷ ts)) ≡ rest_of t (is_missed t) ++ symbols (keep is_missed ts)
  symbols-missed t ts = elim (Bool-cases (is_missed t)) [ inl e ↦ rw e | inr e ↦ rw e ]

  unpriced-add_tokens :
      (v : Valued num) (ts : List ScoredToken)
      → (add_tokens num h prices v ts).unpriced ≡ v.unpriced ++ symbols (keep is_missed ts)
  unfolding add_tokens
  unpriced-add_tokens v [] = sym (append-nil v.unpriced)
  unpriced-add_tokens v (t ∷ ts) =
      unpriced-add_tokens (add_token num h prices v t) ts
      ∙ rw (unpriced-add_token v t, append_assoc)
          (ap (λ l. v.unpriced ++ l) (sym (symbols-missed t ts)))

  usd-add_tokens :
      (v w : Valued num) (ts : List ScoredToken)
      → v.usd ≡ w.usd
      → (add_tokens num h prices v ts).usd ≡ (add_tokens num h prices w (keep is_counted ts)).usd
  unfolding add_tokens
  usd-add_tokens v w [] same = same
  usd-add_tokens v w (t ∷ ts) same = elim (Bool-cases (is_counted t)) [
    | inl e ↦ rw e (
        usd-add_tokens (add_token num h prices v t) (add_token num h prices w t) ts
          (rw e at (usd-add_token v w t same)))
    | inr e ↦
        rw e (usd-add_tokens (add_token num h prices v t) w ts (rw e at (usd-add_token v w t same)))
  ]

  -- The value lists as unpriced exactly the tokens that the wallet holds and that have no finite
  -- price, in the order of the tokens, and counts them as nothing: without them it is the same.
  pub value_usd-unpriced :
      (tokens : List ScoredToken)
      → ((value_usd num h tokens prices).unpriced ≡ symbols (keep is_missed tokens))
        × ((value_usd num h tokens prices).usd
            ≡ (value_usd num h (keep is_counted tokens) prices).usd)
  unfolding value_usd
  value_usd-unpriced tokens = (unpriced-add_tokens _ tokens, usd-add_tokens _ _ tokens refl)
