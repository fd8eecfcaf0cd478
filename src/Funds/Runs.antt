-- ===== src/Funds/Runs.antt =====
-- packages/core/src/funds.ts, `getStatus`: the calls of `advance` on one record, one after another, as its
-- lock makes them, each on the record that the one before left.
use koul.Base.{
  ℕ, zero, suc, true, Option, none, some, List, [], ◌∷◌, ◌++◌, Text, truthy, if◌then◌else◌, ◌≡◌,
  refl, ap,
}
use koul.Funds.State.{FundsRecord}
use koul.Funds.Advance.{Answers, is_terminal, advance}
use koul.Funds.Laws.{forwards}

-- What n calls of `submitPreauthorized` came to
abbrev pub outcomes : ℕ → Option Text → List (Option Text)
outcomes zero o = []
outcomes (suc n) o = o ∷ outcomes n o

-- The record after the calls, and what each call of `submitPreauthorized` for the forward came to: the hash it
-- returned, or none where it threw, which it also does after the relay took the envelope.
unfoldable pub polls : List Answers → FundsRecord → FundsRecord × List (Option Text)
polls [] r = (r, [])
polls (a ∷ answers) r =
    let out = advance a r in
    let (last, called) = polls answers out.record_ in
    (last, outcomes (forwards out.effects) a.forward ++ called)

-- Each call but the last one threw.
abbrev pub IsRetry : List (Option Text) → Type 0
IsRetry [] = Unit
IsRetry (none ∷ called) = IsRetry called
IsRetry (some h ∷ called) = called ≡ []

-- With the hash that the record had before
abbrev pub since : Option Text → List (Option Text) → List (Option Text)
since hash called = if truthy hash then hash ∷ called else called

-- The relay's hash is a text with something in it.
abbrev pub IsHash : Option Text → Type 0
IsHash none = Unit
IsHash (some h) = truthy (some h) ≡ true

advance-terminal :
    (a : Answers) (r : FundsRecord)
    → is_terminal r.stage ≡ true
    → ((advance a r).record_ ≡ r) × ((advance a r).effects ≡ [])
unfolding advance
advance-terminal a r h = rw h (refl, refl)

-- A completed or failed transfer sends no forward.
pub polls-terminal :
    (answers : List Answers) (r : FundsRecord)
    → is_terminal r.stage ≡ true
    → (polls answers r).1 ≡ []
unfolding polls forwards
polls-terminal [] r h = refl
polls-terminal (a ∷ answers) r h =
    let (k, e) = advance-terminal a r h in
    let n : forwards (advance a r).effects ≡ 0 = ap forwards e in
    rw (n, k) (polls-terminal answers r h)
