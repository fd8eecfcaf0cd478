-- ===== src/Keeper/Pass/Laws.antt =====
-- keeper/src/keeper.ts: the shuffle loses no wallet, and each planned wallet has one worker.
use koul.Base.{
  ℕ, zero, suc, ◌+◌, ◌-◌, ◌%◌, ◌<◌, Bool, false, ◌&&◌, leb, ltb, Option, some, List, [], ◌∷◌, ◌++◌,
  length, get_elem?, set, if◌then◌else◌, ◌≡◌, refl, sym, ◌∙◌, arith, Text, Assoc, Option-cases, inl,
  inr, Num,
}
use native.Mathlib.Nat.{mod-lt}
use koul.Core.Swap.{SwapSdk, SwapRequest, ServerQuote}
use koul.Keeper.State.{Due, Chain, Grant, KeeperState}
use koul.Keeper.Submit.{submit_user, idle}
use koul.Keeper.Pass.{
  swap, shuffle_from, shuffle, shard, share, Config, parallel, submit_wallets, run_workers,
  hash_from,
}

module _ {A : Type 0} (p : A → Bool) where
  abbrev one : A → ℕ
  one x = if p x then 1 else 0

  -- How many items pass the test
  abbrev pub count : List A → ℕ
  count [] = 0
  count (x ∷ xs) = one x + count xs

  pub count-append : (xs ys : List A) → count (xs ++ ys) ≡ count xs + count ys
  count-append [] ys = omega arith
  count-append (x ∷ xs) ys = omega (arith, count-append xs ys)

  count-set :
      (xs : List A) (i : ℕ) (a v : A)
      → get_elem? xs i ≡ some a
      → count (set xs i v) + one a ≡ count xs + one v
  count-set [] i a v h = cc
  count-set (x ∷ xs) zero a v h = let e : x ≡ a = cc in rw e (omega arith)
  count-set (x ∷ xs) (suc i) a v h = omega (arith, count-set xs i a v h)

  get_elem?-set :
      (xs : List A) (i j : ℕ) (b : A) → get_elem? xs j ≡ some b → get_elem? (set xs i b) j ≡ some b
  get_elem?-set [] i j b h = cc
  get_elem?-set (x ∷ xs) zero zero b h = refl
  get_elem?-set (x ∷ xs) zero (suc j) b h = h
  get_elem?-set (x ∷ xs) (suc i) zero b h = h
  get_elem?-set (x ∷ xs) (suc i) (suc j) b h = get_elem?-set xs i j b h

  count-swap : (i j : ℕ) (xs : List A) → count (swap i j xs) ≡ count xs
  unfolding swap
  count-swap i j xs = elim (Option-cases (get_elem? xs i)) [
    | inl e ↦ rw e refl
    | inr (a, e) ↦ elim (Option-cases (get_elem? xs j)) [
      | inl f ↦ rw (e, f) refl
      | inr (b, f) ↦
          rw (e, f)
            (omega (
              arith,
              count-set xs i a b e,
              count-set (set xs i b) j b a (get_elem?-set xs i j b f),
            ))
    ]
  ]

  count-shuffle_from :
      (pick : ℕ → ℕ) (i : ℕ) (xs : List A) → count (shuffle_from pick i xs) ≡ count xs
  unfolding shuffle_from
  count-shuffle_from pick zero xs = refl
  count-shuffle_from pick (suc i) xs =
      count-shuffle_from pick i (swap (suc i) (pick (suc i)) xs)
      ∙ count-swap (suc i) (pick (suc i)) xs

  -- Whatever is picked, a shuffled list has the same items as often: any test counts the same.
  pub count-shuffle : (pick : ℕ → ℕ) (xs : List A) → count (shuffle pick xs) ≡ count xs
  unfolding shuffle
  count-shuffle pick xs = count-shuffle_from pick (length xs - 1) xs

-- One of the workers from w to w + k - 1
abbrev within : ℕ → ℕ → ℕ → Bool
within k w s = leb w s && ltb s (w + k)

module _ {P : Type 0} (n : ℕ) where
  -- What the workers from w on take, one after another
  unfoldable pub shares : ℕ → ℕ → Assoc P → Assoc P
  shares zero w planned = []
  shares (suc k) w planned = share n w planned ++ shares k (w + 1) planned

  abbrev assigned : (Text × P → Bool) → ℕ → ℕ → Text × P → Bool
  assigned test k w e = test e && within k w (shard n e.0)

  count-none : (test : Text × P → Bool) (w : ℕ) (es : Assoc P) → count (assigned test 0 w) es ≡ 0
  count-none test w [] = refl
  count-none test w (e ∷ es) =
      let no : within 0 w (shard n e.0) ≡ false = ground arith in
      let ih = count-none test w es in ground arith

  count-one_more :
      (test : Text × P → Bool) (k w : ℕ) (es : Assoc P)
      → count test (share n w es) + count (assigned test k (w + 1)) es
        ≡ count (assigned test (suc k) w) es
  unfolding share
  count-one_more test k w [] = refl
  count-one_more test k w (e ∷ es) = let ih = count-one_more test k w es in ground arith

  count-shares :
      (test : Text × P → Bool) (k w : ℕ) (planned : Assoc P)
      → count test (shares k w planned) ≡ count (assigned test k w) planned
  unfolding shares
  count-shares test zero w planned = sym (count-none test w planned)
  count-shares test (suc k) w planned = omega (
    arith,
    count-append test (share n w planned) (shares k (w + 1) planned),
    count-shares test k (w + 1) planned,
    count-one_more test k w planned,
  )

  count-all :
      (test : Text × P → Bool) (es : Assoc P) → 0 < n → count (assigned test n 0) es ≡ count test es
  unfolding shard
  count-all test [] h = refl
  count-all test (e ∷ es) h =
      let ih = count-all test es h in
      let below : hash_from 7 e.0 % n < n = mod-lt (hash_from 7 e.0) h in ground arith

module _ (num : Num) (sdk : SwapSdk) (chain : Chain)
    (ask_quote : SwapRequest num sdk → chain.W → Option (ServerQuote num sdk) × chain.W)
    (config : Config) where
  submit_wallets-append :
      (xs ys : Assoc (Grant chain × List Due)) (st : KeeperState chain)
      → submit_wallets num sdk chain ask_quote config (xs ++ ys) st
        ≡ submit_wallets num sdk chain ask_quote config ys
            (submit_wallets num sdk chain ask_quote config xs st)
  unfolding submit_wallets
  submit_wallets-append [] ys st = refl
  submit_wallets-append ((user, (grant, due)) ∷ xs) ys st =
      submit_wallets-append xs ys (submit_user chain (idle chain) user grant due st)

  run_workers-shares :
      (k w : ℕ) (planned : Assoc (Grant chain × List Due)) (st : KeeperState chain)
      → run_workers num sdk chain ask_quote config k w planned st
        ≡ submit_wallets num sdk chain ask_quote config (shares (parallel config) k w planned) st
  unfolding run_workers shares submit_wallets
  run_workers-shares zero w planned st = refl
  run_workers-shares (suc k) w planned st =
      run_workers-shares k (w + 1) planned
        (submit_wallets num sdk chain ask_quote config (share (parallel config) w planned) st)
      ∙ sym (
          submit_wallets-append (share (parallel config) w planned)
            (shares (parallel config) k (w + 1) planned) st)

  -- The workers together submit for the planned wallets in some order in which every wallet stands as often
  -- as it was planned: none is left out and none is given to two workers.
  pub run_workers_lem :
      (planned : Assoc (Grant chain × List Due)) (st : KeeperState chain)
      → (order : Assoc (Grant chain × List Due)) × (run_workers num sdk chain ask_quote config
            (parallel config)
            0
            planned
            st
          ≡ submit_wallets num sdk chain ask_quote config order st)
        × ((test : Text × (Grant chain × List Due) → Bool) → count test order ≡ count test planned)
  run_workers_lem planned st = (
    shares (parallel config) (parallel config) 0 planned,
    run_workers-shares (parallel config) 0 planned st,
    λ test.
        count-shares (parallel config) test (parallel config) 0 planned
        ∙ count-all (parallel config) test planned (omega arith),
  )
