-- ===== src/Core/Permissions/Exact/Sound.antt =====
-- packages/core/src/permissions.ts: a call is granted only where an action makes it.
use koul.Base.{
  ◌≡◌, ◌⊎◌, inl, inr, refl, Bool, true, false, not, ◌||◌, List, [], ◌∷◌, ◌++◌, arith, Text, any, In,
  In-append, In-of_map, is_nil,
}
use koul.Core.Schema.{Action}
use koul.Core.Permissions.Defs.{
  Contracts, Call, call, transfer_of, given, withdraws, supplies, repays, swap_inputs, unique,
  calls,
}
use koul.Core.Permissions.Calls.{aggregator_of}
use koul.Core.Permissions.Sets.{In-of_given, In-unique_iff}
use koul.Core.Permissions.Actions.{
  In-of_swap_inputs, withdraw_call, supply_call, repay_call, supply_transfer, repay_transfer,
  swap_calls, Made, Made-of_any,
}

pub some_of_not_nil : {A : Type 0} (xs : List A) → not (is_nil xs) ≡ true → (x : A) × In x xs
some_of_not_nil [] h = cc
some_of_not_nil (x ∷ xs) h = (x, inl refl)

pub not_nil_of_In : {A : Type 0} (x : A) (xs : List A) → In x xs → not (is_nil xs) ≡ true
not_nil_of_In x [] h = absurd h
not_nil_of_In x (y ∷ ys) h = refl

pub or-cases : (a b : Bool) → (a || b) ≡ true → (a ≡ true) ⊎ (b ≡ true)
or-cases a b h = ground arith

module _ (c : Contracts) (as_ : List Action) where
  abbrev pub inputs : List Text
  inputs = unique (swap_inputs c.usdc as_)

  abbrev pub moves : Bool
  moves = any supplies as_ || any repays as_

  abbrev pub all_calls : List Call
  all_calls = calls c as_ (any withdraws as_) (any supplies as_) (any repays as_) inputs

  pub one_of : (b : Bool) (x k : Call) → In k (given b (x ∷ [])) → (b ≡ true) × (k ≡ x)
  one_of true x k (inl e) = (refl, e)
  one_of true x k (inr h) = absurd h
  one_of false x k h = absurd h

  pub Made-by_swap :
      (x : Text)
      → In x inputs
      → Made c as_ (call (aggregator_of c) "execute_strategy") × Made c as_ (transfer_of x)
  Made-by_swap x i =
      let (a, listed, takes) =
        In-of_swap_inputs c x as_ ((In-unique_iff x (swap_inputs c.usdc as_)).0 i) in
      let (exec, transfer) = swap_calls c x a takes in ((a, listed, exec), (a, listed, transfer))

  pub Made-by_move : moves ≡ true → Made c as_ (transfer_of c.usdc)
  Made-by_move h = elim (or-cases (any supplies as_) (any repays as_) h) [
    | inl s ↦ Made-of_any c supplies (transfer_of c.usdc) as_ (supply_transfer c) s
    | inr r ↦ Made-of_any c repays (transfer_of c.usdc) as_ (repay_transfer c) r
  ]

  pub Made-transfer :
      (x : Text) → In x (unique (given moves (c.usdc ∷ []) ++ inputs)) → Made c as_ (transfer_of x)
  Made-transfer x i =
      elim (In-append x (given moves (c.usdc ∷ [])) inputs
        ((In-unique_iff x (given moves (c.usdc ∷ []) ++ inputs)).0 i)) [
          | inl m ↦ made_usdc (In-of_given moves x (c.usdc ∷ []) m)
          | inr s ↦ (Made-by_swap x s).1
        ]
    where
      made_usdc : (moves ≡ true) × In x (c.usdc ∷ []) → Made c as_ (transfer_of x)
      made_usdc (h, inl e) = rw e (Made-by_move h)
      made_usdc (h, inr k) = absurd k

  pub calls_sound : (k : Call) → In k all_calls → (k ≡ call c.router "tick") ⊎ Made c as_ k
  unfolding calls
  calls_sound k (inl e) = inl e
  calls_sound k (inr h) =
      elim (In-append k (given (any withdraws as_) (call c.controller "withdraw" ∷ [])) _ h) [
        | inl w ↦
            let (b, e) = one_of _ _ k w in
            inr (rw e (Made-of_any c withdraws _ as_ (withdraw_call c) b))
        | inr h1 ↦
            elim (In-append k (given (any supplies as_) (call c.controller "supply" ∷ [])) _ h1) [
              | inl w ↦
                  let (b, e) = one_of _ _ k w in
                  inr (rw e (Made-of_any c supplies _ as_ (supply_call c) b))
              | inr h2 ↦
                  elim (In-append k (given (any repays as_) (call c.controller "repay" ∷ [])) _
                    h2) [
                      | inl w ↦
                          let (b, e) = one_of _ _ k w in
                          inr (rw e (Made-of_any c repays _ as_ (repay_call c) b))
                      | inr h3 ↦
                          elim (In-append k
                            (given (not (is_nil inputs))
                              (call (aggregator_of c) "execute_strategy" ∷ []))
                            _ h3) [
                              | inl w ↦
                                  let (b, e) = one_of _ _ k w in
                                  let (x, i) = some_of_not_nil inputs b in
                                  inr (rw e (Made-by_swap x i).0)
                              | inr h4 ↦
                                  let (x, i, e) = In-of_map transfer_of k _ h4 in
                                  inr (rw e (Made-transfer x i))
                            ]
                    ]
            ]
      ]
