-- ===== src/Core/Permissions/Exact.antt =====
-- The allowed calls of an autopilot, in both directions.
mod Sound
use koul.Base.{
  ◌≡◌, ◌↔◌, ◌⊎◌, inl, inr, refl, sym, ap, Bool, true, false, not, ◌&&◌, ◌||◌, List, [], ◌∷◌, ◌++◌,
  arith, Text, any, In, In-append, In-append_left, In-append_right, any_of_In, In-map, In-of_map,
  is_nil, Bool-cases, truthy,
}
use koul.Core.Schema.{
  Action, move_supply, supply_from_wallet, repay_from_wallet, repay_with_collateral,
  withdraw_to_wallet, swap_from_wallet, withdraw_and_swap, Autopilot,
}
use koul.Core.Validate.{validate}
use koul.Core.Permissions.Defs.{
  Contracts, Permissions, Call, call, transfer_of, ok, given, withdraws, supplies, repays,
  swap_input, swap_inputs, unique, calls, granted, permissions_for, actions_of,
}
use koul.Core.Permissions.Calls.{aggregator_of, calls_of}
use koul.Core.Permissions.Sets.{In-given, In-of_given, In-unique_iff}
use koul.Core.Permissions.Actions.{
  In-swap_inputs, In-of_swap_inputs, withdraw_call, supply_call, repay_call, supply_transfer,
  repay_transfer, swap_calls, Made, Made-of_any,
}
pub use koul.Core.Permissions.Exact.Sound.{inputs, moves, all_calls, not_nil_of_In}
use koul.Core.Permissions.Exact.Sound.{or-cases, calls_sound}

module _ (c : Contracts) (as_ : List Action) where
  at_withdraw : any withdraws as_ ≡ true → In (call c.controller "withdraw") (all_calls c as_)
  unfolding calls
  at_withdraw h = inr (
      In-append_left _ (given (any withdraws as_) (call c.controller "withdraw" ∷ [])) _
        (In-given _ _ _ h (inl refl)))

  at_supply : any supplies as_ ≡ true → In (call c.controller "supply") (all_calls c as_)
  unfolding calls
  at_supply h = inr (
      In-append_right _ (given (any withdraws as_) (call c.controller "withdraw" ∷ [])) _ (
        In-append_left _ (given (any supplies as_) (call c.controller "supply" ∷ [])) _
          (In-given _ _ _ h (inl refl))))

  at_repay : any repays as_ ≡ true → In (call c.controller "repay") (all_calls c as_)
  unfolding calls
  at_repay h = inr (
      In-append_right _ (given (any withdraws as_) (call c.controller "withdraw" ∷ [])) _ (
        In-append_right _ (given (any supplies as_) (call c.controller "supply" ∷ [])) _ (
          In-append_left _ (given (any repays as_) (call c.controller "repay" ∷ [])) _
            (In-given _ _ _ h (inl refl)))))

  at_swap :
      (x : Text)
      → In x (inputs c as_)
      → In (call (aggregator_of c) "execute_strategy") (all_calls c as_)
  unfolding calls
  at_swap x i = inr (
      In-append_right _ (given (any withdraws as_) (call c.controller "withdraw" ∷ [])) _ (
        In-append_right _ (given (any supplies as_) (call c.controller "supply" ∷ [])) _ (
          In-append_right _ (given (any repays as_) (call c.controller "repay" ∷ [])) _ (
            In-append_left _
              (given (not (is_nil (inputs c as_))) (call (aggregator_of c) "execute_strategy" ∷ []))
              _ (In-given _ _ _ (not_nil_of_In x (inputs c as_) i) (inl refl))))))

  at_transfer :
      (x : Text)
      → In x (given (moves c as_) (c.usdc ∷ []) ++ (inputs c as_))
      → In (transfer_of x) (all_calls c as_)
  unfolding calls
  at_transfer x i = inr (
      In-append_right _ (given (any withdraws as_) (call c.controller "withdraw" ∷ [])) _ (
        In-append_right _ (given (any supplies as_) (call c.controller "supply" ∷ [])) _ (
          In-append_right _ (given (any repays as_) (call c.controller "repay" ∷ [])) _ (
            In-append_right _
              (given (not (is_nil (inputs c as_))) (call (aggregator_of c) "execute_strategy" ∷ []))
              _
              (In-map transfer_of x (unique (given (moves c as_) (c.usdc ∷ []) ++ (inputs c as_)))
                ((In-unique_iff x (given (moves c as_) (c.usdc ∷ []) ++ (inputs c as_))).1 i))))))

  at_usdc : (moves c as_) ≡ true → In (transfer_of c.usdc) (all_calls c as_)
  at_usdc h = at_transfer c.usdc (
      In-append_left c.usdc (given (moves c as_) (c.usdc ∷ [])) (inputs c as_)
        (In-given _ _ _ h (inl refl)))

  module _ (a : Action) (i : In a as_) where
    pub input_of : (x : Text) → In x (swap_input c.usdc a) → In x (inputs c as_)
    input_of x h = (In-unique_iff x (swap_inputs c.usdc as_)).1 (In-swap_inputs c x a as_ i h)

    at_swapped : (x : Text) → In x (swap_input c.usdc a) → In (transfer_of x) (all_calls c as_)
    at_swapped x h =
        at_transfer x
          (In-append_right x (given (moves c as_) (c.usdc ∷ [])) (inputs c as_) (input_of x h))

    pub moved : (supplies a || repays a) ≡ true → (moves c as_) ≡ true
    moved h = elim (or-cases (supplies a) (repays a) h) [
      | inl s ↦ let e = any_of_In supplies a as_ i s in ground arith
      | inr r ↦ let e = any_of_In repays a as_ i r in ground arith
    ]

  pub calls_complete :
      (a : Action) (k : Call) → In a as_ → In k (calls_of c a) → In k (all_calls c as_)
  unfolding withdraws supplies repays swap_input
  calls_complete (move_supply from to x) k i (inl e) =
      rw e (at_withdraw (any_of_In withdraws (move_supply from to x) as_ i refl))
  calls_complete (move_supply from to x) k i (inr (inl e)) =
      rw e (at_supply (any_of_In supplies (move_supply from to x) as_ i refl))
  calls_complete (move_supply from to x) k i (inr (inr (inl e))) =
      rw e (at_usdc (moved (move_supply from to x) i refl))
  calls_complete (move_supply from to x) k i (inr (inr (inr h))) = absurd h
  calls_complete (supply_from_wallet hub x) k i (inl e) =
      rw e (at_supply (any_of_In supplies (supply_from_wallet hub x) as_ i refl))
  calls_complete (supply_from_wallet hub x) k i (inr (inl e)) =
      rw e (at_usdc (moved (supply_from_wallet hub x) i refl))
  calls_complete (supply_from_wallet hub x) k i (inr (inr h)) = absurd h
  calls_complete (repay_from_wallet hub x) k i (inl e) =
      rw e (at_repay (any_of_In repays (repay_from_wallet hub x) as_ i refl))
  calls_complete (repay_from_wallet hub x) k i (inr (inl e)) =
      rw e (at_usdc (moved (repay_from_wallet hub x) i refl))
  calls_complete (repay_from_wallet hub x) k i (inr (inr h)) = absurd h
  calls_complete (repay_with_collateral from to x) k i (inl e) =
      rw e (at_withdraw (any_of_In withdraws (repay_with_collateral from to x) as_ i refl))
  calls_complete (repay_with_collateral from to x) k i (inr (inl e)) =
      rw e (at_repay (any_of_In repays (repay_with_collateral from to x) as_ i refl))
  calls_complete (repay_with_collateral from to x) k i (inr (inr (inl e))) =
      rw e (at_usdc (moved (repay_with_collateral from to x) i refl))
  calls_complete (repay_with_collateral from to x) k i (inr (inr (inr h))) = absurd h
  calls_complete (withdraw_to_wallet hub x) k i (inl e) =
      rw e (at_withdraw (any_of_In withdraws (withdraw_to_wallet hub x) as_ i refl))
  calls_complete (withdraw_to_wallet hub x) k i (inr h) = absurd h
  calls_complete (swap_from_wallet tin tout x bps) k i (inl e) =
      rw e (at_swap tin (input_of (swap_from_wallet tin tout x bps) i tin (inl refl)))
  calls_complete (swap_from_wallet tin tout x bps) k i (inr (inl e)) =
      rw e (at_swapped (swap_from_wallet tin tout x bps) i tin (inl refl))
  calls_complete (swap_from_wallet tin tout x bps) k i (inr (inr h)) = absurd h
  calls_complete (withdraw_and_swap hub tout x bps) k i (inl e) =
      rw e (at_withdraw (any_of_In withdraws (withdraw_and_swap hub tout x bps) as_ i refl))
  calls_complete (withdraw_and_swap hub tout x bps) k i (inr (inl e)) =
      rw e (at_swap c.usdc (input_of (withdraw_and_swap hub tout x bps) i c.usdc (inl refl)))
  calls_complete (withdraw_and_swap hub tout x bps) k i (inr (inr (inl e))) =
      rw e (at_swapped (withdraw_and_swap hub tout x bps) i c.usdc (inl refl))
  calls_complete (withdraw_and_swap hub tout x bps) k i (inr (inr (inr h))) = absurd h

pub ok-injective : {A : Type 0} {a b : A} → ok a ≡ ok b → a ≡ b
ok-injective h = cc

pub granted-calls :
    (c : Contracts) (as_ : List Action) (p : Permissions)
    → granted c as_ ≡ ok p
    → p.allowed_calls ≡ all_calls c as_
unfolding granted
granted-calls c as_ p h =
    elim (Bool-cases (not (is_nil (inputs c as_)) && not (truthy c.aggregator))) [
      | inl e ↦ cc (rw e at h)
      | inr e ↦ sym (ap (λ (q : Permissions). q.allowed_calls) (ok-injective (rw e at h)))
    ]

pub granted_of :
    (auto : Autopilot) (c : Contracts) (p : Permissions)
    → permissions_for auto c ≡ ok p
    → granted c (actions_of auto.rules) ≡ ok p
unfolding permissions_for
granted_of auto c p h = elim (Bool-cases (is_nil (validate auto))) [
  | inl e ↦ rw e at h
  | inr e ↦ cc (rw e at h)
]

-- The key of an autopilot is allowed exactly the router's `tick` and the calls that the actions of
-- its rules make: nothing that an action needs is missing, and nothing else is granted.
pub permissions_for-exact :
    (auto : Autopilot) (c : Contracts) (p : Permissions) (k : Call)
    → permissions_for auto c ≡ ok p
    → In k p.allowed_calls ↔ ((k ≡ call c.router "tick") ⊎ Made c (actions_of auto.rules) k)
permissions_for-exact auto c p k h =
    let as_ = actions_of auto.rules in
    let same = granted-calls c as_ p (granted_of auto c p h) in
    rw same (
      calls_sound c as_ k,
      λ s. elim s [
        | inl e ↦ unfold calls in inl e
        | inr (a, i, made) ↦ calls_complete c as_ a k i made
      ],
    )
