-- ===== src/Core/Permissions/Actions.antt =====
-- What one action contributes to each part of the permissions.
use koul.Base.{
  ◌≡◌, inl, inr, refl, ap, Bool, true, List, [], ◌∷◌, Text, any, In, In-append, In-append_left,
  In-append_right, In-of_any,
}
use koul.Core.Schema.{
  Action, move_supply, supply_from_wallet, repay_from_wallet, repay_with_collateral,
  withdraw_to_wallet, swap_from_wallet, withdraw_and_swap,
}
use koul.Core.Permissions.Defs.{
  Contracts, Call, call, transfer_of, withdraws, supplies, repays, swap_input, swap_inputs,
}
use koul.Core.Permissions.Calls.{aggregator_of, calls_of}

module _ (c : Contracts) where
  pub In-swap_inputs :
      (x : Text) (a : Action) (as_ : List Action)
      → In a as_
      → In x (swap_input c.usdc a)
      → In x (swap_inputs c.usdc as_)
  unfolding swap_inputs
  In-swap_inputs x a [] i h = absurd i
  In-swap_inputs x a (b ∷ bs) (inl e) h =
      In-append_left x (swap_input c.usdc b) (swap_inputs c.usdc bs) (rw e at h)
  In-swap_inputs x a (b ∷ bs) (inr i) h =
      In-append_right x (swap_input c.usdc b) (swap_inputs c.usdc bs) (In-swap_inputs x a bs i h)

  pub In-of_swap_inputs :
      (x : Text) (as_ : List Action)
      → In x (swap_inputs c.usdc as_)
      → (a : Action) × In a as_ × In x (swap_input c.usdc a)
  unfolding swap_inputs
  In-of_swap_inputs x [] h = absurd h
  In-of_swap_inputs x (b ∷ bs) h =
      elim (In-append x (swap_input c.usdc b) (swap_inputs c.usdc bs) h) [
        | inl k ↦ (b, inl refl, k)
        | inr k ↦ let (a, i, q) = In-of_swap_inputs x bs k in (a, inr i, q)
      ]

  -- What one action contributes to each part of the list.
  pub withdraw_call :
      (a : Action) → withdraws a ≡ true → In (call c.controller "withdraw") (calls_of c a)
  unfolding withdraws
  withdraw_call (move_supply from to a) h = inl refl
  withdraw_call (repay_with_collateral from to a) h = inl refl
  withdraw_call (withdraw_to_wallet hub a) h = inl refl
  withdraw_call (withdraw_and_swap hub tout a bps) h = inl refl
  withdraw_call _ h = cc

  pub supply_call :
      (a : Action) → supplies a ≡ true → In (call c.controller "supply") (calls_of c a)
  unfolding supplies
  supply_call (move_supply from to a) h = inr (inl refl)
  supply_call (supply_from_wallet hub a) h = inl refl
  supply_call _ h = cc

  pub repay_call : (a : Action) → repays a ≡ true → In (call c.controller "repay") (calls_of c a)
  unfolding repays
  repay_call (repay_from_wallet hub a) h = inl refl
  repay_call (repay_with_collateral from to a) h = inr (inl refl)
  repay_call _ h = cc

  pub supply_transfer :
      (a : Action) → supplies a ≡ true → In (call c.usdc "transfer") (calls_of c a)
  unfolding supplies
  supply_transfer (move_supply from to a) h = inr (inr (inl refl))
  supply_transfer (supply_from_wallet hub a) h = inr (inl refl)
  supply_transfer _ h = cc

  pub repay_transfer : (a : Action) → repays a ≡ true → In (call c.usdc "transfer") (calls_of c a)
  unfolding repays
  repay_transfer (repay_from_wallet hub a) h = inr (inl refl)
  repay_transfer (repay_with_collateral from to a) h = inr (inr (inl refl))
  repay_transfer _ h = cc

  pub swap_calls :
      (x : Text) (a : Action)
      → In x (swap_input c.usdc a)
      → In (call (aggregator_of c) "execute_strategy") (calls_of c a)
        × In (transfer_of x) (calls_of c a)
  unfolding swap_input
  swap_calls x (swap_from_wallet tin tout a bps) (inl e) = (inl refl, inr (inl (ap transfer_of e)))
  swap_calls x (swap_from_wallet tin tout a bps) (inr i) = absurd i
  swap_calls x (withdraw_and_swap hub tout a bps) (inl e) =
      (inr (inl refl), inr (inr (inl (ap transfer_of e))))
  swap_calls x (withdraw_and_swap hub tout a bps) (inr i) = absurd i
  swap_calls x _ h = absurd h

  abbrev pub Made : List Action → Call → Type 0
  Made as_ k = (a : Action) × In a as_ × In k (calls_of c a)

  pub Made-of_any :
      (p : Action → Bool) (k : Call) (as_ : List Action)
      → ((a : Action) → p a ≡ true → In k (calls_of c a))
      → any p as_ ≡ true
      → Made as_ k
  Made-of_any p k as_ f h = let (a, i, q) = In-of_any p as_ h in (a, i, f a q)
