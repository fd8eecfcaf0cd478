-- ===== src/Core/Permissions/Grant.antt =====
-- web/lib/model/access.ts: what it means that a granted key covers an autopilot.
use koul.Base.{
  ◌≡◌, inl, inr, refl, sym, ap, true, not, ◌&&◌, some, List, [], ◌∷◌, map, arith, Text, text_eq,
  text_eq_iff, member, all, all-In, All, All-In, and-true, In, In-append_left, In-append_right,
  In-of_map, is_nil, Bool-cases, ◌==◌, truthy,
}
use koul.Core.Schema.{
  Action, move_supply, supply_from_wallet, repay_from_wallet, repay_with_collateral,
  withdraw_to_wallet, swap_from_wallet, withdraw_and_swap, Autopilot,
}
use koul.Core.Validate.{validate}
use koul.Core.Permissions.Defs.{
  Contracts, Permissions, Call, Result, ok, err, given, supplies, repays, swap_input, key,
  AgentParams, covers, grant_covers, map_result, recipients, granted, permissions_for, actions_of,
}
use koul.Core.Permissions.Calls.{calls_of, paid_by}
use koul.Core.Permissions.Sets.{In-given, In-of_member}
use koul.Core.Permissions.Exact.{
  inputs, moves, granted_of, granted-calls, calls_complete, moved, input_of, not_nil_of_In,
  ok-injective,
}

abbrev pub NoColon : Text → Type 0
NoColon s = all (λ d. not (d == 58)) s ≡ true

-- The key of a call determines it, where contract names hold no colon.
key-injective :
    (c f d g : Text) → NoColon c → NoColon d → key (c, f) ≡ key (d, g) → (c ≡ d) × (f ≡ g)
key-injective [] f [] g h k e = (refl, cc)
key-injective [] f (y ∷ d) g h k e = ground arith
key-injective (x ∷ c) f [] g h k e = ground arith
key-injective (x ∷ c) f (y ∷ d) g h k e =
    let (same, rest) =
      key-injective c f d g (and-true _ (all (λ z. not (z == 58)) c) h).1
        (and-true _ (all (λ z. not (z == 58)) d) k).1 (cc) in
    (cc, rest)

key-listed :
    (k : Call) (ks : List Call)
    → NoColon k.0
    → All (λ l. NoColon l.0) ks
    → In (key k) (map key ks)
    → In k ks
key-listed k ks h hs i =
    let (l, listed, e) = In-of_map key (key k) ks i in
    let (same, also) =
      key-injective k.0 k.1 l.0 l.1 h (All-In (λ j. NoColon j.0) l ks hs listed) e in
    let whole : k ≡ l = cc in rw whole listed

recipients_complete :
    (c : Contracts) (as_ : List Action) (a : Action) (r : Text)
    → In a as_
    → In r (paid_by c a)
    → In r (recipients c as_ (moves c as_) (inputs c as_))
unfolding recipients supplies repays swap_input
recipients_complete c as_ (withdraw_to_wallet hub x) r i h = absurd h
recipients_complete c as_ (swap_from_wallet tin tout x bps) r i h =
    In-append_right r (given (moves c as_) (c.pool ∷ [])) _ (
      In-given _ _ _
        (not_nil_of_In tin (inputs c as_)
          (input_of c as_ (swap_from_wallet tin tout x bps) i tin (inl refl)))
        h)
recipients_complete c as_ (withdraw_and_swap hub tout x bps) r i h =
    In-append_right r (given (moves c as_) (c.pool ∷ [])) _ (
      In-given _ _ _
        (not_nil_of_In c.usdc (inputs c as_)
          (input_of c as_ (withdraw_and_swap hub tout x bps) i c.usdc (inl refl)))
        h)
recipients_complete c as_ (move_supply from to x) r i h =
    In-append_left r (given (moves c as_) (c.pool ∷ [])) _
      (In-given _ _ _ (moved c as_ (move_supply from to x) i refl) h)
recipients_complete c as_ (supply_from_wallet hub x) r i h =
    In-append_left r (given (moves c as_) (c.pool ∷ [])) _
      (In-given _ _ _ (moved c as_ (supply_from_wallet hub x) i refl) h)
recipients_complete c as_ (repay_from_wallet hub x) r i h =
    In-append_left r (given (moves c as_) (c.pool ∷ [])) _
      (In-given _ _ _ (moved c as_ (repay_from_wallet hub x) i refl) h)
recipients_complete c as_ (repay_with_collateral from to x) r i h =
    In-append_left r (given (moves c as_) (c.pool ∷ [])) _
      (In-given _ _ _ (moved c as_ (repay_with_collateral from to x) i refl) h)

granted-recipients :
    (c : Contracts) (as_ : List Action) (p : Permissions)
    → granted c as_ ≡ ok p
    → p.transfer_recipients ≡ recipients c as_ (moves c as_) (inputs c as_)
unfolding granted
granted-recipients c as_ p h =
    elim (Bool-cases (not (is_nil (inputs c as_)) && not (truthy c.aggregator))) [
      | inl e ↦ cc (rw e at h)
      | inr e ↦ sym (ap (λ (q : Permissions). q.transfer_recipients) (ok-injective (rw e at h)))
    ]

map_result-ok :
    {A B : Type 0} (f : A → B) (m : Result A) {b : B}
    → map_result f m ≡ ok b
    → (a : A) × (m ≡ ok a) × (f a ≡ b)
map_result-ok f (ok a) h = (a, refl, ok-injective h)
map_result-ok f (err e) h = cc

covered :
    (p : AgentParams) (auto : Autopilot) (c : Contracts)
    → grant_covers (some p) auto c ≡ ok true
    → (p.account_id ≡ auto.account_id)
      × (q : Permissions) × (permissions_for auto c ≡ ok q)
      × (covers p q ≡ true)
unfolding grant_covers
covered p auto c h =
    elim (Bool-cases (is_nil (validate auto) && text_eq p.account_id auto.account_id)) [
      | inr e ↦ cc (rw e at h)
      | inl e ↦
          let h' : map_result (covers p) (permissions_for auto c) ≡ ok true = rw e at h in
          let (q, given_, fits) = map_result-ok (covers p) (permissions_for auto c) h' in
          (
            (text_eq_iff p.account_id auto.account_id).0 (and-true (is_nil (validate auto)) _ e).1,
            q,
            given_,
            fits,
          )
    ]

covers_parts :
    (p : AgentParams) (q : Permissions)
    → covers p q ≡ true
    → (all (λ k. member (key k) (map key p.allowed_calls)) q.allowed_calls ≡ true)
      × (all (λ r. member r p.transfer_recipients) q.transfer_recipients ≡ true)
unfolding covers
covers_parts p q h = and-true _ _ h

-- If a granted key covers an autopilot, the key is for the autopilot's account, and every call and
-- every transfer that an action of its rules makes is one that the key's policy allows, provided
-- that contract names hold no colon.
pub grant_covers_sound :
    (p : AgentParams) (auto : Autopilot) (c : Contracts) (a : Action)
    → All (λ k. NoColon k.0) p.allowed_calls
    → All (λ k. NoColon k.0) (calls_of c a)
    → In a (actions_of auto.rules)
    → grant_covers (some p) auto c ≡ ok true
    → (p.account_id ≡ auto.account_id)
      × ((k : Call) → In k (calls_of c a) → In k p.allowed_calls)
      × ((r : Text) → In r (paid_by c a) → In r p.transfer_recipients)
grant_covers_sound p auto c a hp ha i h =
    let (same, q, needed, fits) = covered p auto c h in
    let as_ = actions_of auto.rules in
    let (calls_fit, paid_fit) = covers_parts p q fits in
    let is_granted = granted_of auto c q needed in
    let all_listed = granted-calls c as_ q is_granted in
    let all_paid = granted-recipients c as_ q is_granted in
    (
      same,
      λ k made.
          key-listed k p.allowed_calls (All-In (λ l. NoColon l.0) k (calls_of c a) ha made) hp (
            In-of_member (key k) (map key p.allowed_calls) (
              all-In _ k q.allowed_calls calls_fit
                (rw all_listed (calls_complete c as_ a k i made)))),
      λ r paid. In-of_member r p.transfer_recipients (
          all-In _ r q.transfer_recipients paid_fit
            (rw all_paid (recipients_complete c as_ a r i paid))),
    )
