-- ===== src/Keeper/Grants/Laws/Newest.antt =====
-- keeper/src/keeper.ts, the choice of a wallet's rule in `grantFor`.
use koul.Base.{
  ℕ, ◌≤◌, Bool, true, Option, none, some, List, [], ◌∷◌, leb, ◌≡◌, refl, sym, subst, arith, Text,
  keep, last, In, All, ◌⊎◌, inl, inr, Bool-cases, All-In, Option-cases,
}
use koul.Keeper.State.{ContextRule}
use koul.Keeper.Grants.{runs_after, signs_with, under_policy, insert_rule, sort_rules, newest_live}

-- A live grant of the agent under the policy
pub record IsLiveRule (verifier : Text) (policy : Option Text) (latest : ℕ) (r : ContextRule)
    : Type 0 where
  pub signed : signs_with verifier r ≡ true
  pub policed : under_policy policy r ≡ true
  pub runs : runs_after latest r.valid_until ≡ true

module _ {A : Type 0} (p : A → Bool) where
  In-keep : (a : A) (xs : List A) → In a (keep p xs) → In a xs × (p a ≡ true)
  In-keep a [] h = absurd h
  In-keep a (x ∷ xs) h = elim (Bool-cases (p x)) [
    | inl e ↦ elim (kept (rw e at h)) [
      | inl k ↦ (inl k, subst (λ y. p y ≡ true) (sym k) e)
      | inr k ↦ let (i, q) = In-keep a xs k in (inr i, q)
    ]
    | inr e ↦ let (i, q) = In-keep a xs (rw e at h) in (inr i, q)
  ]
    where
      kept : In a (x ∷ keep p xs) → (a ≡ x) ⊎ In a (keep p xs)
      kept h = h

  keep-In : (a : A) (xs : List A) → In a xs → p a ≡ true → In a (keep p xs)
  keep-In a [] h q = absurd h
  keep-In a (x ∷ xs) (inl e) q = let k : p x ≡ true = subst (λ y. p y ≡ true) e q in rw k (inl e)
  keep-In a (x ∷ xs) (inr h) q = elim (Bool-cases (p x)) [
    | inl e ↦ rw e (inr (keep-In a xs h q))
    | inr e ↦ rw e (keep-In a xs h q)
  ]

-- In order of the ids
abbrev Ascends : List ContextRule → Type 0
Ascends [] = Unit
Ascends (r ∷ rules) = All (λ q. r.id ≤ q.id) rules × Ascends rules

All-insert :
    (n : ℕ) (r : ContextRule) (rules : List ContextRule)
    → n ≤ r.id
    → All (λ q. n ≤ q.id) rules
    → All (λ q. n ≤ q.id) (insert_rule r rules)
unfolding insert_rule
All-insert n r [] h k = (h, tt)
All-insert n r (q ∷ rules) h (k, ks) = elim (Bool-cases (leb r.id q.id)) [
  | inl e ↦ rw e (h, (k, ks))
  | inr e ↦ rw e (k, All-insert n r rules h ks)
]

All-weaken :
    (m n : ℕ) (rules : List ContextRule)
    → m ≤ n
    → All (λ q. n ≤ q.id) rules
    → All (λ q. m ≤ q.id) rules
All-weaken m n [] h k = tt
All-weaken m n (q ∷ rules) h (k, ks) = (omega (arith, h, k), All-weaken m n rules h ks)

insert-Ascends :
    (r : ContextRule) (rules : List ContextRule) → Ascends rules → Ascends (insert_rule r rules)
unfolding insert_rule
insert-Ascends r [] h = (tt, tt)
insert-Ascends r (q ∷ rules) (k, ks) = elim (Bool-cases (leb r.id q.id)) [
  | inl e ↦ rw e ((ground arith, All-weaken r.id q.id rules (ground arith) k), (k, ks))
  | inr e ↦ rw e (All-insert q.id r rules (ground arith) k, insert-Ascends r rules ks)
]

sort-Ascends : (rules : List ContextRule) → Ascends (sort_rules rules)
unfolding sort_rules
sort-Ascends [] = tt
sort-Ascends (r ∷ rules) = insert-Ascends r (sort_rules rules) (sort-Ascends rules)

In-insert :
    (a r : ContextRule) (rules : List ContextRule)
    → (a ≡ r) ⊎ In a rules
    → In a (insert_rule r rules)
unfolding insert_rule
In-insert a r [] h = h
In-insert a r (q ∷ rules) h = elim (Bool-cases (leb r.id q.id)) [
  | inl e ↦ rw e h
  | inr e ↦ rw e (elim h [
    | inl k ↦ inr (In-insert a r rules (inl k))
    | inr k ↦ elim k [ inl j ↦ inl j | inr j ↦ inr (In-insert a r rules (inr j)) ]
  ])
]

In-of_insert :
    (a r : ContextRule) (rules : List ContextRule)
    → In a (insert_rule r rules)
    → (a ≡ r) ⊎ In a rules
unfolding insert_rule
In-of_insert a r [] h = h
In-of_insert a r (q ∷ rules) h = elim (Bool-cases (leb r.id q.id)) [
  | inl e ↦ rw e at h
  | inr e ↦
      let h' : (a ≡ q) ⊎ In a (insert_rule r rules) = rw e at h in
      elim h' [
        | inl k ↦ inr (inl k)
        | inr k ↦ elim (In-of_insert a r rules k) [ inl j ↦ inl j | inr j ↦ inr (inr j) ]
      ]
]

In-sort : (a : ContextRule) (rules : List ContextRule) → In a rules → In a (sort_rules rules)
unfolding sort_rules
In-sort a [] h = h
In-sort a (r ∷ rules) (inl e) = In-insert a r (sort_rules rules) (inl e)
In-sort a (r ∷ rules) (inr h) = In-insert a r (sort_rules rules) (inr (In-sort a rules h))

In-of_sort : (a : ContextRule) (rules : List ContextRule) → In a (sort_rules rules) → In a rules
unfolding sort_rules
In-of_sort a [] h = h
In-of_sort a (r ∷ rules) h = elim (In-of_insert a r (sort_rules rules) h) [
  | inl e ↦ inl e
  | inr k ↦ inr (In-of_sort a rules k)
]

-- The last of a sorted list is in it, and no other is above it.
last-In : {r : ContextRule} (rules : List ContextRule) → last rules ≡ some r → In r rules
last-In [] h = cc
last-In (q ∷ []) h = inl (cc)
last-In (q ∷ p ∷ rules) h = inr (last-In (p ∷ rules) h)

last-max :
    {r : ContextRule} (rules : List ContextRule)
    → Ascends rules
    → last rules ≡ some r
    → All (λ q. q.id ≤ r.id) rules
last-max [] a h = tt
last-max {r} (q ∷ []) a h = let e : q ≡ r = cc in (rw e (omega arith), tt)
last-max {r} (q ∷ p ∷ rules) (k, ks) h =
    (All-In (λ x. q.id ≤ x.id) r (p ∷ rules) k (last-In (p ∷ rules) h), last-max (p ∷ rules) ks h)

last-none : (rules : List ContextRule) → last rules ≡ none → rules ≡ []
last-none [] h = refl
last-none (q ∷ []) h = cc
last-none (q ∷ p ∷ rules) h = let e = last-none (p ∷ rules) h in cc

module _ (verifier : Text) (policy : Option Text) (latest : ℕ) (rules : List ContextRule) where
  -- No rule is live, or the chosen one is a live rule of the wallet and every live rule's id is at most its.
  pub data IsNewest (chosen : Option ContextRule) : Type 0 where
    none_live :
        chosen ≡ none
        → ((r : ContextRule) → In r rules → IsLiveRule verifier policy latest r → ⊥)
        → IsNewest chosen
    newest :
        (r : ContextRule)
        → chosen ≡ some r
        → In r rules
        → IsLiveRule verifier policy latest r
        → ((q : ContextRule) → In q rules → IsLiveRule verifier policy latest q → q.id ≤ r.id)
        → IsNewest chosen

  abbrev signing : List ContextRule
  signing = keep (signs_with verifier) rules

  abbrev policed_rules : List ContextRule
  policed_rules = keep (under_policy policy) signing

  abbrev live_rules : List ContextRule
  live_rules = keep (λ (r : ContextRule). runs_after latest r.valid_until) policed_rules

  live-In : (r : ContextRule) → In r live_rules → In r rules × IsLiveRule verifier policy latest r
  live-In r h =
      let (i, runs) =
        In-keep (λ (q : ContextRule). runs_after latest q.valid_until) r policed_rules h in
      let (j, policed) = In-keep (under_policy policy) r signing i in
      let (k, signed) = In-keep (signs_with verifier) r rules j in
      (k, record { signed = signed; policed = policed; runs = runs })

  In-live : (r : ContextRule) → In r rules → IsLiveRule verifier policy latest r → In r live_rules
  In-live r h live =
      keep-In (λ (q : ContextRule). runs_after latest q.valid_until) r policed_rules
        (keep-In (under_policy policy) r signing
          (keep-In (signs_with verifier) r rules h live.signed) live.policed)
        live.runs

  -- `grantFor` reads the grant from the newest live rule of the agent under the current policy.
  pub newest_live_lem : IsNewest (newest_live verifier policy latest rules)
  unfolding newest_live
  newest_live_lem = elim (Option-cases (last (sort_rules live_rules))) [
    | inl e ↦ none_live e λ r h live.
        let nil = last-none (sort_rules live_rules) e in
        subst (In r) nil (In-sort r live_rules (In-live r h live))
    | inr (r, e) ↦
        let (here, live) =
          live-In r (In-of_sort r live_rules (last-In (sort_rules live_rules) e)) in
        newest r e here live λ q h l.
          All-In (λ x. x.id ≤ r.id) q (sort_rules live_rules)
            (last-max (sort_rules live_rules) (sort-Ascends live_rules) e)
            (In-sort q live_rules (In-live q h l))
  ]
