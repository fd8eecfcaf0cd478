-- ===== src/Funds/Funded.antt =====
-- packages/core/src/funds.ts, `advance`: no forward is sent before its money was there.
use koul.Base.{
  ℕ, true, false, not, ◌||◌, Option, none, some, List, [], ◌∷◌, In, ◌≡◌, refl, arith, Bool-cases,
  ◌⊎◌, inl, inr,
}
use koul.Funds.State.{
  FundsKind, deposit, withdraw, FundsStage, awaiting_passkey, awaiting_bank, awaiting_anchor,
  forwarding, completed, failed, FundsRecord,
}
use koul.Funds.Advance.{
  Sep6Status, Answers, Advanced, is_broken, is_completed, is_short, when_funded, is_gone,
  with_landing, landing_read, with_status, is_terminal, advance,
}
use koul.Funds.Laws.{forwards, IsReady, Ready, if_false}
use koul.Funds.Runs.{polls, polls-terminal}

-- A deposit, or a withdrawal that waits for the passkey, as createDeposit and createWithdrawal make them
abbrev pub Starts : FundsKind → FundsStage → Type 0
Starts deposit s = Unit
Starts withdraw awaiting_passkey = Unit
Starts withdraw _ = ⊥

-- Nothing is sent, and the record is the same or ended; or the money is there.
abbrev Unsent : FundsRecord → Advanced → Type 0
Unsent r out =
    (forwards out.effects ≡ 0) × ((out.record_ ≡ r) ⊎ (is_terminal out.record_.stage ≡ true))

when_funded-Unsent :
    (st : Sep6Status) (a : Answers) (landing : Option ℕ) (r : FundsRecord) (k : FundsKind)
    (s : FundsStage)
    → Starts k s
    → Unsent r (when_funded st a landing r k s) ⊎ IsReady r st landing k s
unfolding forwards
when_funded-Unsent st a landing r deposit s i =
    elim (Bool-cases (not (is_completed st.status) || is_short landing r.plan.amount_stroops)) [
      | inl e ↦ inl (rw e (refl, inl refl))
      | inr e ↦ inr (ground arith, ground arith)
    ]
when_funded-Unsent st a landing r withdraw awaiting_passkey i =
    elim (Bool-cases (is_short landing r.plan.amount_stroops)) [
      | inl e ↦ inl (rw e (refl, inl refl))
      | inr e ↦ inr e
    ]
when_funded-Unsent st a landing r withdraw awaiting_bank i = absurd i
when_funded-Unsent st a landing r withdraw awaiting_anchor i = absurd i
when_funded-Unsent st a landing r withdraw forwarding i = absurd i
when_funded-Unsent st a landing r withdraw completed i = absurd i
when_funded-Unsent st a landing r withdraw failed i = absurd i

landing_read-Unsent :
    (st : Sep6Status) (a : Answers) (r : FundsRecord) (o : Option (Option ℕ))
    → Starts r.kind r.stage
    → a.status ≡ some st
    → a.landing ≡ o
    → is_broken st.status ≡ false
    → Unsent r (landing_read st a r o) ⊎ Ready r a
unfolding with_landing forwards
landing_read-Unsent st a r none i s l b = inl (refl, inl refl)
landing_read-Unsent st a r (some landing) i s l b =
    elim (Bool-cases (is_gone landing r st.status)) [
      | inl e ↦ inl (rw e (refl, inr refl))
      | inr e ↦
          if_false (λ out. Unsent r out ⊎ Ready r a) _ _ (is_gone landing r st.status) e
            (elim (when_funded-Unsent st a landing r r.kind r.stage i) [
              | inl u ↦ inl u
              | inr k ↦ inr (st, landing, s, l, b, k)
            ])
    ]

with_status-Unsent :
    (a : Answers) (r : FundsRecord) (o : Option Sep6Status)
    → Starts r.kind r.stage
    → a.status ≡ o
    → Unsent r (with_status a r o) ⊎ Ready r a
unfolding with_status forwards
with_status-Unsent a r none i s = inl (refl, inl refl)
with_status-Unsent a r (some st) i s = elim (Bool-cases (is_broken st.status)) [
  | inl e ↦ inl (rw e (refl, inr refl))
  | inr e ↦
      if_false (λ out. Unsent r out ⊎ Ready r a) _ _ (is_broken st.status) e
        (landing_read-Unsent st a r a.landing i s refl e)
]

advance-Unsent :
    (a : Answers) (r : FundsRecord) → Starts r.kind r.stage → Unsent r (advance a r) ⊎ Ready r a
unfolding advance forwards
advance-Unsent a r i = elim (Bool-cases (is_terminal r.stage)) [
  | inl e ↦ inl (rw e (refl, inl refl))
  | inr e ↦
      if_false (λ out. Unsent r out ⊎ Ready r a) _ _ (is_terminal r.stage) e
        (with_status-Unsent a r a.status i refl)
]

-- Over any calls of `advance` on a deposit, or on a withdrawal that waits for the passkey, the forward is never
-- sent, or in one of these calls the anchor reported no failure and the landing account held the amount, for a
-- deposit with the anchor's part completed.
pub polls-Funded :
    (answers : List Answers) (r : FundsRecord)
    → Starts r.kind r.stage
    → ((polls answers r).1 ≡ []) ⊎ ((a : Answers) × In a answers × Ready r a)
unfolding polls
polls-Funded [] r i = inl refl
polls-Funded (a ∷ answers) r i = elim (advance-Unsent a r i) [
  | inr k ↦ inr (a, inl refl, k)
  | inl (n, inr t) ↦ inl (rw n (polls-terminal answers (advance a r).record_ t))
  | inl (n, inl same) ↦ elim (polls-Funded answers r i) [
    | inl none_ ↦ inl (rw (n, same) none_)
    | inr (b, j, k) ↦ inr (b, inr j, k)
  ]
]
