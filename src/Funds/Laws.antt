-- ===== src/Funds/Laws.antt =====
-- packages/core/src/funds.ts, `advance`: when one call sends the forward transaction.
use koul.Base.{
  ℕ, suc, ◌+◌, Bool, true, false, not, ◌||◌, Option, none, some, List, [], ◌∷◌, ◌++◌, Text, truthy,
  if◌then◌else◌, ◌≡◌, refl, ◌∙◌, arith, Bool-cases, ◌⊎◌, inl, inr,
}
use koul.Funds.State.{
  FundsKind, deposit, withdraw, FundsStage, awaiting_bank, awaiting_passkey, awaiting_anchor,
  forwarding, completed, failed, FundsRecord,
}
use koul.Funds.Advance.{
  Sep6Status, Answers, Effect, put, submit_forward, submit_cleanup, Advanced, is_broken,
  is_completed, is_short, must_wait, finish, clean_up, forwarded, forward, when_funded, is_gone,
  with_landing, landing_read, with_status, is_terminal, advance,
}

-- How often the forward transaction is sent.
unfoldable pub forwards : List Effect → ℕ
forwards [] = 0
forwards (put r ∷ es) = forwards es
forwards (submit_forward xdr ∷ es) = 1 + forwards es
forwards (submit_cleanup xdr ∷ es) = forwards es

pub forwards-append : (xs ys : List Effect) → forwards (xs ++ ys) ≡ forwards xs + forwards ys
unfolding forwards
forwards-append [] ys = omega arith
forwards-append (put r ∷ xs) ys = forwards-append xs ys
forwards-append (submit_forward xdr ∷ xs) ys = omega (arith, forwards-append xs ys)
forwards-append (submit_cleanup xdr ∷ xs) ys = forwards-append xs ys

-- The hash once a forward is sent: what the relay answered, if it did.
abbrev pub hash_after : Option Text → Option Text → Option Text
hash_after hash none = hash
hash_after hash (some h) = some h

-- From n on: nothing is sent and the hash stays, or there was no hash, one is sent, and the hash is what
-- the relay answered, if it did.
pub data Sent (hash : Option Text) (a : Answers) (n : ℕ) (out : Advanced) : Type 0 where
  none_sent : forwards out.effects ≡ n → out.record_.forward_hash ≡ hash → Sent hash a n out
  one_sent :
      truthy hash ≡ false
      → forwards out.effects ≡ suc n
      → out.record_.forward_hash ≡ hash_after hash a.forward
      → Sent hash a n out

pub if_false :
    {A : Type 0} → (P : A → Type 0) (x y : A) (b : Bool) → b ≡ false → P y → P (if b then x else y)
if_false P x y true h p = cc
if_false P x y false h p = p

finish-Sent :
    (status : Text) (r : FundsRecord) (es : List Effect)
    → (forwards (finish status r es).effects ≡ forwards es)
      × ((finish status r es).record_.forward_hash ≡ r.forward_hash)
unfolding finish forwards
finish-Sent status r es = elim (Bool-cases (must_wait r.kind status)) [
  | inl e ↦ rw e (refl, refl)
  | inr e ↦
      rw e (forwards-append es (put (record r { stage = completed }) ∷ []) ∙ omega arith, refl)
]

clean_up-Sent :
    (status : Text) (hash : Option Text) (r : FundsRecord) (es : List Effect)
    → (forwards (clean_up status hash r es).effects ≡ forwards es)
      × ((clean_up status hash r es).record_.forward_hash ≡ r.forward_hash)
unfolding clean_up forwards
clean_up-Sent status none r es = elim (Bool-cases (truthy r.cleanup_hash)) [
  | inl e ↦ rw e (finish-Sent status r es)
  | inr e ↦ rw e (forwards-append es _ ∙ omega arith, refl)
]
clean_up-Sent status (some h) r es = elim (Bool-cases (truthy r.cleanup_hash)) [
  | inl e ↦ rw e (finish-Sent status r es)
  | inr e ↦
      let r' = record r { cleanup_hash = some h } in
      let es' = submit_cleanup r.plan.cleanup_tx_xdr ∷ put r' ∷ [] in
      let (f, k) = finish-Sent status r' (es ++ es') in
      rw e (f ∙ forwards-append es es' ∙ omega arith, k)
]

forwarded-Sent :
    (status : Text) (a : Answers) (r : FundsRecord) (o : Option Text) (es : List Effect)
    → truthy r.forward_hash ≡ false
    → a.forward ≡ o
    → Sent r.forward_hash a (forwards es) (forwarded status a r o es)
unfolding forwards
forwarded-Sent status a r none es h e = one_sent h (forwards-append es _ ∙ omega arith) (rw e refl)
forwarded-Sent status a r (some hash) es h e =
    let r' = record r { forward_hash = some hash; stage = awaiting_anchor } in
    let es' = submit_forward r.plan.forward_tx_xdr ∷ put r' ∷ [] in
    let (f, k) = clean_up-Sent status a.cleanup r' (es ++ es') in
    one_sent h (f ∙ forwards-append es es' ∙ omega arith) (k ∙ rw e refl)

forward-Sent :
    (status : Text) (a : Answers) (r : FundsRecord) (es : List Effect)
    → Sent r.forward_hash a (forwards es) (forward status a r es)
unfolding forward
forward-Sent status a r es = elim (Bool-cases (truthy r.forward_hash)) [
  | inl e ↦ let (f, k) = clean_up-Sent status a.cleanup r es in rw e (none_sent f k)
  | inr e ↦
      if_false (Sent r.forward_hash a (forwards es)) _ _ (truthy r.forward_hash) e
        (forwarded-Sent status a r a.forward es e refl)
]

-- The money that the forward sends is there: for a deposit the anchor has completed it and the landing
-- account holds the amount; for a withdrawal that waits for the passkey the account holds the amount.
abbrev pub IsReady : FundsRecord → Sep6Status → Option ℕ → FundsKind → FundsStage → Type 0
IsReady r st landing deposit stage =
    (is_completed st.status ≡ true) × (is_short landing r.plan.amount_stroops ≡ false)
IsReady r st landing withdraw awaiting_passkey = is_short landing r.plan.amount_stroops ≡ false
IsReady r st landing withdraw _ = Unit

abbrev Step : FundsRecord → Answers → Advanced → Type 0
Step r a out = Sent r.forward_hash a 0 out

when_funded-Sent :
    (st : Sep6Status) (a : Answers) (landing : Option ℕ) (r : FundsRecord) (k : FundsKind)
    (s : FundsStage)
    → Step r a (when_funded st a landing r k s)
unfolding forwards
when_funded-Sent st a landing r deposit s =
    elim (Bool-cases (not (is_completed st.status) || is_short landing r.plan.amount_stroops)) [
      | inl e ↦ rw e (none_sent refl refl)
      | inr e ↦ rw e (forward-Sent st.status a r [])
    ]
when_funded-Sent st a landing r withdraw awaiting_passkey =
    elim (Bool-cases (is_short landing r.plan.amount_stroops)) [
      | inl e ↦ rw e (none_sent refl refl)
      | inr e ↦
          let r' = record r { stage = forwarding } in
          rw e (forward-Sent st.status a r' (put r' ∷ []))
    ]
when_funded-Sent st a landing r withdraw awaiting_bank = forward-Sent st.status a r []
when_funded-Sent st a landing r withdraw awaiting_anchor = forward-Sent st.status a r []
when_funded-Sent st a landing r withdraw forwarding = forward-Sent st.status a r []
when_funded-Sent st a landing r withdraw completed = forward-Sent st.status a r []
when_funded-Sent st a landing r withdraw failed = forward-Sent st.status a r []

when_funded-IsReady :
    (st : Sep6Status) (a : Answers) (landing : Option ℕ) (r : FundsRecord) (k : FundsKind)
    (s : FundsStage)
    → (forwards (when_funded st a landing r k s).effects ≡ 0) ⊎ IsReady r st landing k s
unfolding forwards
when_funded-IsReady st a landing r deposit s =
    elim (Bool-cases (not (is_completed st.status) || is_short landing r.plan.amount_stroops)) [
      | inl e ↦ inl (rw e refl)
      | inr e ↦ inr (ground arith, ground arith)
    ]
when_funded-IsReady st a landing r withdraw awaiting_passkey =
    elim (Bool-cases (is_short landing r.plan.amount_stroops)) [
      | inl e ↦ inl (rw e refl)
      | inr e ↦ inr e
    ]
when_funded-IsReady st a landing r withdraw awaiting_bank = inr tt
when_funded-IsReady st a landing r withdraw awaiting_anchor = inr tt
when_funded-IsReady st a landing r withdraw forwarding = inr tt
when_funded-IsReady st a landing r withdraw completed = inr tt
when_funded-IsReady st a landing r withdraw failed = inr tt

-- What a call has read when it sends the forward.
abbrev pub Ready : FundsRecord → Answers → Type 0
Ready r a =
    (st : Sep6Status) × (landing : Option ℕ) × (a.status ≡ some st)
    × (a.landing ≡ some landing)
    × (is_broken st.status ≡ false)
    × IsReady r st landing r.kind r.stage

abbrev pub Guarded : FundsRecord → Answers → Advanced → Type 0
Guarded r a out = Step r a out × ((forwards out.effects ≡ 0) ⊎ Ready r a)

landing_read-Guarded :
    (st : Sep6Status) (a : Answers) (r : FundsRecord) (o : Option (Option ℕ))
    → a.status ≡ some st
    → a.landing ≡ o
    → is_broken st.status ≡ false
    → Guarded r a (landing_read st a r o)
unfolding with_landing forwards
landing_read-Guarded st a r none s l b = (none_sent refl refl, inl refl)
landing_read-Guarded st a r (some landing) s l b = elim (Bool-cases (is_gone landing r st.status)) [
  | inl e ↦ rw e (none_sent refl refl, inl refl)
  | inr e ↦ if_false (Guarded r a) _ _ (is_gone landing r st.status) e (
    when_funded-Sent st a landing r r.kind r.stage,
    elim (when_funded-IsReady st a landing r r.kind r.stage) [
      | inl n ↦ inl n
      | inr i ↦ inr (st, landing, s, l, b, i)
    ],
  )
]

with_status-Guarded :
    (a : Answers) (r : FundsRecord) (o : Option Sep6Status)
    → a.status ≡ o
    → Guarded r a (with_status a r o)
unfolding with_status forwards
with_status-Guarded a r none s = (none_sent refl refl, inl refl)
with_status-Guarded a r (some st) s = elim (Bool-cases (is_broken st.status)) [
  | inl e ↦ rw e (none_sent refl refl, inl refl)
  | inr e ↦
      if_false (Guarded r a) _ _ (is_broken st.status) e
        (landing_read-Guarded st a r a.landing s refl e)
]

-- One call of `advance` sends the forward at most once and never when the record has its hash; it sends it
-- only when the anchor reported no failure, and the money is there for a deposit or a withdrawal that waits for
-- the passkey.
pub advance-Guarded : (a : Answers) (r : FundsRecord) → Guarded r a (advance a r)
unfolding advance forwards
advance-Guarded a r = elim (Bool-cases (is_terminal r.stage)) [
  | inl e ↦ rw e (none_sent refl refl, inl refl)
  | inr e ↦
      if_false (Guarded r a) _ _ (is_terminal r.stage) e (with_status-Guarded a r a.status refl)
]
