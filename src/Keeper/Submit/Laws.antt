-- ===== src/Keeper/Submit/Laws.antt =====
-- keeper/src/keeper.ts: a tick that goes badly drops the wallet's grant, and a rate limit makes the keeper wait.
use koul.Base.{
  ℕ, zero, suc, ◌+◌, ◌≤◌, ◌<◌, true, false, Option, none, some, List, [], ◌∷◌, ltb, length, ◌≡◌,
  refl, ap, ◌∙◌, arith, Text, codes, contains, Bool-cases, inl, inr, get, get-remove, text_eq,
  text_eq_iff, ◌⊎◌, ◌++◌, trim, ltb→lt, or_else,
}
use koul.Core.SecretGuard.{take}
use koul.Keeper.State.{
  Due, Ticked, tick_threw, tick_refused, tick_answered, Submitted, operation_threw,
  operation_failed, operation_sent, Chain, Counts, Grant, KeeperState, note,
}
use koul.Keeper.Submit.{
  fail, skip, or_text, squeeze, back_off, joined, contract_codes, after_send, with_result, send,
  with_entries, with_tick, submit_one, forget_grant, bad, submit_due, submit_user, idle,
}

note-failed : (reason : Text) (p : Counts) → (note reason p).failed ≡ p.failed
unfolding note
note-failed reason p = elim (Bool-cases (ltb (length p.errors) 5)) [
  | inl e ↦ rw e refl
  | inr e ↦ rw e refl
]

note-skipped : (reason : Text) (p : Counts) → (note reason p).skipped ≡ p.skipped
unfolding note
note-skipped reason p = elim (Bool-cases (ltb (length p.errors) 5)) [
  | inl e ↦ rw e refl
  | inr e ↦ rw e refl
]

module _ (chain : Chain) where
  open chain use {W}

  -- A step that leaves the kept grants and ids alone and takes no count back
  pub record IsTick (st st' : KeeperState chain) : Type 0 where
    pub grants : st'.grants ≡ st.grants
    pub ids : st'.autopilot_ids ≡ st.autopilot_ids
    pub counted : bad chain st ≤ bad chain st'

  back_off-grants :
      (d : Due) (t : Text) (st : KeeperState chain)
      → ((back_off chain d t st).grants ≡ st.grants)
        × ((back_off chain d t st).autopilot_ids ≡ st.autopilot_ids)
        × ((back_off chain d t st).pass ≡ st.pass)
  back_off-grants d t st = elim (Bool-cases (contains (codes "#7106") t)) [
    | inl e ↦ rw e (refl, refl, refl)
    | inr e ↦ rw e (refl, refl, refl)
  ]

  after_send-IsTick :
      (seen : Text ⊎ Unit {0}) (st mid : KeeperState chain)
      → mid.grants ≡ st.grants
      → mid.autopilot_ids ≡ st.autopilot_ids
      → bad chain st ≤ bad chain mid
      → IsTick st (after_send chain seen mid)
  after_send-IsTick (inl m) st mid e f h = record {
    grants = e;
    ids = f;
    counted = omega (arith, h);
  }
  after_send-IsTick (inr u) st mid e f h = record { grants = e; ids = f; counted = h }

  with_result-IsTick :
      (g : Grant chain) (d : Due) (r : Submitted) (st : KeeperState chain)
      → IsTick st (with_result chain g d r st)
  with_result-IsTick g d (operation_threw m) st = record {
    grants = refl;
    ids = refl;
    counted = omega arith;
  }
  with_result-IsTick g d (operation_failed m) st =
      let found = joined (contract_codes m) in
      let st' = back_off chain d found (fail chain st) in
      let (same_grants, same_ids, same_pass) = back_off-grants d found (fail chain st) in
      let reason = codes "submit " ++ or_text found (take 80 (trim (squeeze false m))) in
      record {
        grants = same_grants;
        ids = same_ids;
        counted = omega (
          arith,
          note-failed reason st'.pass,
          note-skipped reason st'.pass,
          ap (λ (p : Counts). p.failed) same_pass,
          ap (λ (p : Counts). p.skipped) same_pass,
        );
      }
  with_result-IsTick g d (operation_sent h) st =
      after_send-IsTick (chain.look_up g.kit h st.world).0 st _ refl refl (omega arith)

  skip-IsTick : (reason : Text) (st : KeeperState chain) → IsTick st (skip chain reason st)
  skip-IsTick reason st =
      let p = record st.pass { skipped = st.pass.skipped + 1 } in
      record {
        grants = refl;
        ids = refl;
        counted = omega (arith, note-failed reason p, note-skipped reason p);
      }

  with_entries-IsTick :
      (g : Grant chain) (d : Due) (n : Option ℕ) (st : KeeperState chain)
      → IsTick st (with_entries chain g d n st)
  unfolding send
  with_entries-IsTick g d none st = record { grants = refl; ids = refl; counted = omega arith }
  with_entries-IsTick g d (some zero) st = record {
    grants = refl;
    ids = refl;
    counted = omega arith;
  }
  with_entries-IsTick g d (some (suc n)) st =
      let out = chain.operation g.kit g.selected (or_else g.agent_rule_id 0) d st.world in
      let t = with_result-IsTick g d out.0 (record st { world = out.1 }) in
      record { grants = t.grants; ids = t.ids; counted = t.counted }

  with_tick-IsTick :
      (g : Grant chain) (d : Due) (t : Ticked) (st : KeeperState chain)
      → IsTick st (with_tick chain g d t st)
  with_tick-IsTick g d (tick_threw m) st = skip-IsTick _ st
  with_tick-IsTick g d (tick_refused m) st = skip-IsTick _ st
  with_tick-IsTick g d (tick_answered n) st = with_entries-IsTick g d n st

  submit_one-IsTick :
      (g : Grant chain) (d : Due) (st : KeeperState chain) → IsTick st (submit_one chain g d st)
  unfolding submit_one
  submit_one-IsTick g d st =
      let out = chain.tick d st.world in
      let t = with_tick-IsTick g d out.0 (record st { world = out.1 }) in
      record { grants = t.grants; ids = t.ids; counted = t.counted }

  -- Nothing is kept for a wallet.
  abbrev pub Forgotten : Text → KeeperState chain → Type 0
  Forgotten user st = (get user st.grants ≡ none) × (get user st.autopilot_ids ≡ none)

  text_eq_refl : (s : Text) → text_eq s s ≡ true
  text_eq_refl s = (text_eq_iff s s).1 refl

  pub forget_grant-Forgotten :
      (user : Text) (st : KeeperState chain) → Forgotten user (forget_grant chain user st)
  unfolding forget_grant
  forget_grant-Forgotten user st = (
    get-remove user user st.grants ∙ rw (text_eq_refl user) refl,
    get-remove user user st.autopilot_ids ∙ rw (text_eq_refl user) refl,
  )

  pub Forgotten-stays :
      (user : Text) (g : Grant chain) (d : Due) (st : KeeperState chain)
      → Forgotten user st
      → Forgotten user (submit_one chain g d st)
  Forgotten-stays user g d st h =
      let t = submit_one-IsTick g d st in (ap (get user) t.grants ∙ h.0, ap (get user) t.ids ∙ h.1)

  -- After one due autopilot: nothing bad happened and all is kept, or something did and all is forgotten.
  pub data AfterDue (user : Text) (st st' : KeeperState chain) : Type 0 where
    fine : IsTick st st' → bad chain st' ≡ bad chain st → AfterDue user st st'
    dropped : Forgotten user st' → bad chain st < bad chain st' → AfterDue user st st'

  submit_due-AfterDue :
      (user : Text) (g : Grant chain) (d : Due) (st : KeeperState chain)
      → AfterDue user st (submit_due chain (idle chain) user g d st)
  unfolding submit_due forget_grant
  submit_due-AfterDue user g d st =
      let t = submit_one-IsTick g d st in
      let st' = submit_one chain g d st in
      elim (Bool-cases (ltb (bad chain st) (bad chain st'))) [
        | inl e ↦ rw e (dropped (forget_grant-Forgotten user st') (ltb→lt _ _ e))
        | inr e ↦ rw e (fine t (let c = t.counted in ground arith))
      ]

  submit_user-stays :
      (user : Text) (g : Grant chain) (dues : List Due) (st : KeeperState chain)
      → Forgotten user st
      → Forgotten user (submit_user chain (idle chain) user g dues st)
  unfolding submit_user
  submit_user-stays user g [] st h = h
  submit_user-stays user g (d ∷ dues) st h =
      submit_user-stays user g dues (submit_due chain (idle chain) user g d st)
        (kept (submit_due-AfterDue user g d st))
    where
      kept :
          AfterDue user st (submit_due chain (idle chain) user g d st)
          → Forgotten user (submit_due chain (idle chain) user g d st)
      kept (fine t e) = (ap (get user) t.grants ∙ h.0, ap (get user) t.ids ∙ h.1)
      kept (dropped f e) = f

  -- After a wallet's submissions, with nothing of another worker in between, either no tick failed or was skipped, and its grant and autopilot ids
  -- are still kept as they were, or some did, and nothing is kept for the wallet.
  pub submit_user_lem :
      (user : Text) (g : Grant chain) (dues : List Due) (st : KeeperState chain)
      → AfterDue user st (submit_user chain (idle chain) user g dues st)
  unfolding submit_user
  submit_user_lem user g [] st =
      fine (record { grants = refl; ids = refl; counted = omega arith }) refl
  submit_user_lem user g (d ∷ dues) st =
      after (submit_due-AfterDue user g d st)
        (submit_user_lem user g dues (submit_due chain (idle chain) user g d st))
        (submit_user-stays user g dues (submit_due chain (idle chain) user g d st))
    where
      mid : KeeperState chain
      mid = submit_due chain (idle chain) user g d st

      end : KeeperState chain
      end = submit_user chain (idle chain) user g dues mid

      after :
          AfterDue user st mid
          → AfterDue user mid end
          → (Forgotten user mid → Forgotten user end)
          → AfterDue user st end
      after (fine t e) (fine u f) k =
          fine
            (record {
              grants = u.grants ∙ t.grants;
              ids = u.ids ∙ t.ids;
              counted = omega (arith, t.counted, u.counted);
            })
            (f ∙ e)
      after (fine t e) (dropped f lt) k = dropped f (omega (arith, e, lt))
      after (dropped f lt) (fine u e) k = dropped (k f) (omega (arith, lt, e))
      after (dropped f lt) (dropped f' lt') k = dropped f' (omega (arith, lt, lt'))
