-- ===== src/Keeper/Grants/Laws.antt =====
-- keeper/src/keeper.ts: which rule a grant is read from, and that a grant in use has not expired.
pub mod Newest
use Newest.{IsLiveRule, IsNewest, none_live, newest, newest_live_lem}
use koul.Base.{
  ℕ, ◌-◌, ◌==◌, Bool, true, false, ◌&&◌, ◌||◌, Option, none, some, List, [], ◌∷◌, ltb, or_else,
  if◌then◌else◌, ◌≡◌, refl, subst, arith, Text, length, is_some, map_option, get, inl, inr, ◌⊎◌,
  Bool-cases, and-true,
}
use koul.Keeper.State.{ContextRule, Chain, Grant, KeeperState}
use koul.Keeper.Grants.{
  runs_after, newest_live, until_of, not_expired, Step, go, ask, give, is_fresh, keep_grant,
  selected_for, grant_of, read_grant, reread, checked_now, recheck, first_grant, known_grant,
  grant_for, ◌>>=◌,
}

until_of-NotExpired :
    (latest : ℕ) (r : ContextRule)
    → runs_after latest r.valid_until ≡ true
    → not_expired latest (until_of (some r)) ≡ true
until_of-NotExpired latest r h = ground arith

rule-NotExpired :
    (verifier : Text) (policy : Option Text) (latest : ℕ) (rules : List ContextRule)
    → not_expired latest (until_of (newest_live verifier policy latest rules)) ≡ true
rule-NotExpired verifier policy latest rules = elim (newest_live_lem verifier policy latest rules) [
  | none_live e h ↦ rw e refl
  | newest r e here live h ↦ rw e (until_of-NotExpired latest r live.runs)
]

module _ (chain : Chain) (policy : Option Text) (user payer : Text) (latest : ℕ) where
  -- What holds of a result, if there is one
  abbrev Gives : {A : Type 0} → (A → Type 0) → Text ⊎ A → Type 0
  Gives Q (inl e) = Unit
  Gives Q (inr a) = Q a

  record Always {A : Type 0} (m : Step chain policy A) (Q : A → Type 0) : Type 0 where
    holds : (st : KeeperState chain) → Gives Q (m st).0

  Gives-go :
      {A B : Type 0} (out : Text ⊎ A) (st : KeeperState chain) (next : A → Step chain policy B)
      (Q : B → Type 0)
      → ((a : A) → Always (next a) Q)
      → Gives Q (go chain policy out next st).0
  Gives-go (inl e) st next Q h = tt
  Gives-go (inr a) st next Q h = (h a).holds st

  then_step :
      {A B : Type 0} (m : Step chain policy A) {next : A → Step chain policy B} {Q : B → Type 0}
      → ((a : A) → Always (next a) Q)
      → Always (◌>>=◌ chain policy m next) Q
  then_step m {next} {Q} h = record { holds = λ st. Gives-go (m st).0 (m st).1 next Q h }

  abbrev Valid : Grant chain → Type 0
  Valid g = not_expired latest g.valid_until ≡ true

  read_grant-Valid :
      (count : ℕ) (kit : chain.Kit) → Always (read_grant chain policy user latest count kit) Valid
  unfolding read_grant
  read_grant-Valid count kit = then_step (ask chain policy (chain.list_rules kit)) λ rules.
      then_step (selected_for chain policy kit (newest_live chain.verifier policy latest rules))
        λ s. record { holds = λ st. rule-NotExpired chain.verifier policy latest rules }

  reread-Valid : (count : ℕ) → Always (reread chain policy user payer latest count) Valid
  reread-Valid count =
      then_step (ask chain policy (chain.connect user payer)) λ kit. read_grant-Valid count kit

  either_step :
      (b : Bool) {m n : Step chain policy (Grant chain)}
      → (b ≡ true → Always m Valid)
      → Always n Valid
      → Always (if b then m else n) Valid
  either_step true h k = h refl
  either_step false h k = k

  recheck-Valid : (g : Grant chain) → Always (recheck chain policy user payer latest g) Valid
  recheck-Valid g = then_step (ask chain policy (chain.rule_count g.kit)) λ count.
      either_step ((g.count == count) && not_expired latest g.valid_until)
        (λ e. record { holds = λ st. (and-true _ _ e).1 }) (reread-Valid count)

  known_grant-Valid :
      (known : Option (Grant chain))
      → Always (known_grant chain policy user payer latest known) Valid
  known_grant-Valid none =
      let first : Always (first_grant chain policy user payer latest) Valid =
        then_step (ask chain policy (chain.connect user payer)) λ kit.
          then_step (ask chain policy (chain.rule_count kit)) λ count. read_grant-Valid count kit in
      record { holds = first.holds }
  known_grant-Valid (some g) = record {
    holds = λ st.
        (either_step (is_fresh chain policy (chain.now st.world) latest g)
            (λ e. record { holds = λ s. (and-true _ _ e).1 }) (recheck-Valid g)).holds
          st;
  }

  -- Whatever is kept and whatever the wallet answers, a grant that `grantFor` returns has no end or one after
  -- the latest ledger.
  pub grant_for-NotExpired :
      (st : KeeperState chain) (g : Grant chain)
      → (grant_for chain policy user payer latest st).0 ≡ inr g
      → not_expired latest g.valid_until ≡ true
  unfolding grant_for
  grant_for-NotExpired st g h =
      subst (Gives Valid) h ((known_grant-Valid (get user st.grants)).holds st)
