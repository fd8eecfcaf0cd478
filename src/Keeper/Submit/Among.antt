-- ===== src/Keeper/Submit/Among.antt =====
-- keeper/src/keeper.ts, `submitUser` among other workers: a tick that went badly costs the wallet its grant.
use koul.Base.{◌≤◌, ◌<◌, List, ◌∷◌, Text}
use koul.Keeper.State.{Due, Chain, Grant, KeeperState}
use koul.Keeper.Submit.{Others, bad, submit_one, submit_due}
use koul.Keeper.Submit.Laws.{Forgotten}

-- The other workers only add to what went badly, and keep nothing for a wallet for which nothing is kept.
pub record IsFair (chain : Chain) (user : Text) (others : Others chain) : Type 0 where
  pub counts : (st : KeeperState chain) → bad chain st ≤ bad chain (others st)
  pub keeps : (st : KeeperState chain) → Forgotten chain user st → Forgotten chain user (others st)

-- One of the wallet's own ticks fails or is skipped.
pub data WentBadly (chain : Chain) (others : Others chain) (user : Text) (g : Grant chain)
    : List Due → KeeperState chain → Type 0 where
  now :
      {d : Due} {dues : List Due} {st : KeeperState chain}
      → bad chain st < bad chain (submit_one chain g d st)
      → WentBadly chain others user g (d ∷ dues) st
  later :
      {d : Due} {dues : List Due} {st : KeeperState chain}
      → WentBadly chain others user g dues (submit_due chain others user g d st)
      → WentBadly chain others user g (d ∷ dues) st
