-- ===== src/Traction/Groups.antt =====
-- packages/core/src/traction.ts, `isLoadTest`, `groupOf` and `snapshotOf`: whose wallet it is, and the
-- live counts of a run.
use koul.Base.{
  ℕ, ◌+◌, Bool, false, ◌&&◌, ◌||◌, Option, none, some, List, [], ◌∷◌, Text, codes, text_eq, member,
  leb, ltb, all, if◌then◌else◌, Num,
}
use koul.Traction.State.{Live, Wallet, TractionState}

abbrev pub team_wallets : List Text
team_wallets =
    codes "CAVKIFUHM6AOSVEGTSG2V7KEOMDH2Q54F4IAY6ZEKRIDJZ7BBV3PYSBG"
    ∷ codes "CALZD4CAUC2QVPL274YPHPCUYX676C3YIE3ERNDEUTKTOYQ5EAJ65E5J"
    ∷ codes "CAHJNL2VE5S7G5KXOB4666W33YPUOZKIK7GERXVBQY7CWX5Z6XFULVVH"
    ∷ []

-- `LOAD_TEST`: 2026-10-28, 14:00 to 16:00 UTC
abbrev pub load_test_from : ℕ
load_test_from = 1793196000000

abbrev pub load_test_to : ℕ
load_test_to = 1793203200000

abbrev pub load_test_tokens : List Text
load_test_tokens = codes "USDC" ∷ codes "ETH" ∷ []

pub data Group : Type 0 where
  organic team loadtest : Group

pub data Side : Type 0 where
  organic_side team_side : Side

unfoldable pub side : Group → Side
side organic = organic_side
side team = team_side
side loadtest = team_side

pub record Snapshot : Type 0 where
  pub at : ℕ
  pub ledger : ℕ
  pub organic_users : ℕ
  pub organic_live : Live
  pub team_users : ℕ
  pub team_live : Live

module _ (num : Num) where
  abbrev pub in_window : Option ℕ → Bool
  in_window none = false
  in_window (some t) = leb load_test_from t && ltb t load_test_to

  unfoldable pub is_load_test : Wallet num → Bool
  is_load_test w =
      in_window w.first_seen
      && ltb 0 w.trades
      && all (λ e. text_eq e.0 (codes "swap")) w.kinds
      && all (λ t. member t load_test_tokens) w.tokens

  abbrev pub is_team : Text → List Text → Bool
  is_team address tagged = member address tagged || member address team_wallets

  unfoldable pub group_of : Wallet num → List Text → Group
  group_of w tagged =
      if is_team w.address tagged then team else if is_load_test w then loadtest else organic

  abbrev pub add_live : Live → Live → Live
  add_live a b = record { autopilots = a.autopilots + b.autopilots; rules = a.rules + b.rules }

  -- `users++` for a wallet with an autopilot
  abbrev pub user_of : Live → ℕ
  user_of l = if ltb 0 l.autopilots then 1 else 0

  abbrev pub add_snapshot : Wallet num → Snapshot → Side → Snapshot
  add_snapshot w p organic_side = record p {
    organic_users = p.organic_users + user_of w.live;
    organic_live = add_live p.organic_live w.live;
  }
  add_snapshot w p team_side = record p {
    team_users = p.team_users + user_of w.live;
    team_live = add_live p.team_live w.live;
  }

  unfoldable pub snapshot_loop : List Text → Snapshot → List (Wallet num) → Snapshot
  snapshot_loop tagged p [] = p
  snapshot_loop tagged p (w ∷ ws) =
      snapshot_loop tagged (add_snapshot w p (side (group_of w tagged))) ws

  abbrev pub no_counts : ℕ → ℕ → Snapshot
  no_counts time ledger = record {
    at = time;
    ledger = ledger;
    organic_users = 0;
    organic_live = record { autopilots = 0; rules = 0 };
    team_users = 0;
    team_live = record { autopilots = 0; rules = 0 };
  }

  unfoldable pub snapshot_of : TractionState num → List Text → ℕ → ℕ → Snapshot
  snapshot_of s tagged time ledger = snapshot_loop tagged (no_counts time ledger) s.wallets
