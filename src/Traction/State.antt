-- ===== src/Traction/State.antt =====
-- packages/core/src/traction.ts, the state and the events. Times are milliseconds since 1970; a day's
-- key is its number since 1970, for which the source writes the UTC date.
use koul.Base.{ℕ, ◌+◌, ◌*◌, Option, none, some, List, [], ◌∷◌, Text, codes, Assoc, NatMap, ℤ, Num}
use koul.Competition.Value.{ScoredToken}

abbrev pub hour_ms : ℕ
hour_ms = 3600000

abbrev pub day_ms : ℕ
day_ms = 24 * hour_ms

-- Seven days and the current hour
abbrev pub hours_kept : ℕ
hours_kept = 7 * 24 + 1

pub record Live : Type 0 where
  pub autopilots : ℕ
  pub rules : ℕ

pub record Gap : Type 0 where
  pub from_ledger : ℕ
  pub to_ledger : ℕ

pub data RouterEvent : Type 0 where
  autopilot_set : (id : Text) (at : ℕ) (user : Text) (autopilot_id rules : ℕ) → RouterEvent
  autopilot_cleared : (id : Text) (at : ℕ) (user : Text) (autopilot_id : ℕ) → RouterEvent
  fired : (id : Text) (at : ℕ) (user kind : Text) (amount : ℤ) (tx : Option Text) → RouterEvent
  swapped :
      (id : Text) (at : ℕ) (user token_in token_out : Text) (amount_in amount_out : ℤ) → RouterEvent

abbrev pub event_id : RouterEvent → Text
event_id (autopilot_set id at user autopilot_id rules) = id
event_id (autopilot_cleared id at user autopilot_id) = id
event_id (fired id at user kind amount tx) = id
event_id (swapped id at user token_in token_out amount_in amount_out) = id

abbrev pub event_at : RouterEvent → ℕ
event_at (autopilot_set id at user autopilot_id rules) = at
event_at (autopilot_cleared id at user autopilot_id) = at
event_at (fired id at user kind amount tx) = at
event_at (swapped id at user token_in token_out amount_in amount_out) = at

abbrev pub event_user : RouterEvent → Text
event_user (autopilot_set id at user autopilot_id rules) = user
event_user (autopilot_cleared id at user autopilot_id) = user
event_user (fired id at user kind amount tx) = user
event_user (swapped id at user token_in token_out amount_in amount_out) = user

module _ (num : Num) where
  open num use {F, lit}

  pub record Wallet : Type 0 where
    pub address : Text
    pub first_seen : Option ℕ
    pub last_trade : Option ℕ
    pub last_tx : Option Text
    pub trades : ℕ
    pub swaps : ℕ
    pub volume_usd : F
    pub volume_out_usd : Option F
    pub sets : ℕ
    pub clears : ℕ
    pub ids : List ℕ
    pub kinds : Assoc ℕ
    pub tokens : List Text
    pub live : Live

  -- One wallet's day: the source's tuple
  pub record DayCell : Type 0 where
    pub fired : ℕ
    pub swaps : ℕ
    pub volume_usd : F
    pub sets : ℕ
    pub clears : ℕ
    pub volume_out_usd : Option F

  pub record TractionState : Type 0 where
    pub router : Text
    pub cursor : Option Text
    pub last_event_id : Option Text
    pub to_ledger : ℕ
    pub history_from : Option ℕ
    pub gaps : List Gap
    pub wallets : List Wallet
    pub days : NatMap (NatMap DayCell)
    pub hours : NatMap (NatMap ℕ)
    pub unpriced : ℕ
    pub updated_at : ℕ

  abbrev pub new_wallet : Text → Wallet
  new_wallet address = record {
    address = address;
    first_seen = none;
    last_trade = none;
    last_tx = none;
    trades = 0;
    swaps = 0;
    volume_usd = lit 0 0;
    volume_out_usd = none;
    sets = 0;
    clears = 0;
    ids = [];
    kinds = [];
    tokens = [];
    live = record { autopilots = 0; rules = 0 };
  }

  abbrev pub empty_cell : DayCell
  empty_cell = record {
    fired = 0;
    swaps = 0;
    volume_usd = lit 0 0;
    sets = 0;
    clears = 0;
    volume_out_usd = none;
  }

  abbrev pub empty_traction : Text → TractionState
  empty_traction router = record {
    router = router;
    cursor = none;
    last_event_id = none;
    to_ledger = 0;
    history_from = none;
    gaps = [];
    wallets = [];
    days = [];
    hours = [];
    unpriced = 0;
    updated_at = 0;
  }

-- `KNOWN`: USDC and the swap tokens
abbrev pub known_tokens : List ScoredToken
known_tokens =
    record {
      symbol = codes "USDC";
      id = codes "CBIELTK6YBZJU5UP2WWQEUCYKLPU6AUNZ2BQ4WWFEIE3USCIHMXQDAMA";
      decimals = 7;
      feed = none;
    }
    ∷ record {
      symbol = codes "XLM";
      id = codes "CDLZFC3SYJYDZT7K67VZ75HPJVIEUVNIXF47ZG2FB2RMQQVU2HHGCYSC";
      decimals = 7;
      feed = some (codes "XLM");
    }
    ∷ record {
      symbol = codes "ETH";
      id = codes "CAEXCVZUCB6FGYKU6YAEUJMVCLS74SPSQ2TTEOLJ27A3C6C627OQON47";
      decimals = 7;
      feed = some (codes "ETH");
    }
    ∷ record {
      symbol = codes "SOL";
      id = codes "CBVJ6GYJJ55ALTHN32OJEFGUZWWTMDFGIBCM42SPYQ4GWLKX2XARAP2N";
      decimals = 7;
      feed = some (codes "SOL");
    }
    ∷ record {
      symbol = codes "XRP";
      id = codes "CBSUHSWWZS5MEAGET6ES7UWI5A4QEVABXP6XJXB4XIUMRKMBIN7MJZ5D";
      decimals = 7;
      feed = some (codes "XRP");
    }
    ∷ record {
      symbol = codes "wBTC";
      id = codes "CBWPLT4YJFXFNDCZFUMCZZQ7UBM2FDIAXQNCM24NZODJDSJNUNMQ63PF";
      decimals = 8;
      feed = some (codes "BTC");
    }
    ∷ record {
      symbol = codes "BTC";
      id = codes "CAOWDS3FQ4RKAY3LP7EBRAN7QO2ZFPNXH2ITT47FSTEXPDZRNQHEQFS2";
      decimals = 7;
      feed = some (codes "BTC");
    }
    ∷ record {
      symbol = codes "USDT";
      id = codes "CDWFJXIZZFJ2CVGSAPZ5GWVEYCGDYE65XD2R7S4PWEDP2NFDWKNL4SWD";
      decimals = 7;
      feed = some (codes "USDT");
    }
    ∷ record {
      symbol = codes "EURC";
      id = codes "CCIMRLN4JLJTGU62FG7IQUP4X5IIAFPBTJQ5AHBM7QQJDVXBJGN632PZ";
      decimals = 7;
      feed = some (codes "EURC");
    }
    ∷ []
