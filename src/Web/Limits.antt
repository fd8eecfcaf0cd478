-- ===== src/Web/Limits.antt =====
-- web/lib/rate-limit.ts: the limits of the routes. A key of the store is a constructor, and what the sliding windows
-- answer comes from the interface `Limiter`.
pub mod Laws
use koul.Base.{
  ℕ, zero, suc, ◌+◌, ◌-◌, ◌/◌, max, Bool, true, false, not, Option, none, some, List, [], ◌∷◌, ◌++◌,
  ltb, or_else, if◌then◌else◌, Text, codes, trim, ◌==◌,
}
use koul.Core.Decimal.{to_text}

pub data LimitName : Type 0 where
  chat parse test_usdc faucet waitlist funds register : LimitName

pub data Window : Type 0 where
  minute hour day : Window

pub record LimitRule : Type 0 where
  pub requests : ℕ
  pub window : Window

abbrev pub per : ℕ → Window → LimitRule
per n w = record { requests = n; window = w }

abbrev pub limits : LimitName → List LimitRule
limits chat = per 60 minute ∷ per 1000 day ∷ []
limits parse = per 60 minute ∷ per 1000 day ∷ []
limits test_usdc = per 300 day ∷ []
limits faucet = per 20 day ∷ []
limits waitlist = per 5 minute ∷ per 30 day ∷ []
limits funds = per 20 hour ∷ []
limits register = per 10 minute ∷ per 50 day ∷ []

abbrev pub per_wallet : LimitName → Option LimitRule
per_wallet test_usdc = some (per 2 day)
per_wallet faucet = some (per 2 day)
per_wallet _ = none

pub data LimitKey : Type 0 where
  ip : (name : LimitName) (index : ℕ) → LimitKey
  wallet : (name : LimitName) → LimitKey

pub record Check : Type 0 where
  pub key : LimitKey
  pub id : Text
  pub rule : LimitRule

-- `s.split(",")[0]`
unfoldable pub before_comma : Text → Text
before_comma [] = []
before_comma (c ∷ s) = let rest = c ∷ before_comma s in if c == b',' then [] else rest

-- `real ?? forwarded?.split(",")[0]?.trim() ?? "unknown"`
abbrev pub client_ip : (real forwarded : Option Text) → Text
client_ip (some r) forwarded = r
client_ip none (some f) = trim (before_comma f)
client_ip none none = codes "unknown"

abbrev pub ip_checks : LimitName → Text → ℕ → List LimitRule → List Check
ip_checks name address i [] = []
ip_checks name address i (r ∷ rules) =
    record { key = ip name i; id = address; rule = r } ∷ ip_checks name address (suc i) rules

abbrev pub wallet_checks : LimitName → Option Text → Option LimitRule → List Check
wallet_checks name (some (c ∷ w)) (some r) = record { key = wallet name; id = c ∷ w; rule = r } ∷ []
wallet_checks name _ _ = []

unfoldable pub checks : LimitName → (address : Text) (person : Option Text) → List Check
checks name address person =
    ip_checks name address 0 (limits name) ++ wallet_checks name person (per_wallet name)

abbrev pub human : Window → Text
human minute = codes "minute"
human hour = codes "hour"
human day = codes "day"

-- A response of status 429, with `retry` its header and `error` its message
pub record Refusal : Type 0 where
  pub error : Text
  pub retry : ℕ

-- `Math.max(1, Math.ceil((reset - now) / 1000))`
abbrev pub retry_after : (reset now : ℕ) → ℕ
retry_after reset now = max 1 ((reset - now + 999) / 1000)

abbrev pub how_long : ℕ → Text
how_long retry =
    if ltb retry 120
    then to_text retry ++ codes " seconds"
    else codes "about " ++ (to_text ((retry + 59) / 60) ++ codes " minutes")

abbrev pub refusal_of : LimitRule → ℕ → Refusal
refusal_of r retry = record {
  error =
      codes "Too many requests. Try again in "
      ++ (how_long retry
          ++ (codes ". The limit is "
              ++ (to_text r.requests ++ (codes " per " ++ (human r.window ++ codes ".")))));
  retry = retry;
}

pub record Limiter : Type 1 where
  pub W : Type 0
  pub has_store : Bool
  -- an exception, or whether the request may go on and when the window starts anew
  pub limit : Check → W → Option (Bool × ℕ) × W
  pub now : W → ℕ

module _ (limiter : Limiter) where
  open limiter use {W}

  abbrev pub on_limit :
      Check → (W → Option Refusal × W) → Option (Bool × ℕ) × W → Option Refusal × W
  on_limit c more (none, w) = (none, w)
  on_limit c more (some (true, reset), w) = more w
  on_limit c more (some (false, reset), w) =
      (some (refusal_of c.rule (retry_after reset (limiter.now w))), w)

  unfoldable pub check_all : List Check → W → Option Refusal × W
  check_all [] w = (none, w)
  check_all (c ∷ cs) w =
      if not limiter.has_store then (none, w) else on_limit c (check_all cs) (limiter.limit c w)

  unfoldable pub rate_limit :
      LimitName → (address : Text) (person : Option Text) → W → Option Refusal × W
  rate_limit name address person w = check_all (checks name address person) w
