-- ===== src/Core/Swap/Types.antt =====
-- packages/core/src/swap.ts: hops, deployments, errors, the checks' steps and what the XOXNO SDK is asked.
use koul.Base.{
  ℕ, ◌==◌, Bool, true, false, ◌&&◌, Option, none, some, List, all, if◌then◌else◌, Text, text_eq,
}
use koul.Core.Decimal.{is_digit, big}

pub record SwapHop : Type 0 where
  pub dex : Text
  pub pool : Text
  pub token_from : Text
  pub token_to : Text

pub record SwapDeployment : Type 0 where
  pub quote_url : Text
  pub router : Text
  pub network_passphrase : Text

pub record ServerConfig : Type 0 where
  pub network_passphrase : Option Text
  pub router : Option Text
  pub protocol_version : Option ℕ

pub data SwapError : Type 0 where
  unreachable bad_status other_deployment bad_protocol same_token no_amount bad_slippage : SwapError
  no_route mismatch route_refused bad_amount broken_chain no_minimum : SwapError
  no_adapter : Text → SwapError

pub data Swapped (A : Type 0) : Type 0 where
  failed : SwapError → Swapped A
  swapped : A → Swapped A

infixl 5 ◌>>=◌
abbrev pub ◌>>=◌ : {A B : Type 0} → Swapped A → (A → Swapped B) → Swapped B
failed e >>= next = failed e
swapped a >>= next = next a

abbrev pub must : Bool → SwapError → Swapped (Unit {0})
must true e = swapped tt
must false e = failed e

abbrev pub given : {A : Type 0} → SwapError → Option A → Swapped A
given e none = failed e
given e (some a) = swapped a

-- `a === b`, where a may be missing
abbrev pub same : Option Text → Text → Bool
same none b = false
same (some a) b = text_eq a b

abbrev pub is_one : Option ℕ → Bool
is_one none = false
is_one (some n) = n == 1

-- `checkSwapDeployment`: the response's status is ok, and its body
unfoldable pub check_swap_deployment :
    SwapDeployment → Option (Bool × ServerConfig) → Swapped (Unit {0})
check_swap_deployment d response = do
  answer ← given unreachable response
  ok ← must answer.0 bad_status
  here ←
      must (same answer.1.network_passphrase d.network_passphrase && same answer.1.router d.router)
        other_deployment
  must (is_one answer.1.protocol_version) bad_protocol

-- `BigInt(s)`; a text that is not all digits is taken to throw.
unfoldable pub big_int : Text → Swapped ℕ
big_int s = if all is_digit s then swapped (big s) else failed bad_amount

-- What a route must do
pub record Expected : Type 0 where
  pub token_in : Text
  pub token_out : Text
  pub amount_in : ℕ
  pub min_out : ℕ

pub record Hop : Type 0 where
  pub venue : Text
  pub pool : Text
  pub token_in : Text
  pub token_out : Text

-- `verifyStellarRouteBytes` gives the route's own floor; `mapQuoteResponseToStrategySwap` is called for what it
-- refuses.
pub record SwapSdk : Type 0 where
  pub verify : Text → Expected → Option ℕ
  pub encode : (token_in token_out total_min_out : Text) → List Hop → Option Text
