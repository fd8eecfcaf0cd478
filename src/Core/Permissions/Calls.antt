-- ===== src/Core/Permissions/Calls.antt =====
-- The calls and transfers that each action makes on chain: what the router calls for it and what
-- those contracts pull, written down action by action, independently of how the permissions are
-- put together.
use koul.Base.{List, [], ◌∷◌, Text, or_else}
use koul.Core.Schema.{
  Action, move_supply, supply_from_wallet, repay_from_wallet, repay_with_collateral,
  withdraw_to_wallet, swap_from_wallet, withdraw_and_swap,
}
use koul.Core.Permissions.Defs.{Contracts, Call, call}

abbrev pub aggregator_of : Contracts → Text
aggregator_of c = or_else c.aggregator []

abbrev pub calls_of : Contracts → Action → List Call
calls_of c (move_supply from to a) =
    call c.controller "withdraw" ∷ call c.controller "supply" ∷ call c.usdc "transfer" ∷ []
calls_of c (supply_from_wallet hub a) = call c.controller "supply" ∷ call c.usdc "transfer" ∷ []
calls_of c (repay_from_wallet hub a) = call c.controller "repay" ∷ call c.usdc "transfer" ∷ []
calls_of c (repay_with_collateral from to a) =
    call c.controller "withdraw" ∷ call c.controller "repay" ∷ call c.usdc "transfer" ∷ []
calls_of c (withdraw_to_wallet hub a) = call c.controller "withdraw" ∷ []
calls_of c (swap_from_wallet tin tout a bps) =
    call (aggregator_of c) "execute_strategy" ∷ call tin "transfer" ∷ []
calls_of c (withdraw_and_swap hub tout a bps) =
    call c.controller "withdraw"
    ∷ call (aggregator_of c) "execute_strategy"
    ∷ call c.usdc "transfer"
    ∷ []

-- who is paid by the transfers of an action
abbrev pub paid_by : Contracts → Action → List Text
paid_by c (withdraw_to_wallet hub a) = []
paid_by c (swap_from_wallet tin tout a bps) = aggregator_of c ∷ []
paid_by c (withdraw_and_swap hub tout a bps) = aggregator_of c ∷ []
paid_by c _ = c.pool ∷ []
