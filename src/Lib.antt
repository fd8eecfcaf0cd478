-- ===== src/Lib.antt =====
-- Koul: the logic of a conditional execution engine on Stellar, as its TypeScript has it.
--
-- A person's autopilot is a list of rules: conditions, one action, a cooldown. The pages edit rules in
-- their own form (web/lib/model), the core library checks, encodes and decodes the router's form
-- (packages/core), and the agent key is granted the calls that the rules need. Around this stand the
-- chat that drafts rules (web/lib/chat), the playground (web/lib/landing), deposits and withdrawals
-- through landing accounts (packages/core/src/funds.ts), the trading competition, the traction page, the
-- keeper that submits what is due, and the web server's routes, invites and fee relay.
--
-- Which file models what:
--   Base          helpers: tests, lists, texts as lists of code points, maps, integers, numbers
--   Samples       concrete numbers for the tests
--   Chat          web/lib/chat/reducer.ts: `chat_reducer` is `chatReducer`, one function per action
--   Core          Decimal, Schema, Validate, Permissions, Templates, Codec: packages/core/src/schema.ts,
--                 validate.ts, permissions.ts, templates.ts, codec.ts, and web/lib/model/access.ts;
--                 Swap and SecretGuard: packages/core/src/swap.ts and anchor/secret-guard.ts
--   Competition   Value, Moves, Flags, Rank, Chunks: packages/core/src/competition.ts
--   Traction      State, Apply, Groups, Summary, Days: packages/core/src/traction.ts; Overlap, Balance
--                 and Split are its laws
--   Model         Tokens, Rules, Evaluate, Mapping, Pairing, SaveSteps, Capital, History, Tally,
--                 Editing, Engine:
--                 packages/core/src/tokens.ts, web/lib/koul.ts, web/lib/model/*.ts and
--                 web/lib/landing/engine.ts
--   Landing       Defs, Runs, Build, Submit, Create: packages/core/src/anchor/landing.ts. A run takes a
--                 state and gives a result or an exception with the state after it; its log holds what
--                 the landing key signs, what is sent and polled, and the wiping of the key
--   Funds         State, Amount, Advance, Runs, Funded: packages/core/src/funds.ts; `advance` is one call, `polls`
--                 the calls one after another
--   Keeper        State, Plan, Submit, Grants, Pass: keeper/src/keeper.ts; `run_pass` is one turn of its
--                 loop, with the wallets of a phase one after another; `submit_user` alone also takes what
--                 the other workers do to the shared state while it waits
--   Web           Routing, Invites, Proxy, Limits, Relay: web/lib/app-host.ts, web/lib/invite.ts,
--                 web/proxy.ts, web/lib/rate-limit.ts and web/lib/relay-server.ts (`lockChannel`,
--                 `submitSponsored`). Base64 of an HMAC, queries and
--                 the lower case are the interface `WebApi`; the sliding windows are `Limiter`, the relay's store and network `Relay`, and its
--                 log of what was sent and told is not in the source
--
-- State is passed on and returned. An exception is an error value or a missing answer. JavaScript's
-- fractional numbers are the interface `Num` (Base/Numbers), without laws; a theorem that needs one
-- names it. Where a number overflows, `to_core_autopilot` has no answer. The Stellar SDK's contract values are the interface `Sdk` (Core/Codec/Native), with its
-- documented results as laws. What the anchor, the network and the relay answer is an argument, or, in
-- Landing and Keeper, comes from the interfaces `Network` and `Chain`, which have no laws. An error
-- or a sentence of a page is a constructor in place of its text. Loops are structural recursion; writing
-- a number out (`print`) takes n + 1 rounds for n, more than it has digits, and the days of the traction
-- page are counted before they are walked. Waiting for a channel of the relay takes at most 31 rounds, as
-- its 12 seconds hold 30 waits.
--
-- Not modelled: network and storage access (the anchor clients, chain reads, the other web
-- routes, Redis, the scripts beside the keeper's loop), sealing of records (node's crypto), the user
-- interface, the contracts in Rust, and the parts of the modelled files that build texts for pages.
pub mod Base
pub mod Samples
pub mod Chat
pub mod Core
pub mod Competition
pub mod Traction
pub mod Model
pub mod Landing
pub mod Funds
pub mod Keeper
pub mod Web
