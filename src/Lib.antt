-- ===== src/Lib.antt =====
-- Verification of the LEZ programs: the token program, the constant-product market maker,
-- the time-weighted price oracle, the stablecoin, and the associated token accounts.
--
-- The programs run in an execution zone that hands a handler its accounts and takes back a list
-- of account diffs and, from the AMM, a list of calls to other programs. A handler of the source
-- panics where it refuses; here it is a function into `Result`, whose errors are named after the
-- panic messages. Several messages that say the same of different accounts share one name.
--
-- Parts and files:
-- - Shared.antt and its children: Boolean tests, results, checked machine words, signed numbers, lists by index.
-- - Host.antt: accounts, diffs and codecs as the programs use them. The execution layer
--   (`lee_core`), Borsh, the hash function and the integer square root are not in the
--   repository: they are the fields of `TokenHost`, `AmmHost`, `OracleHost` and
--   `StablecoinHost`, which every handler takes.
-- - Token.antt: programs/token. Token/Core.antt has the account types of
--   programs/token/core/src/lib.rs; Token/Transfer.antt, Mint.antt, Burn.antt, Create.antt
--   (initialize.rs, print_nft.rs, new_definition.rs) and SetAuthority.antt have the handlers of
--   programs/token/src, one function per handler and one for the `match` inside it;
--   Token/Outcome.antt, Authority.antt and Ledger.antt have the theorems.
-- - Amm.antt: programs/amm. Amm/Core.antt has the account types and calls, Amm/Math.antt the
--   arithmetic of programs/amm/core/src/lib.rs, with its laws in Amm/Math; Amm/Pda.antt the
--   addresses; Amm/Accounts.antt the checks that handlers share; Amm/Swap.antt the pricing
--   routines of programs/amm/src/swap.rs, Amm/Swap/Handlers.antt its handlers, and
--   Amm/Swap/Settlement.antt and Amm/Swap/Invariant.antt the theorems. Amm/Liquidity.antt has
--   what the liquidity handlers share, and its children Add.antt, Remove.antt, Sync.antt and
--   Create.antt the handlers of add.rs, remove.rs, sync.rs and new_definition.rs, each split into
--   its checks, its amounts, its calls and the new pool state; Shares.antt, Redemption.antt,
--   Calls.antt, Growth.antt, Deposits.antt, Withdrawals.antt, RoundTrip.antt, Opening.antt and
--   Synced.antt have their theorems, and Pools.antt the step relation of a pool under all handlers. Amm/Admin.antt has
--   the handlers of initialize.rs, update_config.rs and withdraw_protocol_fees.rs, with their
--   theorems in Amm/Admin/Governance.antt. Amm/Fixture.antt is the instance that the examples run.
-- - Stablecoin.antt: programs/stablecoin/core. Stablecoin/Math.antt has the functions of math.rs,
--   with Math/Projection.antt, Math/Compounding.antt and Math/Decay.antt for their laws;
--   Stablecoin/Collateralization.antt has collateralization.rs; Stablecoin/Signed.antt the signed
--   words and Stablecoin/Controller.antt the tick of controller.rs, with its theorems in
--   Controller/Bounds.antt and Controller/Feedback.antt. Stablecoin/State.antt has the accounts and
--   addresses of programs/stablecoin/core/src, Stablecoin/Checks.antt the shared checks of checks.rs
--   and the fee accrual of accrue_stability_fee.rs in programs/stablecoin/src, Stablecoin/Globals.antt
--   the handlers on global accounts, with Globals/Accruals.antt, Updates.antt and
--   Advances.antt, and Stablecoin/Positions.antt those
--   on positions: Positions/Debt.antt (generate_debt.rs, repay_debt.rs), Collateral.antt
--   (deposit_collateral.rs, withdraw_collateral.rs) and Lifecycle.antt (open_position.rs,
--   close_position.rs), with Backing.antt, Circulation.antt, Security.antt, Withdrawals.antt and
--   Freezing.antt for their theorems. Stablecoin/Admin.antt has the setters of admin.rs and the
--   bands of checks.rs, Admin/Bootstrap.antt the bootstrap of initialize_program.rs, and
--   Admin/Bands.antt, Founding.antt, Tuning.antt, History.antt and Accrual.antt their theorems.
--   Stablecoin/Runs.antt and Admin/Examples.antt run them.
-- - Twap.antt: programs/twap_oracle. Twap/Core.antt has the account types and addresses of
--   programs/twap_oracle/core/src/lib.rs, Twap/Root.antt its square root and tick conversions, with
--   the root's theorem in Twap/Root/Floor.antt. Twap/Feed.antt has the bodies of record_tick.rs and
--   publish_price.rs after the accounts are read; its children History.antt (what the ring stands
--   for), Ticks.antt (sums and averages), Observed.antt, Recordable.antt, Averaged.antt and
--   Published.antt have their theorems. Twap/Handlers.antt has the two handlers, with Recording.antt,
--   Publishing.antt and Feeding.antt (the states of a feed) for their theorems; Twap/Source.antt has
--   the four handlers of a price source, with Source/Access.antt for what they may write.
-- The handlers of the AMM and the stablecoin call the token program by chained calls; a call is a value here,
-- and the theorems on vaults speak of the transfers, mints and burns that the calls ask
-- for.
-- - Ata.antt: programs/ata/core/src/lib.rs and the handlers of create.rs, transfer.rs and burn.rs in
--   programs/ata/src, with the theorem on transfers in Ata/Ownership.antt.
--
-- Numbers are natural numbers, and `u128` operations are checked as in the source; the 256-bit
-- intermediates are exact below 2 ^ 256, as `alloy_primitives` documents. An account id is its
-- 32 bytes read as one big-endian number. The compounding loops of the stablecoin run on fuel 64,
-- one round for each bit of their 64-bit exponent, and end with an error of their own if it runs
-- out. The loop of the oracle's square root runs on fuel 129, one turn for each two bits of a 256-bit
-- number and one to stop, and is proved to end. Every other loop is a recursion on a list.
--
-- Not modelled: the dispatch of instructions and the constraints on accounts that the framework's
-- macros generate in the guest binaries, the runtime's application of diffs, and the programs and
-- client code that no file above names: the faucet, the AMM's creation of oracle accounts, and the modules
-- and applications around the programs.
pub mod Shared
pub mod Host
pub mod Token
pub mod Twap
pub mod Amm
pub mod Stablecoin
pub mod Ata
