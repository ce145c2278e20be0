-- ===== src/Lib.antt =====
-- Verification of the programs of this repository: two native Solana programs
-- (pinocchio-fundraiser, accel-p-escrow), five Anchor programs (an escrow,
-- programs/anchor-escrow-q2-2026; a whitelist with a transfer hook,
-- whitelist_transfer_hook_q2/programs/whitelist-transfer-hook-q2; the staking of assets,
-- programs/anchor-core-staking; a state account in an ephemeral rollup,
-- magicblock_er_example/programs/er-state-account; the scheduling of questions to a language model,
-- solana_gpt_oracle_tuktuk/programs/solana-gpt-oracle), and two libraries (generic-storage,
-- persistent-todo).
--
-- - Prelude: what the rest shares. `Lists` and `Tests` are lists and Boolean tests over the native
--   numbers, `Results` is `Result` with the `?` operator and the guards, `Int` is signed arithmetic
--   in 64 bits (saturating, checked, division that truncates), `Words` is unsigned words, their bytes
--   in little-endian order, and the two's complement reading, `Decimal` is `i64::to_string` and
--   `str::parse::<i64>`.
-- - Solana: what the native programs take from outside the repository. An account has lamports, an
--   owner and bytes; a `World` maps an address to its account, so that two views of one address
--   share it. A record `Platform` holds the calls of the runtime, the token program and the system
--   program. `Solana.Laws` states their documented behaviour (a call writes no account but those it
--   names, a token account has 165 bytes and belongs to the token program, a transfer moves the
--   amount, a closed account is empty); each entry below names, after
--   `Laws:`, those that its theorem needs. `Solana.Sample` is a concrete platform for the runs in the
--   tests. An instruction that fails is rolled back by the runtime, so an error carries no world.
-- - Fundraiser (pinocchio-fundraiser/src): `State` is state/fundraiser.rs and state/contributor.rs,
--   with the structs as bytes field by field; `Utils` is constants.rs, error.rs and
--   instructions/utils.rs; `Initialize`, `Contribute`, `CheckContributions` and `Refund` are the
--   handlers of the same names, cut where a proof needs a part of its own; the dispatch of lib.rs is
--   in Fundraiser.antt. Children of a module hold its theorems.
-- - Escrow (accel-p-escrow/src): `State`, `Make`, `Take` and `Refund` in the same way. The helpers
--   that take.rs and refund.rs both declare are once in `Utils`. `make` reads its amounts through a
--   raw pointer; the memory behind the instruction data is a field of the platform.
-- - AnchorEscrow (programs/anchor-escrow-q2-2026/src): an account is what stands at an address, of one
--   kind; the calls of the runtime, of the token programs and of the code that Anchor generates for
--   `init` and `close` are a function of the platform, whose documented effect is in
--   `AnchorEscrow.Laws` (`Performs`: a call that succeeds does that; `Answers`: it succeeds unless it
--   must fail; transfers charge no fee). `Make`, `Take` and `Refund` are the handlers with what their
--   `#[account(...)]` attributes demand, `Program` the dispatch. `Tokens`, `Loads` and `Owners` say
--   what single calls do; `Backed` and `Reach` hold the invariant over every sequence of steps, with
--   other programs in between; `Once` is about an offer's end.
-- - Whitelist (whitelist_transfer_hook_q2/programs/whitelist-transfer-hook-q2/src): Whitelist.antt is
--   state.rs, instructions/whitelist_operations.rs, the vault that instructions/initialize_whitelist.rs
--   writes, and instructions/transfer_hook.rs; `Setup` is the rest of initialize_whitelist.rs,
--   init_extra_account_meta.rs and mint_token.rs; `Program` is the dispatch and sequences of
--   transactions. The `#[account(...)]` attributes are guards in front of the handlers. `find`,
--   `iter_mut().find` and `position` with `remove` are recursions on the list. That the calls that
--   other programs accept do not write the vault is `Records` of `Whitelist.Ready`.
-- - Staking (programs/anchor-core-staking/src): a chain is the plugins of one asset and of its
--   collection, and the rewards paid out. The calls of mpl-core and of the token program are a
--   function of the host, whose documented effect is in `Staking.Laws`. `Attributes` holds the loops
--   over the attribute list that stake.rs, unstake.rs and claim_rewards.rs write out each for itself,
--   `Rewards` the arithmetic of days and amounts, `Counters` is utils.rs, and `Stake`, `Unstake` and
--   `ClaimRewards` are the handlers. `Setup` is initialize.rs, create_collection.rs and mint_asset.rs
--   on a world of all accounts, `Program` opens the reward account, runs the handlers on what they
--   load, and dispatches; `AreLawful` of `Ran` is what the other programs do to that world. The
--   accounts are loaded first in each transaction. The build checks overflow, so a power that
--   overflows panics.
-- - Storage (generic-storage/src/lib.rs): the container over a format that is a record of two
--   functions; the crates behind the three formats are parameters.
-- - Todo (persistent-todo/src): `Fifo` is queue.rs, Todo.antt is main.rs. A run of the command line
--   is a function from the file system to the output, the result and the file system. `Log` is what
--   the list promises, `Sessions` runs one process after another, `Liveness` is about success. The
--   addition to the counter wraps or fails according to how the program is built.
-- - ErState (magicblock_er_example/programs/er-state-account/src): `Handlers` are the instructions that
--   write the account, `Outside` those that only call other programs, `Program` the dispatch. The
--   delegation program, the randomness oracle and the task queue are a function of the host, whose
--   documented effect is in `ErState.Laws`. Each transaction runs on the accounts of one layer.
-- - Oracle (solana_gpt_oracle_tuktuk/programs/solana-gpt-oracle/src): `Handlers` are the six
--   instructions, `Program` the dispatch and sequences of transactions. A text is its bytes. The
--   calls that the other programs accept are recorded; that they do not write the program's account
--   is `Records` of `Oracle.Laws`.
--
-- Every loop is a structural recursion; no fuel is used. Machine words are native numbers with
-- their checks written out, and a panic is an error value of its own.
--
-- Not modelled: the lamports that pay for accounts in the Anchor programs; how the delegation
-- program keeps the layers of the rollup in step; logging, clients, tests and deployment.
pub mod Prelude
pub mod Solana
pub mod Fundraiser
pub mod Escrow
pub mod AnchorEscrow
pub mod Whitelist
pub mod Staking
pub mod Storage
pub mod Todo
pub mod ErState
pub mod Oracle
