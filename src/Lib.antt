-- ===== src/Lib.antt =====
-- Models and proofs for the axiom-ledger node: the state ledger that the EVM runs on, and the
-- system contracts that run on it: governance, the whitelist, the nodes, staking, and the
-- nonces of smart accounts.
--
-- The parts and the files that model them:
-- - Common: tests, lists, integers over the native numbers, maps as functions, machine words, and
--   the state and error monad of the system contracts.
-- - Ledger: internal/ledger. Types has SimpleAccount (account.go), the entries of the journal
--   (state_changer.go), AccessList (access_list.go) and StateLedgerImpl (state_ledger.go). Access,
--   Account, Journal and Operations have the functions: a method of an account returns the account
--   with the changes that it appends; GetOrCreateAccount and the operations take and return the
--   whole ledger; an operation or a revert that can panic returns an Option. World is what a
--   client sees, without the caches and the journal; Undo and Frame say what reverting does to it
--   and to the rest, Methods, Coded and Restore what the methods of accounts append, Steps and
--   AccessSteps each operation. Programs has transactions, as sequences of operations and calls
--   nested to any depth, where a call takes a snapshot and a call that fails reverts to it; Exec
--   is about them. Reads, Total and CodeHash stand beside them; Fits has what the world must
--   be like for the operations not to panic. Finalise has the end of a transaction
--   (state_ledger.go), and World/Settled what it does.
-- - SmartAccount: internal/executor/system/saccount; Nonces is nonce_manager.go.
-- - Access: internal/executor/system/access/whitelist.go. Whitelist has the contract, Providers who
--   vouches for whom, Invariant and Reach the states that calls reach.
-- - Governance: internal/executor/system/governance. Board is governance.go over a record of
--   handlers, Members and Strategy what its handlers inherit (default_proposal_permission_manager.go,
--   proposal_strategy.go); Handlers has a file for the handlers of council_manager.go, of
--   white_list_provider_manager.go, of gas_manager.go and chain_param_manager.go, and of
--   node_manager.go, which call Access and the epoch manager of Staking. Laws, Frame and Overdue
--   keep the invariant, Voting and Calls follow a vote, Proposing a proposal, Runs any calls;
--   Votes and Pending say what votes do. A call that fails is undone by the EVM.
-- - Nodes: internal/executor/system/framework/node_manager.go. Manager has the calls within an epoch,
--   Election the change of the epoch; Invariant, Moves, Calls, Registration and Reach keep the status
--   sets and the indexes in step with the registry, Bounds is about the election.
-- - Token: internal/executor/system/token/axc.go. Axc has the contract, Laws what its calls do on each
--   branch, Supply the total supply against the balances.
-- - Staking: internal/executor/system/framework. Types has the records of the contracts and their
--   slots; Rates the conversions between stake and token; Records the unlocking records of a token;
--   Token the ERC-721 token (liquid_staking_token.go); Epoch the epoch manager (epoch_manager.go);
--   Pool, Stake and Turn the pool (staking_pool.go): reads and creation, unlocking and withdrawing,
--   and the change of the epoch.
--
-- How the code is rendered: addresses, hashes, token ids, keys and values of slots are numbers, with 0
-- for the zero address; an absent map entry and a nil slice are `none`; `uint64` arithmetic wraps and
-- is written out, `big.Int` is an integer of any size. The journal and the logs of a transaction are
-- kept newest first. The errors of a system contract keep the state that was written before them,
-- since it is the EVM that reverts.
--
-- Parameters: the databases below the ledger (snapshot, tries, code storage), the Keccak hash, the
-- copy of an account of axiom-kit, and whether the capacity of a code's slice lets Go slice it to four
-- bytes, are the record Backend, with what the ledger relies on in
-- IsLawful. The node statuses and the check of an epoch of axiom-kit are parameters of the
-- contracts. The handlers of governance take the JSON decoding of the proposals' extra arguments, the
-- checks of addresses, keys and signatures, and the node manager contract as parameters.
-- The node manager takes the staking manager, the epoch manager, the sorting of Go's library, the
-- encoding of keys and a product in floating point as the record Contracts.
--
-- Not modelled: events, log statements but for the panics of their arguments, the storage trie that an
-- account opens on a read, the slots' JSON encoding (slots are typed), the dead counters of
-- stateChanger.dirty. No loop needs fuel: each runs over a list or over the structure of a program.
pub mod Common
pub mod Governance
pub mod Access
pub mod Nodes
pub mod Ledger
pub mod SmartAccount
pub mod Staking
pub mod Token
