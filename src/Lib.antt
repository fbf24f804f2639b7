-- ===== src/Lib.antt =====
-- WAM Coin's Python tools: the supply audit, the difficulty model, the treasury's ledger check, the
-- genesis generator, the tools that make, read and check keys and addresses, the treasury's
-- spending tool, the sweep of the pool's fee, the consensus floor of the releases and the
-- monitor of reorganisations, and the patcher of the upstream sources.
--
-- The parts and where they are modelled (a file of this library: the code, from the repository's root):
-- - Emission, Emission.Audit: scripts/verify_supply.py. `block_subsidy`, `emission_table` and the checks
--   of `main` in their order; `failures` is FAILURES. What Python computes in floating point there is
--   a parameter (`Floats`).
-- - Ledger: `treasury_at` and `accrued_through` of scripts/check_treasury_ledger.py. The supply audit and
--   the ledger check read the same header, and Emission.Audit.Income compares their results.
--   Ledger.Check is `main`, from the rows of the table and the node's answers to the exit code.
-- - Compact, Dgw: scripts/dgw_model.py, the compact encoding, `dgw` and `validate`.
-- - Base58: `b58check` of scripts/gen_founder_key.py and `base58_decode_check` of
--   genesis/genesis_generator.py; the other scripts read base58 by the same steps and share `raw_of`.
-- - Keys, Keys.Wif, Keys.Address: `to_wif`, `to_address` and `wif_to_privkey` of
--   scripts/gen_founder_key.py, `_wif_problem` of scripts/treasury_spend.py, and
--   scripts/verify_address.py. What one tool writes, the others read.
-- - Ripemd: `ripemd160` of scripts/gen_founder_key.py, which the addresses are made with.
-- - Treasury: scripts/treasury_spend.py. Treasury is the check of a transaction against its plan
--   (`_verify_against_plan`), Treasury.Batch is `_batch_problem`, Treasury.Select is the choice of
--   outputs in `cmd_plan`, Treasury.Sign is `cmd_sign`, Treasury.Send is `cmd_broadcast`.
--   An input has its JSON pair as it stands and the outpoint that it is converted to. The node's answers are parameters, and so
--   are the two results that the script computes in floating point: how many outputs a part takes
--   (`_plan_part`), and the report of `_broadcast_one`, which can only refuse.
-- - Curve: secp256k1 in scripts/gen_founder_key.py, from `_inv` to `privkey_to_pubkey`.
-- - Founder: `offline_gate`, `verify_backup` and the making of a key in `main` of
--   scripts/gen_founder_key.py, on top of Curve, Ripemd and Keys.
-- - Floor: scripts/consensus_floor.py, from the list of tags and the matches of its patterns.
-- - Reorg, Reorg.Watch: scripts/check_reorg.py, which heights are read again, how a fork is narrowed down,
--   and `check` and `main` with the state that one run leaves for the next.
-- - Patch: the class `Patcher` and `main` of scripts/patch_upstream.py, on a tree of files.
-- - Sweep: `main` of scripts/sweep_pool_fee.py, from the answers it gets to what it does.
-- - Genesis: genesis/genesis_generator.py from the address to the 76 bytes in front of the nonce.
--   Genesis.Mine is `mine`: each worker is a state, `act` is its next atomic action, and `Reach` has the
--   states that some interleaving reaches. Readers of the wire format, written apart from the generator, stand beside its writers.
-- - Common: bytes, bits, lists and tests that the parts share. Tests: runs and examples.
--
-- Conventions. Numbers are natural numbers, or the integers of Common.Int where the code meets a
-- negative one. Byte strings and texts are lists of numbers. A function that raises returns an Option
-- or a Result. SHA-256 is hashlib's and is a parameter; theorems that need it ask only that a digest
-- is 32 bytes.
--
-- Loops that are not over a list run on fuel. `bits`, `write_digits` and `magnitude` divide a
-- number until it is 0 and get the number itself, which is more than the number of its digits, and
-- so does the double-and-add loop `mul_loop`. `accrue` gets one round for each height and one to
-- stop; that it returns is part of what is proved of it. `bracket` gets a round for each height of
-- its pool. The padding of RIPEMD-160 gets 64 rounds, one for each rest of a division by 64.
--
-- Not modelled: reading wam-params.h and other files, regular expressions, RPC, ssh, git, the
-- terminal, argument parsing and printing; what is computed in floating point, which are the
-- simulation of scripts/dgw_model.py, `_plan_part` and `atoms`; the RandomX hash; what the edits
-- of scripts/patch_upstream.py say, and its test that the tree has a src directory; the website and the operations scripts; the C++ node and miner
-- and the JavaScript services.
pub mod Common
pub mod Emission
pub mod Ledger
pub mod Compact
pub mod Dgw
pub mod Base58
pub mod Ripemd
pub mod Curve
pub mod Keys
pub mod Genesis
pub mod Founder
pub mod Treasury
pub mod Sweep
pub mod Floor
pub mod Reorg
pub mod Patch
pub mod Tests
