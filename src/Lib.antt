-- ===== src/Lib.antt =====
-- BrowserCoin: the consensus core of the chain. Numbers are natural numbers with the limits written
-- out, JavaScript's `bigint` amounts are integers, byte strings are lists of numbers, texts in
-- hexadecimal are lists of character codes, a `Map` is an association list in insertion order, and a
-- function that throws or returns an error text has a result.
--
-- The parts, and the files of src/ that they model:
--   * Util/Hex, Util/Binary, Util/Compact (src/util/binary.ts): bytesToHex and hexToBytes, the
--     big-endian encodings, compareBytes, hashMeetsTarget, compactToTarget and targetToCompact. A
--     read behind the end is 0 in readU16be and readU32be and an error in readU64be.
--   * Util/Merkle (src/util/merkle.ts): merkleRoot.
--   * Chain/Crypto (src/crypto/hash.ts, src/crypto/keys.ts): the noble libraries are an interface of
--     three functions, with the lengths of the digests; the compositions are definitions.
--   * Chain/Genesis (src/chain/genesis.ts): the constants and blockReward.
--   * Chain/Script (src/chain/script.ts): Num has the script numbers, Opcode the table, Stack the stack
--     opcodes, Exec the others, Multisig opCheckMultisig, and Machine evalScript with its loop. The
--     loop runs on fuel, the length of the script, which is enough as each round takes a byte.
--   * Chain/Script/Disasm (src/chain/scriptDisasm.ts): tokenize, without the names of the opcodes.
--   * Chain/Script/Build (src/chain/scriptBuild.ts): pushData and the hash-lock templates.
--   * Chain/Transaction (src/chain/transaction.ts): the three kinds, encodeTx, decodeTx (Decode) and
--     validateTxStructure (Validate).
--   * Chain/State (src/chain/state.ts): accounts and locks, applyTx and applyBlockTxs, and in Root
--     stateRoot. applyTx runs evalScript for a redeem, on the hash of Chain/Transaction.
--   * Chain/Block (src/chain/block.ts): headers and blocks on the wire, over encodeTx and decodeTx.
--   * Chain/Consensus (src/chain/consensus.ts, src/chain/fork.ts): asertTarget, nextDifficulty,
--     blockWork, medianTimePast and scriptsActiveForMtp. The model's shift of a target has no limit; that
--     of the source throws for a timestamp beyond every check.
--   * Chain/Pow (src/crypto/pow.ts, checkPoW of src/chain/consensus.ts): powHash and checkPoW, over
--     Argon2id, a parameter with the library's arguments, and Chain/Pow/Sandglass
--     (src/crypto/sandglass.ts): the fill of the buffer and the walk through it.
--   * Chain/Supply (src/chain/genesis.ts): the sum of the rewards.
--   * Chain/Blockchain (src/chain/blockchain.ts): the class, its indices and pruneStates; Accept has
--     addBlockInternal and its callers, Seed seedHistoricalBlock, seedHeader, seedAnchor, attachBody and
--     lowestBodylessHeight, Reorg reorgDelta, Canonical iterateCanonical and snapshotAt, and Tip tipState.
--     The other modules have the proofs. An operation is one step: what another call does while
--     addBlockInternal awaits the proof of work is not modelled, nor are the listeners.
--   * Chain/Mempool (src/chain/mempool.ts): add with its replacement and eviction, and in Select and
--     Prune selectForBlock and pruneUnminable.
--   * Net/FastSync (src/net/fastSync.ts): the checks of the headers by a rolling window, the choice of
--     the headers whose proof of work is checked, the check of the snapshot, and the seeding of
--     Chain/Blockchain. What servers send is an argument.
--   * Net/Backfill (src/net/backfill.ts): oneBatch, over attachBody and lowestBodylessHeight. The blocks
--     sent and the verifier are arguments.
--   * Tools/Partition (tools/pool-partition.ts): partitionNonceSpace.
-- Prelude has the shared names and lemmas, Samples a cryptographic stand-in for the tests. The loop of
-- targetToCompact runs on the target as fuel, more than the number of its bytes; the Merkle loop runs
-- on the number of leaves, each round of it halving the layer. The loops of reorgDelta,
-- iterateCanonical and snapshotAt run on the height of the tip, as each round goes one block down, the
-- scan for a missing body on the largest height without one, and tokenize on the length of the script.
--
-- Not modelled: Argon2id and the key library's signing, the rows of state.ts, the
-- explanations of scriptDisasm.ts, and the rest of the network, the storage, server, miner and
-- user-interface code, which is input and output around the chain.
pub mod Prelude
pub mod Util
pub mod Chain
pub mod Net
pub mod Tools
pub mod Samples
