-- ===== src/Chain/Genesis.antt =====
-- src/chain/genesis.ts: the constants of the protocol and the block reward.
use browser_coin_native_mine.Prelude.{ℕ, ◌-◌, ◌*◌, ◌/◌, ◌^◌, leb, if◌then◌else◌}

abbrev pub chain_id : ℕ
chain_id = 0xc01dfeed

abbrev pub coin : ℕ
coin = 100_000_000

abbrev pub initial_reward : ℕ
initial_reward = 50 * coin

abbrev pub halving_interval : ℕ
halving_interval = 210_000

abbrev pub max_money : ℕ
max_money = 21_000_000 * coin

abbrev pub target_block_time_s : ℕ
target_block_time_s = 150

abbrev pub difficulty_window : ℕ
difficulty_window = 50

abbrev pub mtp_window : ℕ
mtp_window = 11

abbrev pub halflife_s : ℕ
halflife_s = 600

abbrev pub emergency_drop_mult : ℕ
emergency_drop_mult = 6

abbrev pub max_future_time_s : ℕ
max_future_time_s = 10 * 60

abbrev pub max_block_bytes : ℕ
max_block_bytes = 256 * 1024

abbrev pub snapshot_depth : ℕ
snapshot_depth = 100

abbrev pub max_mempool_txs : ℕ
max_mempool_txs = 5_000

abbrev pub min_fee_per_byte : ℕ
min_fee_per_byte = 1

abbrev pub mempool_tx_ttl_ms : ℕ
mempool_tx_ttl_ms = 30 * 60 * 1000

abbrev pub genesis_difficulty_compact : ℕ
genesis_difficulty_compact = 0x20020000

abbrev pub max_target : ℕ
max_target = 2 ^ 256 - 1

abbrev pub genesis_timestamp : ℕ
genesis_timestamp = 1779700000

abbrev pub fork1_activation_time : ℕ
fork1_activation_time = 1783267200

abbrev pub sandglass_fork_height : ℕ
sandglass_fork_height = 33_550

abbrev pub sandglass_anchor_timestamp : ℕ
sandglass_anchor_timestamp = 1784721600

abbrev pub sandglass_anchor_clamp_blocks : ℕ
sandglass_anchor_clamp_blocks = 2000

abbrev pub sandglass_anchor_attempts : ℕ
sandglass_anchor_attempts = 5_000_000

abbrev pub sandglass2_anchor_height : ℕ
sandglass2_anchor_height = 35_550

-- `INITIAL_REWARD >> halvings`, nothing from the 64th halving on.
unfoldable pub block_reward : ℕ → ℕ
block_reward height =
    let halvings = height / halving_interval in
    if leb 64 halvings then 0 else initial_reward / 2 ^ halvings
