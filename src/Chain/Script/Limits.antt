-- ===== src/Chain/Script/Limits.antt =====
-- src/chain/script.ts, lines 145 to 180: the limits, and what the interpreter knows of the spend.
use browser_coin_native_mine.Prelude.{ℕ, ◌≤◌, List, Bytes, All, length}

abbrev pub max_script_bytes : ℕ
max_script_bytes = 10_000

abbrev pub max_witness_items : ℕ
max_witness_items = 100

abbrev pub max_push_bytes : ℕ
max_push_bytes = 520

abbrev pub max_stack_size : ℕ
max_stack_size = 1000

abbrev pub max_ops : ℕ
max_ops = 201

abbrev pub max_multisig_keys : ℕ
max_multisig_keys = 20

abbrev pub max_num_bytes : ℕ
max_num_bytes = 4

abbrev pub locktime_threshold : ℕ
locktime_threshold = 500_000_000

pub record ScriptContext : Type 0 where
  pub sighash : Bytes
  pub block_height : ℕ
  pub block_mtp : ℕ

-- Items that a push or a witness may hold.
abbrev pub AreItems : List Bytes → Type 0
AreItems = All (λ item. length item ≤ max_push_bytes)
