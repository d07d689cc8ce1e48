-- ===== src/Tools/Partition/Tests.antt =====
-- Three workers on a small space.
use browser_coin_native_mine.Prelude.{◌≡◌, length}
use browser_coin_native_mine.Tools.Partition.{partition_nonce_space}
use browser_coin_native_mine.Tools.Partition.Tiling.{Tiles, partition_nonce_space-Tiles}

partition_nonce_space-Tiles_example :
    (length (partition_nonce_space 3 10 20) ≡ 3) × Tiles 10 20 (partition_nonce_space 3 10 20)
partition_nonce_space-Tiles_example = partition_nonce_space-Tiles 3 10 20
