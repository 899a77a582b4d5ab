-- ===== src/Storage/Memory/Tests.antt =====
-- A store of two blocks, and the theorem on `MemoryStorage` applied to it.
use jfsfuse.Prelude.{ℕ, ◌≡◌, arith, replicate, length-replicate}
use jfsfuse.Storage.Memory.{StorageResult, new, read_block, write_block}
use jfsfuse.Storage.Memory.RoundTrip.{IsSized, read_block-write_block}

new-IsSized : IsSized (new 2)
unfolding new
new-IsSized = record { filled = length-replicate {A = ℕ} 8192 0; small = omega arith }

read_block-write_block_example :
    ((write_block (new 2) 0 (replicate 4096 7)).0 ≡ StorageResult.ok tt)
    × IsSized (write_block (new 2) 0 (replicate 4096 7)).1
    × (read_block (write_block (new 2) 0 (replicate 4096 7)).1 0
        ≡ StorageResult.ok (replicate 4096 7))
unfolding new
read_block-write_block_example =
    read_block-write_block (new 2) 0 0 (replicate 4096 7) new-IsSized
      (length-replicate {A = ℕ} 4096 7) (omega arith) (omega arith)
