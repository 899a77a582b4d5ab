-- ===== src/Storage/Memory.antt =====
-- `MemoryStorage` of src/storage/mod.rs: a store of 4096-byte blocks in a vector, and the checks of
-- a write that the stores share.
mod Tests
pub mod RoundTrip
use jfsfuse.Prelude.{
  ℕ, zero, suc, ◌+◌, ◌-◌, ◌*◌, ◌/◌, ◌%◌, ◌^◌, ap, not, ◌||◌, List, [], ◌∷◌, ltb, leb, ◌==◌,
  if◌then◌else◌, length, set, replicate, byte,
}

abbrev pub block_size : ℕ
block_size = 4096

-- `panic` is a slice whose bounds are out of order.
pub data StorageResult {ℓ} (A : Type ℓ) : Type ℓ where
  ok : A → StorageResult A
  other panic : StorageResult A
  block_out_of_range : ℕ → ℕ → StorageResult A

pub record MemoryStorage : Type 0 where
  pub data_ : List ℕ
  pub size : ℕ

unfoldable pub new : ℕ → MemoryStorage
new size_blocks = record {
  data_ = replicate (size_blocks * block_size) 0;
  size = size_blocks * block_size;
}

-- the product wraps
abbrev pub block_to_offset : ℕ → ℕ
block_to_offset block = block * block_size % 2 ^ 64

abbrev pub size_blocks : MemoryStorage → ℕ
size_blocks s = s.size / block_size

-- The bytes `data[offset..offset + n]`, and the same with other bytes copied over them.
unfoldable pub bytes_at : ℕ → ℕ → List ℕ → List ℕ
bytes_at zero offset d = []
bytes_at (suc n) offset d = byte d offset ∷ bytes_at n (offset + 1) d

unfoldable pub copy_at : List ℕ → ℕ → List ℕ → List ℕ
copy_at d offset [] = d
copy_at d offset (b ∷ bs) = copy_at (set d offset b) (offset + 1) bs

unfoldable pub read_bytes : MemoryStorage → ℕ → ℕ → StorageResult (List ℕ)
read_bytes s offset len =
    let end_ = (offset + len) % 2 ^ 64 in
    if ltb s.size end_
    then StorageResult.other
    else if ltb end_ offset
    then StorageResult.panic
    else StorageResult.ok (bytes_at (end_ - offset) offset s.data_)

unfoldable pub write_bytes : MemoryStorage → ℕ → List ℕ → StorageResult (Unit {0}) × MemoryStorage
write_bytes s offset d =
    let end_ = (offset + length d) % 2 ^ 64 in
    if ltb s.size end_
    then (StorageResult.other, s)
    else if ltb end_ offset
    then (StorageResult.panic, s)
    else (StorageResult.ok tt, record s { data_ = copy_at s.data_ offset d })

unfoldable pub read_block : MemoryStorage → ℕ → StorageResult (List ℕ)
unfolding read_bytes
read_block s block = read_bytes s (block_to_offset block) block_size

unfoldable pub write_block : MemoryStorage → ℕ → List ℕ → StorageResult (Unit {0}) × MemoryStorage
unfolding write_bytes
write_block s block d = write_bytes s (block_to_offset block) d

unfoldable pub read_blocks : MemoryStorage → ℕ → ℕ → StorageResult (List ℕ)
unfolding read_bytes
read_blocks s block count = read_bytes s (block_to_offset block) (count * block_size)

unfoldable pub validate_block_write : ℕ → ℕ → List ℕ → StorageResult (Unit {0})
validate_block_write storage_size block d =
    if not (length d == block_size)
    then StorageResult.other
    else if leb storage_size block
    then StorageResult.block_out_of_range block storage_size
    else StorageResult.ok tt

unfoldable pub validate_block_range : ℕ → ℕ → List ℕ → StorageResult (Unit {0})
validate_block_range storage_size block d =
    let count = length d / block_size in
    let end_ = block + count in
    if not (length d % block_size == 0) || count == 0 || leb (2 ^ 64) end_
    then StorageResult.other
    else if leb storage_size block
    then StorageResult.block_out_of_range block storage_size
    else if ltb storage_size end_
    then StorageResult.block_out_of_range end_ storage_size
    else StorageResult.ok tt

unfoldable pub write_blocks : MemoryStorage → ℕ → List ℕ → StorageResult (Unit {0}) × MemoryStorage
write_blocks s block d = elim (validate_block_range (size_blocks s) block d) [
  | StorageResult.ok u ↦ write_bytes s (block_to_offset block) d
  | StorageResult.other ↦ (StorageResult.other, s)
  | StorageResult.panic ↦ (StorageResult.panic, s)
  | StorageResult.block_out_of_range b n ↦ (StorageResult.block_out_of_range b n, s)
]
