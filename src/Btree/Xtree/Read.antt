-- ===== src/Btree/Xtree/Read.antt =====
-- The reads through the extent tree, `read_data` and `read_data_checked` of src/btree/xtree.rs, which
-- differ in the checks of the request's interrupt flag alone.
pub mod Total
pub mod Contents
mod Tests
use jfsfuse.Prelude.{
  ℕ, zero, suc, ◌+◌, ◌-◌, ◌*◌, ◌/◌, ◌%◌, min, Bool, true, false, Option, none, some, List, [], ◌∷◌,
  ◌++◌, ltb, ◌==◌, if◌then◌else◌, length, take, drop, replicate,
}
use jfsfuse.Types.XtRoot.{XtRoot}
use jfsfuse.Storage.Trait.{Storage}
use jfsfuse.Btree.Xtree.{map_blocks}

-- `BLOCK_SIZE`
abbrev pub block_bytes : ℕ
block_bytes = 4096

-- The variables of the loops; `signals` is what the next checks of the flag read.
pub record Reading : Type 0 where
  pub bytes : List ℕ
  pub remaining : ℕ
  pub buf_offset : ℕ
  pub signals : List Bool

-- The answers of a read: `panicked` is a block that is too short.
pub data ReadAnswer {ℓ} (A : Type ℓ) : Type ℓ where
  read : A → ReadAnswer A
  failed interrupted panicked : ReadAnswer A

abbrev pub then_read : {A B : Type 0} → (A → ReadAnswer B) → ReadAnswer A → ReadAnswer B
then_read f (ReadAnswer.read a) = f a
then_read f ReadAnswer.failed = ReadAnswer.failed
then_read f ReadAnswer.interrupted = ReadAnswer.interrupted
then_read f ReadAnswer.panicked = ReadAnswer.panicked

-- The bytes of a block that are asked for.
unfoldable pub copy_block : List ℕ → Reading → ReadAnswer Reading
copy_block d p =
    let n = min (block_bytes - p.buf_offset) p.remaining in
    if ltb (length d) (p.buf_offset + n)
    then ReadAnswer.panicked
    else ReadAnswer.read (record p {
      bytes = p.bytes ++ take n (drop p.buf_offset d);
      remaining = p.remaining - n;
      buf_offset = 0;
    })

abbrev pub copy_found : Option (List ℕ) → Reading → ReadAnswer Reading
copy_found none p = ReadAnswer.failed
copy_found (some d) p = copy_block d p

-- The zeros of a hole of `count` blocks.
abbrev pub copy_zeros : ℕ → Reading → Reading
copy_zeros count p =
    let zeros = min (count * block_bytes) p.remaining in
    record p {
      bytes = p.bytes ++ replicate zeros 0;
      remaining = p.remaining - zeros;
      buf_offset = 0;
    }

module _ {S : Type 0} (storage : Storage S) (s : S) where
  abbrev pub read_block : ℕ → Reading → ReadAnswer Reading
  read_block block p = copy_found (storage.read_block s block) p

  -- `token.check()?`, and the block
  abbrev pub read_checked : ℕ → List Bool → Reading → ReadAnswer Reading
  read_checked block [] p = read_block block p
  read_checked block (true ∷ bs) p = ReadAnswer.interrupted
  read_checked block (false ∷ bs) p = read_block block (record p { signals = bs })

  -- The inner loop, with `count` blocks left from `block` on.
  unfoldable pub read_blocks : ℕ → ℕ → Reading → ReadAnswer Reading
  unfolding copy_block
  read_blocks zero block p = ReadAnswer.read p
  read_blocks (suc count) block p =
      let rest = read_blocks count (block + 1) in
      if p.remaining == 0
      then ReadAnswer.read p
      else then_read rest (read_checked block p.signals p)

  -- The outer loop.
  unfoldable pub read_extents : List (ℕ × ℕ) → Reading → ReadAnswer Reading
  unfolding read_blocks
  read_extents [] p = ReadAnswer.read p
  read_extents ((addr, count) ∷ es) p =
      let rest = read_extents es in
      let q = copy_zeros count p in
      if addr == 0
      then (if q.remaining == 0 then ReadAnswer.read q else rest q)
      else then_read rest (read_blocks count addr p)

  unfoldable pub read_data_checked : XtRoot → ℕ → ℕ → List Bool → ReadAnswer (List ℕ)
  unfolding read_extents
  read_data_checked r offset len signals =
      let byte_offset = offset % block_bytes in
      let count = (len + byte_offset + block_bytes - 1) / block_bytes in
      then_read (λ p. ReadAnswer.read (take len p.bytes))
        (read_extents (map_blocks r (offset / block_bytes) count)
          (record { bytes = []; remaining = len; buf_offset = byte_offset; signals = signals }))

  unfoldable pub read_data : XtRoot → ℕ → ℕ → ReadAnswer (List ℕ)
  unfolding read_data_checked
  read_data r offset len = read_data_checked r offset len []
