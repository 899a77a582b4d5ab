-- ===== src/Storage/Trait.antt =====
-- The trait `Storage` of src/storage/mod.rs, over an unknown state. A mutating operation answers
-- whether it succeeded, with the state it leaves either way.
use jfsfuse.Prelude.{ℕ, ◌≡◌, Bool, true, Option, some, List, ◌==◌, if◌then◌else◌}

-- `read_bytes_eof_ok` of the recovery tells the end of the file from the other errors.
pub data Read : Type 0 where
  bytes : List ℕ → Read
  unexpected_eof failed : Read

pub record Storage (S : Type 0) : Type 0 where
  pub size_blocks : S → ℕ
  pub read_block : S → ℕ → Option (List ℕ)
  pub write_block : S → ℕ → List ℕ → Bool × S
  pub read_bytes : S → ℕ → ℕ → Read
  pub write_bytes : S → ℕ → List ℕ → Bool × S
  pub sync : S → Bool × S
  pub flush_data : S → Bool × S
  pub flush_metadata : S → Bool × S

-- What a block holds after a successful write of a block.
pub record IsLawful {S : Type 0} (storage : Storage S) : Type 0 where
  pub read_block-write_block :
      (s t : S) (b c : ℕ) (d : List ℕ)
      → storage.write_block s b d ≡ (true, t)
      → storage.read_block t c ≡ (if c == b then some d else storage.read_block s c)
