-- ===== src/Types/LogSuper.antt =====
-- `LogSuper` of src/types.rs, the superblock of the log: its words, and the bytes behind them.
use jfsfuse.Prelude.{ℕ, List, ◌++◌, u32_bytes}

pub record LogSuper : Type 0 where
  pub magic : ℕ
  pub version : ℕ
  pub serial : ℕ
  pub size : ℕ
  pub bsize : ℕ
  pub l2bsize : ℕ
  pub flag : ℕ
  pub state : ℕ
  pub end : ℕ
  pub uuid : List ℕ
  pub label : List ℕ
  pub active : List (List ℕ)

-- `LOGREDONE`, `LOGMAGIC`, `LOGVERSION` and `LOGPSIZE`
abbrev pub logredone : ℕ
logredone = 1

abbrev pub logwrap : ℕ
logwrap = 2

abbrev pub logmagic : ℕ
logmagic = 2271560481

abbrev pub logversion : ℕ
logversion = 1

abbrev pub logpsize : ℕ
logpsize = 4096

-- `page_size`: the pages of the log
abbrev pub page_size : LogSuper → ℕ
page_size s = s.size

abbrev pub set_state : ℕ → LogSuper → LogSuper
set_state v s = record s { state = v }

abbrev pub set_end : ℕ → LogSuper → LogSuper
set_end v s = record s { end = v }

-- The first 36 bytes.
unfoldable pub head_bytes : LogSuper → List ℕ
head_bytes s =
    u32_bytes s.magic
    ++ u32_bytes s.version
    ++ u32_bytes s.serial
    ++ u32_bytes s.size
    ++ u32_bytes s.bsize
    ++ u32_bytes s.l2bsize
    ++ u32_bytes s.flag
    ++ u32_bytes s.state
    ++ u32_bytes s.end
