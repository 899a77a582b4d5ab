-- ===== src/Alloc/Dmap.antt =====
-- `BlockAllocMap` of src/alloc/dmap.rs: the free-block bitmap, its count and the records of the
-- open transaction. The storage handle is not touched by the operations here.
mod Tests
pub mod Bits
pub mod Pages
pub mod FirstFit
pub mod Allocate
pub mod Rollback
pub mod Restore
use jfsfuse.Prelude.{
  ℕ, zero, suc, ◌+◌, ◌-◌, ◌/◌, ◌^◌, ◌<◌, max, ap, Bool, true, false, not, ◌||◌, Option, none, some,
  List, [], ◌∷◌, ◌++◌, map, ltb, leb, ◌==◌, if◌then◌else◌, length, get_or, set, any, All, as_u32,
}
use jfsfuse.Types.Pxd
use jfsfuse.Types.Pxd.{Pxd}

-- `BLOCKS_PER_DMAP`
abbrev pub blocks_per_dmap : ℕ
blocks_per_dmap = 8192

-- `dirty_pages` is a hash set: a list without repetition.
pub record BlockAllocMap : Type 0 where
  pub mapsize : ℕ
  pub nfree : ℕ
  pub free_map : List Bool
  pub allocated : List (ℕ × ℕ)
  pub freed : List (ℕ × ℕ)
  pub dirty_pages : List ℕ

pub data AllocError : Type 0 where
  invalid_count no_space out_of_map : AllocError

pub data Result {ℓ} (A : Type ℓ) : Type ℓ where
  ok : A → Result A
  err : AllocError → Result A

abbrev pub is_free : List Bool → ℕ → Bool
is_free m b = get_or m b false

-- `HashSet::insert`
abbrev pub insert_page : ℕ → List ℕ → List ℕ
insert_page p ps = if any (λ q. q == p) ps then ps else p ∷ ps

-- `for i in 0..n { if addr + i < free_map.len() { free_map[addr + i] = v } }`
unfoldable pub mark : ℕ → ℕ → Bool → List Bool → List Bool
mark zero addr v m = m
mark (suc n) addr v m = mark n (addr + 1) v (if ltb addr (length m) then set m addr v else m)

-- The loop of `find_free_run`, with `rounds` blocks left from `blk` on.
unfoldable pub find_run_loop : ℕ → List Bool → ℕ → ℕ → ℕ → ℕ → Option ℕ
find_run_loop zero m nblocks blk run_start run_len = none
find_run_loop (suc rounds) m nblocks blk run_start run_len =
    let start = if run_len == 0 then blk else run_start in
    let longer = find_run_loop rounds m nblocks (blk + 1) start (run_len + 1) in
    let broken = find_run_loop rounds m nblocks (blk + 1) run_start 0 in
    if is_free m blk then (if leb nblocks (run_len + 1) then some start else longer) else broken

unfoldable pub find_free_run : BlockAllocMap → ℕ → ℕ → Option ℕ
unfolding find_run_loop
find_free_run a nblocks start = find_run_loop (a.mapsize - start) a.free_map nblocks start start 0

-- The second scan, from the start of the map, is made if the first finds nothing.
unfoldable pub find_any_run : BlockAllocMap → ℕ → ℕ → Option ℕ
find_any_run a nblocks hint = elim (find_free_run a nblocks hint) [
  | some s ↦ some s
  | none ↦ find_free_run a nblocks 0
]

-- The descriptor that `alloc_extent` returns.
abbrev pub extent : ℕ → ℕ → Pxd
extent start n = Pxd.set_length (as_u32 n) (Pxd.set_address start Pxd.default)

abbrev pub claim_run : BlockAllocMap → ℕ → ℕ → BlockAllocMap
claim_run a start n = record a {
  free_map = mark n start false a.free_map;
  nfree = a.nfree - n;
  allocated = a.allocated ++ ((start, as_u32 n) ∷ []);
  dirty_pages = insert_page (1 + start / blocks_per_dmap) a.dirty_pages;
}

-- On an error the map stays as it is.
unfoldable pub alloc_extent : BlockAllocMap → ℕ → ℕ → Result Pxd × BlockAllocMap
alloc_extent a nblocks hint =
    if nblocks == 0 || ltb a.mapsize nblocks
    then (Result.err AllocError.invalid_count, a)
    else elim (find_any_run a nblocks hint) [
      | none ↦ (Result.err AllocError.no_space, a)
      | some start ↦ (Result.ok (extent start nblocks), claim_run a start nblocks)
    ]

abbrev pub release_run : BlockAllocMap → ℕ → ℕ → BlockAllocMap
release_run a addr len = record a {
  free_map = mark len addr true a.free_map;
  nfree = a.nfree + len;
  freed = a.freed ++ ((addr, len) ∷ []);
  dirty_pages = insert_page (1 + addr / blocks_per_dmap) a.dirty_pages;
}

unfoldable pub free_extent : BlockAllocMap → Pxd → Result (Unit {0}) × BlockAllocMap
free_extent a pxd =
    let addr = Pxd.address pxd in
    let len = Pxd.length_of pxd in
    if ltb a.mapsize (addr + len)
    then (Result.err AllocError.out_of_map, a)
    else (Result.ok tt, release_run a addr len)

-- One of the two loops of `rollback`: over the recorded extents, in order.
unfoldable pub undo_allocs : List (ℕ × ℕ) → List Bool × ℕ → List Bool × ℕ
undo_allocs [] s = s
undo_allocs ((addr, n) ∷ es) (m, nfree) = undo_allocs es (mark n addr true m, nfree + n)

-- `a -= b` on `u64`, which wraps below 0
abbrev pub sub_u64 : ℕ → ℕ → ℕ
sub_u64 a b = if ltb a b then a + 2 ^ 64 - b else a - b

unfoldable pub undo_frees : List (ℕ × ℕ) → List Bool × ℕ → List Bool × ℕ
undo_frees [] s = s
undo_frees ((addr, n) ∷ es) (m, nfree) = undo_frees es (mark n addr false m, sub_u64 nfree n)

unfoldable pub rollback : BlockAllocMap → BlockAllocMap
rollback a =
    let (m, n) = undo_frees a.freed (undo_allocs a.allocated (a.free_map, a.nfree)) in
    record a { free_map = m; nfree = n; allocated = []; freed = []; dirty_pages = [] }

unfoldable pub num_ag : BlockAllocMap → ℕ
num_ag a = if ltb 0 (a.mapsize / 4) then 4 else 1

unfoldable pub ag_for_block : BlockAllocMap → ℕ → ℕ
unfolding num_ag
ag_for_block a block =
    let ag_size = a.mapsize / max (num_ag a) 1 in
    if ltb 0 ag_size then as_u32 (block / ag_size) else 0
