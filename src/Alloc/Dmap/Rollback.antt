-- ===== src/Alloc/Dmap/Rollback.antt =====
-- `rollback` undoes what a transaction did to the bitmap, if the transaction freed no block that it
-- had itself allocated.
use jfsfuse.Prelude.{
  ℕ, ◌+◌, ◌-◌, ◌≤◌, ◌≡◌, refl, ◌∙◌, Bool, true, false, ◌||◌, List, [], ◌∷◌, ◌++◌, arith,
  if◌then◌else◌, ge→ltb, length, any, All, All-append, any-append,
}
use jfsfuse.Types.Pxd
use jfsfuse.Types.Pxd.{Pxd}
use jfsfuse.Alloc.Dmap.{
  BlockAllocMap, is_free, mark, alloc_extent, free_extent, undo_allocs, undo_frees, sub_u64,
}
use jfsfuse.Alloc.Dmap.Bits.{UsedRun, in_run, length-mark, is_free-mark}
use jfsfuse.Alloc.Dmap.Allocate.{IsCounted}

-- whether one of the recorded extents holds the block
abbrev pub in_extents : ℕ → List (ℕ × ℕ) → Bool
in_extents k es = any (λ e. in_run e.0 e.1 k) es

-- the recorded extents lie inside the map
abbrev pub Within : ℕ → List (ℕ × ℕ) → Type 0
Within size es = All (λ e. e.0 + e.1 ≤ size) es

unfoldable pub total : List (ℕ × ℕ) → ℕ
total [] = 0
total ((s, n) ∷ es) = n + total es

pub undo_allocs_lem :
    (es : List (ℕ × ℕ)) (m : List Bool) (f k : ℕ)
    → Within (length m) es
    → (length (undo_allocs es (m, f)).0 ≡ length m)
      × (is_free (undo_allocs es (m, f)).0 k ≡ (if in_extents k es then true else is_free m k))
      × ((undo_allocs es (m, f)).1 ≡ f + total es)
unfolding undo_allocs total
undo_allocs_lem [] m f k h = (refl, refl, omega arith)
undo_allocs_lem ((s, n) ∷ es) m f k h = ground (
  arith,
  length-mark n s true m,
  is_free-mark n s k true m,
  undo_allocs_lem es (mark n s true m) (f + n) k (rw (length-mark n s true m) h.1),
)

pub undo_frees_lem :
    (es : List (ℕ × ℕ)) (m : List Bool) (f k : ℕ)
    → Within (length m) es
    → total es ≤ f
    → (length (undo_frees es (m, f)).0 ≡ length m)
      × (is_free (undo_frees es (m, f)).0 k ≡ (if in_extents k es then false else is_free m k))
      × ((undo_frees es (m, f)).1 ≡ f - total es)
unfolding undo_frees total
undo_frees_lem [] m f k h low = (refl, refl, omega arith)
undo_frees_lem ((s, n) ∷ es) m f k h low =
    let down : sub_u64 f n ≡ f - n = rw (ge→ltb f n (omega arith)) refl in
    ground (
      arith,
      length-mark n s false m,
      is_free-mark n s k false m,
      down,
      undo_frees_lem es (mark n s false m) (sub_u64 f n) k (rw (length-mark n s false m) h.1)
          (omega (arith, down)),
    )

pub any-in_extents :
    (k s n : ℕ) (es : List (ℕ × ℕ))
    → in_extents k (es ++ ((s, n) ∷ [])) ≡ (in_extents k es || in_run s n k)
any-in_extents k s n es = any-append (λ e. in_run e.0 e.1 k) es ((s, n) ∷ []) ∙ ground arith

pub total-append : (es : List (ℕ × ℕ)) (s n : ℕ) → total (es ++ ((s, n) ∷ [])) ≡ total es + n
unfolding total
total-append [] s n = omega arith
total-append ((t, k) ∷ es) s n = omega (arith, total-append es s n)

pub Within-append :
    (size s n : ℕ) (es : List (ℕ × ℕ))
    → Within size es
    → s + n ≤ size
    → Within size (es ++ ((s, n) ∷ []))
Within-append size s n es h k = All-append (λ e. e.0 + e.1 ≤ size) es ((s, n) ∷ []) h (k, tt)

-- A transaction that began at `a`, up to now: allocations with any outcome, and frees of extents
-- whose blocks are in use and were in use when it began.
pub data Txn (a : BlockAllocMap) : BlockAllocMap → Type 0 where
  began : Txn a a
  allocates : {b : BlockAllocMap} (n hint : ℕ) → Txn a b → Txn a (alloc_extent b n hint).1
  frees :
      {b : BlockAllocMap} (pxd : Pxd)
      → Txn a b
      → Pxd.address pxd + Pxd.length_of pxd ≤ b.mapsize
      → UsedRun b.free_map (Pxd.address pxd) (Pxd.length_of pxd)
      → UsedRun a.free_map (Pxd.address pxd) (Pxd.length_of pxd)
      → Txn a (free_extent b pxd).1

-- What the records of the transaction say of the bitmap at its begin.
pub record Undoable (a b : BlockAllocMap) : Type 0 where
  pub still_counted : IsCounted b
  pub same_size : b.mapsize ≡ a.mapsize
  pub allocated_in : Within a.mapsize b.allocated
  pub freed_in : Within a.mapsize b.freed
  pub bits :
      (k : ℕ)
      → is_free a.free_map k ≡ (
          if in_extents k b.freed
          then false
          else if in_extents k b.allocated
          then true
          else is_free b.free_map k)
  pub count : b.nfree + total b.allocated ≡ a.nfree + total b.freed
