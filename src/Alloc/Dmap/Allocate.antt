-- ===== src/Alloc/Dmap/Allocate.antt =====
-- `alloc_extent` and `free_extent`: which blocks change hands, and the count of free blocks.
use jfsfuse.Prelude.{
  ℕ, ◌+◌, ◌^◌, ◌≤◌, ◌<◌, ◌≡◌, refl, ◌∙◌, ◌⊎◌, inl, inr, true, false, ◌||◌, [], ◌∷◌, ◌++◌, arith,
  ltb, ◌==◌, if◌then◌else◌, ge→ltb, Bool-cases, Option-cases, length, as_u32,
}
use jfsfuse.Types.Pxd
use jfsfuse.Types.Pxd.{Pxd}
use jfsfuse.Alloc.Dmap.{
  BlockAllocMap, AllocError, Result, is_free, find_any_run, extent, claim_run, alloc_extent,
  free_extent,
}
use jfsfuse.Alloc.Dmap.Bits.{
  count_free, FreeRun, UsedRun, in_run, length-mark, is_free-mark, count_free-mark_used,
  count_free-mark_free,
}
use jfsfuse.Alloc.Dmap.FirstFit.{find_any_run-IsRun}

-- The bitmap has a bit for each block, and `nfree` counts the free ones.
pub record IsCounted (a : BlockAllocMap) : Type 0 where
  pub sized : length a.free_map ≡ a.mapsize
  pub counted : a.nfree ≡ count_free a.free_map

-- What an allocation of `n` blocks is to do, for its answer and the map it leaves.
pub record Allocated (a : BlockAllocMap) (n start : ℕ) (b : BlockAllocMap) : Type 0 where
  pub inside : start + n ≤ a.mapsize
  pub was_free : FreeRun a.free_map start n
  pub bits :
      (k : ℕ) → is_free b.free_map k ≡ (if in_run start n k then false else is_free a.free_map k)
  pub count : b.nfree + n ≡ a.nfree
  pub recorded : b.allocated ≡ a.allocated ++ ((start, as_u32 n) ∷ [])
  pub others : (b.freed ≡ a.freed) × (b.mapsize ≡ a.mapsize)
  pub still_counted : IsCounted b

abbrev pub AllocSpec : BlockAllocMap → ℕ → Result Pxd × BlockAllocMap → Type 0
AllocSpec a n (Result.ok pxd, b) =
    (0 < n) × (n ≤ a.mapsize) × (start : ℕ) × (pxd ≡ extent start n) × Allocated a n start b
AllocSpec a n (Result.err AllocError.invalid_count, b) = (b ≡ a) × ((n ≡ 0) ⊎ (a.mapsize < n))
AllocSpec a n (Result.err AllocError.no_space, b) =
    (b ≡ a) × ((s : ℕ) → s + n ≤ a.mapsize → ¬ FreeRun a.free_map s n)
AllocSpec a n (Result.err AllocError.out_of_map, b) = ⊥

claim_run-Allocated :
    (a : BlockAllocMap) (n start : ℕ)
    → IsCounted a
    → (start + n ≤ a.mapsize) × FreeRun a.free_map start n
    → Allocated a n start (claim_run a start n)
claim_run-Allocated a n start c h =
    let room : start + n ≤ length a.free_map = omega (arith, c.sized, h.0) in
    let down = count_free-mark_used n start a.free_map room h.1 in
    record {
      inside = h.0;
      was_free = h.1;
      bits = λ k. is_free-mark n start k false a.free_map room;
      count = omega (arith, down, c.counted);
      recorded = refl;
      others = (refl, refl);
      still_counted = record {
        sized = length-mark n start false a.free_map ∙ c.sized;
        counted = omega (arith, down, c.counted);
      };
    }

-- An allocation answers with an error and the map as it was, or with a run that it claimed.
pub claim_cases :
    (b : BlockAllocMap) (n hint : ℕ)
    → IsCounted b
    → ((alloc_extent b n hint).1 ≡ b)
      ⊎ ((start : ℕ) × ((alloc_extent b n hint).1 ≡ claim_run b start n)
          × (n ≤ b.mapsize)
          × Allocated b n start (claim_run b start n))
unfolding alloc_extent
claim_cases b n hint c = elim (Bool-cases (n == 0 || ltb b.mapsize n)) [
  | inl bad ↦ inl (rw bad refl)
  | inr good ↦
      let run = find_any_run-IsRun b n hint (ground arith) in
      elim (Option-cases (find_any_run b n hint)) [
        | inl e ↦ inl (rw (good, e) refl)
        | inr (s, e) ↦
            inr (s, rw (good, e) refl, ground arith, claim_run-Allocated b n s c (rw e at run))
      ]
]

-- An allocation of `n` blocks with any hint, in a map whose bits are as many as its blocks and
-- whose free ones are counted. It succeeds exactly if `n` is not 0 and the map has a free run of
-- that length; it then takes such a run, clears its bits and no other, keeps the count right and
-- records the run. Otherwise it leaves the map as it was, with an error that says which case it
-- is.
pub alloc_extent-AllocSpec :
    (a : BlockAllocMap) (n hint : ℕ) → IsCounted a → AllocSpec a n (alloc_extent a n hint)
unfolding alloc_extent
alloc_extent-AllocSpec a n hint c = elim (Bool-cases (n == 0 || ltb a.mapsize n)) [
  | inl bad ↦ rw bad (refl, ground arith)
  | inr good ↦
      let run = find_any_run-IsRun a n hint (ground arith) in
      elim (Option-cases (find_any_run a n hint)) [
        | inl e ↦ rw (good, e) (refl, rw e at run)
        | inr (s, e) ↦
            rw (good, e)
              (ground arith, ground arith, s, refl, claim_run-Allocated a n s c (rw e at run))
      ]
]

-- The descriptor of a run names the run, if its length fits in 24 bits and its start in 40.
pub extent_lem :
    (start n : ℕ)
    → n < 2 ^ 24
    → start < 2 ^ 40
    → (Pxd.address (extent start n) ≡ start) × (Pxd.length_of (extent start n) ≡ n)
unfolding Pxd.address Pxd.length_of Pxd.set_length Pxd.set_address
extent_lem start n hn hs = omega arith

-- In a map whose free blocks are counted, freeing an extent inside the map whose blocks are all
-- in use succeeds, sets its bits and no other, and keeps `nfree` the number of free blocks.
pub free_extent_lem :
    (a : BlockAllocMap) (pxd : Pxd)
    → IsCounted a
    → Pxd.address pxd + Pxd.length_of pxd ≤ a.mapsize
    → UsedRun a.free_map (Pxd.address pxd) (Pxd.length_of pxd)
    → let (r, b) = free_extent a pxd in
      (r ≡ Result.ok tt)
      × ((k : ℕ)
          → is_free b.free_map k ≡ (
              if in_run (Pxd.address pxd) (Pxd.length_of pxd) k
              then true
              else is_free a.free_map k))
      × IsCounted b
unfolding free_extent
free_extent_lem a pxd c h u =
    let addr = Pxd.address pxd in
    let n = Pxd.length_of pxd in
    let room : addr + n ≤ length a.free_map = omega (arith, c.sized) in
    rw (ge→ltb a.mapsize (addr + n) h) (
      refl,
      λ k. is_free-mark n addr k true a.free_map room,
      record {
        sized = length-mark n addr true a.free_map ∙ c.sized;
        counted = omega (arith, count_free-mark_free n addr a.free_map room u, c.counted);
      },
    )
