-- ===== src/Alloc/Dmap/Restore.antt =====
-- Rolling back a transaction gives the bitmap and the count that it began with; freeing what the
-- same transaction allocated is what breaks this.
use jfsfuse.Prelude.{
  ℕ, ◌+◌, ◌-◌, ◌^◌, ◌≤◌, ◌<◌, ◌≡◌, refl, sym, ap, ◌∙◌, inl, inr, Bool, true, false, List, [], arith,
  if◌then◌else◌, ge→ltb, length, ext_get_or, as_u32,
}
use jfsfuse.Types.Pxd
use jfsfuse.Types.Pxd.{Pxd}
use jfsfuse.Alloc.Dmap.{
  BlockAllocMap, Result, is_free, claim_run, release_run, alloc_extent, free_extent, undo_allocs,
  rollback,
}
use jfsfuse.Alloc.Dmap.Bits.{UsedRun, in_run, length-mark, is_free-mark}
use jfsfuse.Alloc.Dmap.Allocate.{
  claim_cases, alloc_extent-AllocSpec, IsCounted, Allocated, extent_lem, free_extent_lem,
}
use jfsfuse.Alloc.Dmap.Rollback.{
  in_extents, any-in_extents, total-append, undo_allocs_lem, undo_frees_lem, total, Within,
  Within-append, Txn, Undoable,
}

run_at :
    (m : List Bool) (v : Bool) (s n k : ℕ)
    → ((i : ℕ) → i < n → is_free m (s + i) ≡ v)
    → in_run s n k ≡ true
    → is_free m k ≡ v
run_at m v s n k u h =
    let l : s ≤ k = ground arith in
    let r : k < s + n = ground arith in
    let e : s + (k - s) ≡ k = omega arith in ap (is_free m) (sym e) ∙ u (k - s) (omega arith)

claim_run-Undoable :
    (a b : BlockAllocMap) (n start : ℕ)
    → Undoable a b
    → n < 2 ^ 32
    → Allocated b n start (claim_run b start n)
    → Undoable a (claim_run b start n)
claim_run-Undoable a b n start u small d = record {
  still_counted = d.still_counted;
  same_size = u.same_size;
  allocated_in =
      Within-append a.mapsize start (as_u32 n) b.allocated u.allocated_in
        (omega (arith, d.inside, u.same_size));
  freed_in = u.freed_in;
  bits = λ k. ground (
    arith,
    u.bits k,
    d.bits k,
    any-in_extents k start (as_u32 n) b.allocated,
    run_at b.free_map true start n k d.was_free,
  );
  count = omega (arith, u.count, d.count, total-append b.allocated start (as_u32 n));
}

free_extent-release :
    (b : BlockAllocMap) (pxd : Pxd)
    → Pxd.address pxd + Pxd.length_of pxd ≤ b.mapsize
    → (free_extent b pxd).1 ≡ release_run b (Pxd.address pxd) (Pxd.length_of pxd)
unfolding free_extent
free_extent-release b pxd h = rw (ge→ltb b.mapsize (Pxd.address pxd + Pxd.length_of pxd) h) refl

release_run-Undoable :
    (a b : BlockAllocMap) (addr n : ℕ)
    → Undoable a b
    → addr + n ≤ b.mapsize
    → UsedRun a.free_map addr n
    → IsCounted (release_run b addr n)
    → Undoable a (release_run b addr n)
release_run-Undoable a b addr n u inside before c = record {
  still_counted = c;
  same_size = u.same_size;
  allocated_in = u.allocated_in;
  freed_in = Within-append a.mapsize addr n b.freed u.freed_in (omega (arith, u.same_size));
  bits = λ k. ground (
    arith,
    u.bits k,
    any-in_extents k addr n b.freed,
    run_at a.free_map false addr n k before,
    is_free-mark n addr k true b.free_map (omega (arith, u.still_counted)),
  );
  count = omega (arith, u.count, total-append b.freed addr n);
}

-- Every step of such a transaction keeps the account.
pub Txn-Undoable :
    (a : BlockAllocMap) {b : BlockAllocMap}
    → IsCounted a
    → a.mapsize < 2 ^ 32
    → (a.allocated ≡ []) × (a.freed ≡ [])
    → Txn a b
    → Undoable a b
Txn-Undoable a c small start Txn.began = record {
  still_counted = c;
  same_size = refl;
  allocated_in = rw (start.0) tt;
  freed_in = rw (start.1) tt;
  bits = λ k. rw (start.0, start.1) refl;
  count = rw (start.0, start.1) refl;
}
Txn-Undoable a c small start (Txn.allocates {b} n hint t) =
    let u = Txn-Undoable a c small start t in
    elim (claim_cases b n hint u.still_counted) [
      | inl e ↦ rw e u
      | inr (s, e, l, d) ↦ rw e (claim_run-Undoable a b n s u (omega (arith, u.same_size)) d)
    ]
Txn-Undoable a c small start (Txn.frees {b} pxd t inside now before) =
    let u = Txn-Undoable a c small start t in
    let addr = Pxd.address pxd in
    let n = Pxd.length_of pxd in
    let f = free_extent_lem b pxd u.still_counted inside now in
    rw (free_extent-release b pxd inside) (
      release_run-Undoable a b addr n u inside before
        (rw (free_extent-release b pxd inside) at (f.2)))

undone_bits :
    (b : BlockAllocMap) (size k : ℕ)
    → length b.free_map ≡ size
    → Within size b.allocated
    → Within size b.freed
    → total b.freed ≤ b.nfree + total b.allocated
    → (length (rollback b).free_map ≡ size)
      × (is_free (rollback b).free_map k ≡ (
          if in_extents k b.freed
          then false
          else if in_extents k b.allocated
          then true
          else is_free b.free_map k))
      × ((rollback b).nfree ≡ b.nfree + total b.allocated - total b.freed)
unfolding rollback
undone_bits b size k e ha hf low =
    let mid = undo_allocs b.allocated (b.free_map, b.nfree) in
    let one = undo_allocs_lem b.allocated b.free_map b.nfree k (rw e ha) in
    let two =
      undo_frees_lem b.freed (mid.0) (mid.1) k (rw (one.0, e) hf) (omega (arith, one.2, low)) in
    (two.0 ∙ one.0 ∙ e, rw (sym (one.1)) (two.1), rw (sym (one.2)) (two.2))

-- A transaction begins at `a`, with the free blocks counted, no records pending and a map of
-- less than 2^32 blocks. It allocates with any outcome, and frees extents inside the map whose
-- blocks are in use and were in use when it began. A rollback after any such transaction gives
-- the bitmap and the count of free blocks of `a`, and leaves no records and no dirty pages.
pub rollback-Txn :
    (a b : BlockAllocMap)
    → IsCounted a
    → a.mapsize < 2 ^ 32
    → (a.allocated ≡ []) × (a.freed ≡ [])
    → Txn a b
    → ((rollback b).free_map ≡ a.free_map)
      × ((rollback b).nfree ≡ a.nfree)
      × ((rollback b).allocated ≡ [])
      × ((rollback b).freed ≡ [])
      × ((rollback b).dirty_pages ≡ [])
unfolding rollback
rollback-Txn a b c small start t =
    let u = Txn-Undoable a c small start t in
    let size = u.still_counted.sized ∙ u.same_size in
    let done = λ (k : ℕ).
      undone_bits b a.mapsize k size u.allocated_in u.freed_in (omega (arith, u.count)) in
    (
      ext_get_or (rollback b).free_map a.free_map false ((done 0).0 ∙ sym c.sized)
          (λ k. (done k).1 ∙ sym (u.bits k)),
      omega (arith, (done 0).2, u.count),
      refl,
      refl,
      refl,
    )

-- Where the transaction is one allocation of fewer than 2^24 blocks, in a map of less than 2^32
-- blocks with its free blocks counted and no records pending, and a free of the extent it gave,
-- the rollback does not give the bitmap back: every block of the extent was free before and is
-- in use after.
pub alloc_free_rollback_leaks :
    (a b : BlockAllocMap) (n hint k : ℕ) (pxd : Pxd)
    → IsCounted a
    → a.mapsize < 2 ^ 32
    → n < 2 ^ 24
    → (a.allocated ≡ []) × (a.freed ≡ [])
    → alloc_extent a n hint ≡ (Result.ok pxd, b)
    → in_run (Pxd.address pxd) n k ≡ true
    → (is_free a.free_map k ≡ true) × (is_free (rollback (free_extent b pxd).1).free_map k ≡ false)
unfolding total Pxd.length_of
alloc_free_rollback_leaks a b n hint k pxd c size small none_yet e inside =
    let (some_, fits, start, is_pxd, d) = rw e at (alloc_extent-AllocSpec a n hint c) in
    let named : (Pxd.address pxd ≡ start) × (Pxd.length_of pxd ≡ n) =
      rw is_pxd (extent_lem start n small (omega (arith, d.inside))) in
    let room : Pxd.address pxd + Pxd.length_of pxd ≤ b.mapsize =
      omega (arith, named.0, named.1, d.inside, d.others.1) in
    let f = release_run b (Pxd.address pxd) (Pxd.length_of pxd) in
    let held : Within a.mapsize f.allocated =
      rw (d.recorded, none_yet.0) (omega (arith, d.inside), tt) in
    let let_go : Within a.mapsize f.freed =
      rw (d.others.0, none_yet.1) (omega (arith, room, d.others.1), tt) in
    let sized =
      length-mark (Pxd.length_of pxd) (Pxd.address pxd) true b.free_map
      ∙ d.still_counted.sized
      ∙ d.others.1 in
    let undone =
      undone_bits f a.mapsize k sized held let_go (rw (d.others.0, none_yet.1) (omega arith)) in
    let hit : in_extents k f.freed ≡ true = rw (d.others.0, none_yet.1, named.1, inside) refl in
    rw (free_extent-release b pxd room)
      (run_at a.free_map true start n k d.was_free (rw (named.0) at inside), undone.1 ∙ rw hit refl)
