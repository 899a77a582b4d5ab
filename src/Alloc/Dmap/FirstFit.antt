-- ===== src/Alloc/Dmap/FirstFit.antt =====
-- `find_free_run` finds the first free run of the length asked for, if there is one.
use jfsfuse.Prelude.{
  ℕ, zero, suc, ◌+◌, ◌-◌, ◌≤◌, ◌<◌, ◌≡◌, refl, ap, ◌∙◌, inl, inr, Bool, true, false, Option, none,
  some, List, arith, leb, ◌==◌, if◌then◌else◌, leb→le, leb→gt, Bool-cases, Option-cases,
}
use native.Mathlib.Decide.{dec_lt}
use jfsfuse.Alloc.Dmap.{BlockAllocMap, is_free, find_run_loop, find_free_run, find_any_run}
use jfsfuse.Alloc.Dmap.Bits.{FreeRun}

-- No free run of `n` blocks starts in `[from, to)`.
abbrev pub NoRun : List Bool → ℕ → ℕ → ℕ → Type 0
NoRun m n from to = (s : ℕ) → from ≤ s → s < to → ¬ FreeRun m s n

-- The answer of a search of `[from, end)` for a run of `n` blocks.
abbrev pub IsFirst : List Bool → ℕ → ℕ → ℕ → Option ℕ → Type 0
IsFirst m n from end none = (s : ℕ) → from ≤ s → s + n ≤ end → ¬ FreeRun m s n
IsFirst m n from end (some s) = (from ≤ s) × (s + n ≤ end) × FreeRun m s n × NoRun m n from s

module _ (m : List Bool) (n from : ℕ) (pos : 0 < n) where
  -- The loop at block `blk`: the run being counted is free and starts at `cur`, and none of length
  -- `n` starts before it.
  record Inv (blk run_start run_len cur : ℕ) : Type 0 where
    at : cur + run_len ≡ blk
    named : 0 < run_len → run_start ≡ cur
    short : run_len < n
    low : from ≤ cur
    free : FreeRun m cur run_len
    none_before : NoRun m n from cur

  run_longer : (cur l : ℕ) → FreeRun m cur l → is_free m (cur + l) ≡ true → FreeRun m cur (l + 1)
  run_longer cur l f e j h = elim (dec_lt j l) [
    | yes lt ↦ f j lt
    | no ge ↦ let p : j ≡ l = omega arith in rw p e
  ]

  -- A used block at `blk` rules out every run that starts in the current one or at the block.
  none_through :
      (blk cur l : ℕ)
      → cur + l ≡ blk
      → l < n
      → NoRun m n from cur
      → is_free m blk ≡ false
      → NoRun m n from (blk + 1)
  none_through blk cur l e h before used s lo hi run = elim (dec_lt s cur) [
    | yes lt ↦ before s lo lt run
    | no ge ↦
        let p : s + (blk - s) ≡ blk = omega arith in
        absurd (cc (run (blk - s) (omega arith), ap (is_free m) p, used))
  ]

  find_run_loop-IsFirst :
      (rounds blk run_start run_len cur : ℕ)
      → Inv blk run_start run_len cur
      → IsFirst m n from (blk + rounds) (find_run_loop rounds m n blk run_start run_len)
  unfolding find_run_loop
  find_run_loop-IsFirst zero blk run_start run_len cur i =
      λ s lo hi run. i.none_before s lo (omega arith) run
  find_run_loop-IsFirst (suc rounds) blk run_start run_len cur i =
      elim (Bool-cases (is_free m blk)) [
        | inr used ↦ rw used (
            rw shift
              (find_run_loop-IsFirst rounds (blk + 1) run_start 0 (blk + 1) (Inv-broken i used)))
        | inl free ↦ elim (Bool-cases (leb n (run_len + 1))) [
          | inl done ↦
              rw (free, done) (rw (start_is i) (found i free (leb→le n (run_len + 1) done)))
          | inr more ↦
              rw (free, more)
                (rw shift (
                  find_run_loop-IsFirst rounds (blk + 1) (if run_len == 0 then blk else run_start)
                    (run_len + 1) cur (Inv-longer i free (leb→gt n (run_len + 1) more))))
        ]
      ]
    where
      shift : blk + suc rounds ≡ blk + 1 + rounds
      shift = omega arith

      start_is : Inv blk run_start run_len cur → (if run_len == 0 then blk else run_start) ≡ cur
      start_is i = ground (arith, i.named)

      found :
          Inv blk run_start run_len cur
          → is_free m blk ≡ true
          → n ≤ run_len + 1
          → (from ≤ cur) × (cur + n ≤ blk + suc rounds) × FreeRun m cur n × NoRun m n from cur
      found i f h =
          let e : n ≡ run_len + 1 = omega arith in
          (
            i.low,
            omega arith,
            λ j hj. run_longer cur run_len i.free (ap (is_free m) i.at ∙ f) j (omega arith),
            i.none_before,
          )

      Inv-longer :
          Inv blk run_start run_len cur
          → is_free m blk ≡ true
          → run_len + 1 < n
          → Inv (blk + 1) (if run_len == 0 then blk else run_start) (run_len + 1) cur
      Inv-longer i f h = record {
        at = omega arith;
        named = λ _. start_is i;
        short = h;
        low = i.low;
        free = run_longer cur run_len i.free (ap (is_free m) i.at ∙ f);
        none_before = i.none_before;
      }

      Inv-broken :
          Inv blk run_start run_len cur
          → is_free m blk ≡ false
          → Inv (blk + 1) run_start 0 (blk + 1)
      Inv-broken i u = record {
        at = omega arith;
        named = λ h. absurd (omega arith);
        short = pos;
        low = omega arith;
        free = λ j h. absurd (omega arith);
        none_before = none_through blk cur run_len i.at i.short i.none_before u;
      }

-- For at least one block and a start inside the map, `find_free_run` answers with the first free
-- run of `nblocks` blocks from `start` on, and with nothing exactly if there is none up to the
-- end of the map.
pub find_free_run-IsFirst :
    (a : BlockAllocMap) (nblocks start : ℕ)
    → 0 < nblocks
    → start ≤ a.mapsize
    → IsFirst a.free_map nblocks start a.mapsize (find_free_run a nblocks start)
unfolding find_free_run
find_free_run-IsFirst a n start pos h = rw e at (
    find_run_loop-IsFirst a.free_map n start pos (a.mapsize - start) start start 0 start (record {
      at = omega arith;
      named = λ k. absurd (omega arith);
      short = pos;
      low = omega arith;
      free = λ j k. absurd (omega arith);
      none_before = λ s lo hi. absurd (omega arith);
    }))
  where
    e : start + (a.mapsize - start) ≡ a.mapsize
    e = omega arith

find_free_run_past :
    (a : BlockAllocMap) (n start : ℕ) → a.mapsize ≤ start → find_free_run a n start ≡ none
unfolding find_free_run
find_free_run_past a n start h = let e : a.mapsize - start ≡ 0 = omega arith in rw e refl

-- A free run, or no free run in the whole map.
abbrev pub IsRun : List Bool → ℕ → ℕ → Option ℕ → Type 0
IsRun m n end none = (s : ℕ) → s + n ≤ end → ¬ FreeRun m s n
IsRun m n end (some s) = (s + n ≤ end) × FreeRun m s n

first-IsRun :
    (m : List Bool) (n from end : ℕ) (s : ℕ)
    → IsFirst m n from end (some s)
    → IsRun m n end (some s)
first-IsRun m n from end s h = (h.1, h.2)

full-IsRun : (m : List Bool) (n end : ℕ) (o : Option ℕ) → IsFirst m n 0 end o → IsRun m n end o
full-IsRun m n end none h = λ s k. h s (omega arith) k
full-IsRun m n end (some s) h = (h.1, h.2)

find_free_run-IsRun :
    (a : BlockAllocMap) (n start s : ℕ)
    → 0 < n
    → find_free_run a n start ≡ some s
    → IsRun a.free_map n a.mapsize (some s)
find_free_run-IsRun a n start s pos e = elim (dec_lt a.mapsize start) [
  | yes past ↦ absurd (cc (e, find_free_run_past a n start (omega arith)))
  | no inside ↦
      first-IsRun a.free_map n start a.mapsize s
        (rw e at (find_free_run-IsFirst a n start pos (omega arith)))
]

find_any_run-hint :
    (a : BlockAllocMap) (n hint s : ℕ)
    → find_free_run a n hint ≡ some s
    → find_any_run a n hint ≡ some s
unfolding find_any_run
find_any_run-hint a n hint s e = rw (e, find_any_run) refl

find_any_run-start :
    (a : BlockAllocMap) (n hint : ℕ)
    → find_free_run a n hint ≡ none
    → find_any_run a n hint ≡ find_free_run a n 0
unfolding find_any_run
find_any_run-start a n hint e = rw (e, find_any_run) refl

-- The two scans of `alloc_extent`: a free run if the map has one at all, whatever the hint.
pub find_any_run-IsRun :
    (a : BlockAllocMap) (n hint : ℕ) → 0 < n → IsRun a.free_map n a.mapsize (find_any_run a n hint)
find_any_run-IsRun a n hint pos = elim (Option-cases (find_free_run a n hint)) [
  | inl e ↦ rw (find_any_run-start a n hint e) (
      full-IsRun a.free_map n a.mapsize (find_free_run a n 0)
        (find_free_run-IsFirst a n 0 pos (omega arith)))
  | inr (s, e) ↦ rw (find_any_run-hint a n hint s e) (find_free_run-IsRun a n hint s pos e)
]
