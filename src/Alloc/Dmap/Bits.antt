-- ===== src/Alloc/Dmap/Bits.antt =====
-- Marking a run of the bitmap, bit by bit and by its count.
use jfsfuse.Prelude.{
  ℕ, zero, suc, ◌+◌, ◌-◌, ◌≤◌, ◌<◌, ◌≡◌, refl, sym, ap, ◌∙◌, inl, inr, Bool, true, false, ◌&&◌,
  List, [], ◌∷◌, arith, ltb, leb, ◌==◌, if◌then◌else◌, lt→ltb, ==→≡, ==→≢, Bool-cases, length, set,
  length-set, get_or-set_self, get_or-set_ne,
}
use native.Mathlib.Decide.{dec_lt}
use native.Mathlib.Nat.{add-zero}
use jfsfuse.Alloc.Dmap.{is_free, mark}

-- the number of free blocks
unfoldable pub count_free : List Bool → ℕ
count_free [] = 0
count_free (b ∷ m) = (if b then 1 else 0) + count_free m

-- Every block of the run is free; every one is in use.
abbrev pub FreeRun : List Bool → ℕ → ℕ → Type 0
FreeRun m s n = (j : ℕ) → j < n → is_free m (s + j) ≡ true

abbrev pub UsedRun : List Bool → ℕ → ℕ → Type 0
UsedRun m s n = (j : ℕ) → j < n → is_free m (s + j) ≡ false

abbrev pub in_run : ℕ → ℕ → ℕ → Bool
in_run s n b = leb s b && ltb b (s + n)

pub length-mark : (n a : ℕ) (v : Bool) (m : List Bool) → length (mark n a v m) ≡ length m
unfolding mark
length-mark zero a v m = refl
length-mark (suc n) a v m =
    length-mark n (a + 1) v (if ltb a (length m) then set m a v else m)
    ∙ ground (arith, length-set m a v)

is_free-set :
    (m : List Bool) (a b : ℕ) (v : Bool)
    → a < length m
    → is_free (set m a v) b ≡ (if a == b then v else is_free m b)
is_free-set m a b v h = elim (Bool-cases (a == b)) [
  | inl e ↦ rw (e, ← ==→≡ a b e) (get_or-set_self m a v false h)
  | inr e ↦ rw e (get_or-set_ne m a b v false (==→≢ a b e))
]

pub is_free-mark :
    (n a b : ℕ) (v : Bool) (m : List Bool)
    → a + n ≤ length m
    → is_free (mark n a v m) b ≡ (if in_run a n b then v else is_free m b)
unfolding mark
is_free-mark zero a b v m h = ground arith
is_free-mark (suc n) a b v m h =
    let next = if ltb a (length m) then set m a v else m in
    is_free-mark n (a + 1) b v next (ground (arith, length-set m a v))
    ∙ ground (arith, is_free-set m a b v)

count_free-set :
    (m : List Bool) (a : ℕ) (v : Bool)
    → a < length m
    → count_free (set m a v) + (if is_free m a then 1 else 0) ≡ count_free m + (if v then 1 else 0)
unfolding count_free
count_free-set [] a v h = absurd (omega arith)
count_free-set (x ∷ m) zero v h = omega arith
count_free-set (x ∷ m) (suc a) v h = omega (arith, count_free-set m a v (omega arith))

is_free-beyond : (m : List Bool) (b : ℕ) → length m ≤ b → is_free m b ≡ false
is_free-beyond [] b h = refl
is_free-beyond (x ∷ m) zero h = absurd (omega arith)
is_free-beyond (x ∷ m) (suc b) h = is_free-beyond m b (omega arith)

pub FreeRun-in_map : (m : List Bool) (s n : ℕ) → 0 < n → FreeRun m s n → s + n ≤ length m
FreeRun-in_map m s n h f = elim (dec_lt (length m) (s + n)) [
  | yes lt ↦
      let e : s + (n - 1) + 1 ≡ s + n = omega arith in
      absurd (cc (f (n - 1) (omega arith), is_free-beyond m (s + (n - 1)) (omega arith)))
  | no ge ↦ omega arith
]

-- The rest of a run, after its first block was marked.
run-tail :
    (m : List Bool) (a n : ℕ) (v w : Bool)
    → a + suc n ≤ length m
    → ((j : ℕ) → j < suc n → is_free m (a + j) ≡ w)
    → (j : ℕ) → j < n
    → is_free (set m a v) (a + 1 + j) ≡ w
run-tail m a n v w h f j hj =
    get_or-set_ne m a (a + 1 + j) v false (omega arith)
    ∙ ap (is_free m) (omega arith)
    ∙ f (j + 1) (omega arith)

mark-suc :
    (n a : ℕ) (v : Bool) (m : List Bool)
    → a < length m
    → mark (suc n) a v m ≡ mark n (a + 1) v (set m a v)
unfolding mark
mark-suc n a v m h = rw (lt→ltb a (length m) h)

-- Marking a free run as used takes its length off the count, and the other way round.
pub count_free-mark_used :
    (n a : ℕ) (m : List Bool)
    → a + n ≤ length m
    → FreeRun m a n
    → count_free (mark n a false m) + n ≡ count_free m
count_free-mark_used zero a m h f = unfold mark in (omega arith)
count_free-mark_used (suc n) a m h f =
    let first = ap (is_free m) (sym (add-zero a)) ∙ f 0 (omega arith) in
    let one = count_free-set m a false (omega arith) in
    let rest =
      count_free-mark_used n (a + 1) (set m a false) (omega (arith, length-set m a false))
        (run-tail m a n false true h f) in
    rw (mark-suc n a false m (omega arith)) (ground (arith, first, one, rest))

pub count_free-mark_free :
    (n a : ℕ) (m : List Bool)
    → a + n ≤ length m
    → UsedRun m a n
    → count_free (mark n a true m) ≡ count_free m + n
count_free-mark_free zero a m h f = unfold mark in (omega arith)
count_free-mark_free (suc n) a m h f =
    let first = ap (is_free m) (sym (add-zero a)) ∙ f 0 (omega arith) in
    let one = count_free-set m a true (omega arith) in
    let rest =
      count_free-mark_free n (a + 1) (set m a true) (omega (arith, length-set m a true))
        (run-tail m a n true false h f) in
    rw (mark-suc n a true m (omega arith)) (ground (arith, first, one, rest))
