-- ===== src/Btree/Xtree/Order.antt =====
-- `validate` of src/btree/xtree.rs, and what a root that passes it guarantees.
use jfsfuse.Prelude.{
  ℕ, zero, suc, ◌+◌, ◌-◌, ◌≤◌, ◌<◌, ◌≡◌, refl, ◌↔◌, ◌⊎◌, inl, inr, true, none, some, List, [], ◌∷◌,
  arith, ltb, ◌==◌, if◌then◌else◌, length, get_or,
}
use jfsfuse.Types.Xad
use jfsfuse.Types.Xad.{Xad}
use jfsfuse.Types.XtRoot.{XtRoot, xtentrystart}
use jfsfuse.Btree.Xtree.{Extent, covers, live, lookup_in, lookup}
use jfsfuse.Btree.Xtree.Mapping.{block_in, block_of, lookup_in_covers}

-- `Err` carries the index, the offset and `prev_end` of its message.
pub data Validity : Type 0 where
  valid : Validity
  overlaps : ℕ → ℕ → ℕ → Validity

unfoldable pub validate_from : ℕ → ℕ → List Xad → Validity
validate_from i prev_end [] = Validity.valid
validate_from i prev_end (x ∷ xs) =
    let skip = validate_from (i + 1) prev_end xs in
    let rest = validate_from (i + 1) (Xad.offset x + Xad.length_of x) xs in
    if Xad.length_of x == 0
    then skip
    else if ltb (Xad.offset x) prev_end
    then Validity.overlaps i (Xad.offset x) prev_end
    else rest

unfoldable pub validate : XtRoot → Validity
unfolding validate_from
validate r = validate_from xtentrystart 0 (live r)

-- The entries that are not empty lie in order of their offsets, from `low` on, and do not overlap.
abbrev pub IsOrdered : ℕ → List Xad → Type 0
IsOrdered low [] = Unit {0}
IsOrdered low (x ∷ xs) =
    ((Xad.length_of x ≡ 0) × IsOrdered low xs)
    ⊎ ((0 < Xad.length_of x) × (low ≤ Xad.offset x) × IsOrdered (Xad.offset x + Xad.length_of x) xs)

validate_from-IsOrdered :
    (i low : ℕ) (xs : List Xad) → (validate_from i low xs ≡ Validity.valid) ↔ IsOrdered low xs
unfolding validate_from
validate_from-IsOrdered i low [] = (λ h. tt, λ h. refl)
validate_from-IsOrdered i low (x ∷ xs) =
    let skip = validate_from-IsOrdered (i + 1) low xs in
    let rest = validate_from-IsOrdered (i + 1) (Xad.offset x + Xad.length_of x) xs in
    (λ h. ground (arith, skip, rest), λ h. ground (arith, skip, rest))

-- A root passes `validate` exactly if its live entries that are not empty lie in order of their
-- offsets and do not overlap.
pub validate-IsOrdered : (r : XtRoot) → (validate r ≡ Validity.valid) ↔ IsOrdered 0 (live r)
unfolding validate
validate-IsOrdered r = validate_from-IsOrdered 2 0 (live r)

pub IsOrdered-weaken : (a b : ℕ) (xs : List Xad) → a ≤ b → IsOrdered b xs → IsOrdered a xs
IsOrdered-weaken a b [] h o = tt
IsOrdered-weaken a b (x ∷ xs) h (inl (z, o)) = inl (z, IsOrdered-weaken a b xs h o)
IsOrdered-weaken a b (x ∷ xs) h (inr (p, l, o)) = inr (p, omega arith, o)

-- Below the start of an ordered list nothing is mapped.
pub block_in_below : (low b : ℕ) (xs : List Xad) → IsOrdered low xs → b < low → block_in b xs ≡ none
unfolding block_in
block_in_below low b [] o h = refl
block_in_below low b (x ∷ xs) (inl (z, o)) h = ground (arith, block_in_below low b xs o h)
block_in_below low b (x ∷ xs) (inr (p, l, o)) h =
    ground (arith, block_in_below (Xad.offset x + Xad.length_of x) b xs o (omega arith))

-- In a root that passes `validate` the entry that covers a block is the only one: whichever live
-- entry covers `b`, it is the one that `lookup` answers by.
pub any_entry_decides :
    (low b : ℕ) (xs : List Xad) (j : ℕ)
    → IsOrdered low xs
    → j < length xs
    → covers b (get_or xs j Xad.default) ≡ true
    → (low ≤ b)
      × (block_in b xs
          ≡ some
              (Xad.address (get_or xs j Xad.default) + (b - Xad.offset (get_or xs j Xad.default))))
unfolding block_in
any_entry_decides low b [] j o h c = absurd (omega arith)
any_entry_decides low b (x ∷ xs) zero (inl (z, o)) h c = ground arith
any_entry_decides low b (x ∷ xs) zero (inr (p, l, o)) h c = ground arith
any_entry_decides low b (x ∷ xs) (suc j) (inl (z, o)) h c =
    ground (arith, any_entry_decides low b xs j o (omega arith) c)
any_entry_decides low b (x ∷ xs) (suc j) (inr (p, l, o)) h c =
    ground (arith, any_entry_decides (Xad.offset x + Xad.length_of x) b xs j o (omega arith) c)

-- In a root that passes `validate`, any live entry that covers a block is the one that maps it.
validate_decides :
    (r : XtRoot) (b j : ℕ)
    → validate r ≡ Validity.valid
    → j < length (live r)
    → covers b (get_or (live r) j Xad.default) ≡ true
    → block_of r b
      ≡ some (
          Xad.address (get_or (live r) j Xad.default)
          + (b - Xad.offset (get_or (live r) j Xad.default)))
unfolding block_of
validate_decides r b j v h c = (any_entry_decides 0 b (live r) j ((validate-IsOrdered r).0 v) h c).1

lookup_in-ge :
    (low b : ℕ) (xs : List Xad) (e : Extent)
    → IsOrdered low xs
    → lookup_in b xs ≡ some e
    → low ≤ e.offset
unfolding lookup_in
lookup_in-ge low b [] e o h = cc
lookup_in-ge low b (x ∷ xs) e (inl (z, o)) h = ground (arith, lookup_in-ge low b xs e o)
lookup_in-ge low b (x ∷ xs) e (inr (p, l, o)) h =
    ground (arith, lookup_in-ge (Xad.offset x + Xad.length_of x) b xs e o)

-- A whole extent answers by itself, from a block that it was found for to its end.
lookup_in_run :
    (low b b' : ℕ) (xs : List Xad) (e : Extent)
    → IsOrdered low xs
    → lookup_in b xs ≡ some e
    → b ≤ b'
    → b' < e.offset + e.length
    → lookup_in b' xs ≡ some e
unfolding lookup_in
lookup_in_run low b b' [] e o h l k = cc
lookup_in_run low b b' (x ∷ xs) e (inl (z, o)) h l k = ground (arith, lookup_in_run low b b' xs e o)
lookup_in_run low b b' (x ∷ xs) e (inr (p, q, o)) h l k = ground (
  arith,
  lookup_in_run (Xad.offset x + Xad.length_of x) b b' xs e o,
  lookup_in-ge (Xad.offset x + Xad.length_of x) b xs e o,
  lookup_in_covers b xs e,
)

pub lookup_run :
    (r : XtRoot) (b b' : ℕ) (e : Extent)
    → IsOrdered 0 (live r)
    → lookup r b ≡ some e
    → b ≤ b'
    → b' < e.offset + e.length
    → lookup r b' ≡ some e
unfolding lookup
lookup_run r b b' e o h l k = lookup_in_run 0 b b' (live r) e o h l k
