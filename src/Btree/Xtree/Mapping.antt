-- ===== src/Btree/Xtree/Mapping.antt =====
-- The block map that a list of entries stands for: which physical block, if any, holds a logical
-- block. The first entry that covers the block decides, as in `lookup`.
use jfsfuse.Prelude.{
  ℕ, ◌+◌, ◌-◌, ◌^◌, ◌≤◌, ◌<◌, ◌≡◌, refl, Bool, ◌&&◌, Option, none, some, List, [], ◌∷◌, ◌++◌, arith,
  ltb, leb, if◌then◌else◌, or_else,
}
use jfsfuse.Types.Xad
use jfsfuse.Types.Xad.{Xad}
use jfsfuse.Types.XtRoot.{XtRoot}
use jfsfuse.Btree.Xtree.{Extent, covers, live, lookup_in, lookup}

unfoldable pub block_in : ℕ → List Xad → Option ℕ
block_in b [] = none
block_in b (x ∷ xs) =
    if covers b x then some (Xad.address x + (b - Xad.offset x)) else block_in b xs

-- The physical block that holds logical block `b` of the file.
unfoldable pub block_of : XtRoot → ℕ → Option ℕ
unfolding block_in
block_of r b = block_in b (live r)

-- Whether a physical block lies in a range `(address, block count)`.
abbrev pub in_range : ℕ → ℕ × ℕ → Bool
in_range p (addr, n) = leb addr p && ltb p (addr + n)

-- Whether an entry holds in physical block `p` some logical block of its own from `start` on, or
-- between `start` and `end`.
abbrev pub holds_from : ℕ → ℕ → Xad → Bool
holds_from start p x =
    leb (Xad.address x) p
    && ltb p (Xad.address x + Xad.length_of x)
    && leb start (Xad.offset x + (p - Xad.address x))

abbrev pub holds_between : ℕ → ℕ → ℕ → Xad → Bool
holds_between start end p x = holds_from start p x && ltb (Xad.offset x + (p - Xad.address x)) end

-- The fields of an entry have room for all its blocks: 40-bit offsets and addresses.
pub record IsBounded (x : Xad) : Type 0 where
  pub offset_end : Xad.offset x + Xad.length_of x ≤ 2 ^ 40
  pub address_end : Xad.address x + Xad.length_of x ≤ 2 ^ 40

pub block_in-append :
    (b : ℕ) (xs ys : List Xad) → block_in b (xs ++ ys) ≡ or_else (block_in b xs) (block_in b ys)
unfolding block_in
block_in-append b [] ys = refl
block_in-append b (x ∷ xs) ys = ground (arith, block_in-append b xs ys)

-- What `lookup` returns, by the block map.
abbrev pub physical : ℕ → Option Extent → Option ℕ
physical b none = none
physical b (some e) = some (e.address + (b - e.offset))

physical-lookup_in : (b : ℕ) (xs : List Xad) → physical b (lookup_in b xs) ≡ block_in b xs
unfolding lookup_in block_in
physical-lookup_in b [] = refl
physical-lookup_in b (x ∷ xs) = ground (arith, physical-lookup_in b xs)

pub physical-lookup : (r : XtRoot) (b : ℕ) → physical b (lookup r b) ≡ block_of r b
unfolding lookup block_of
physical-lookup r b = physical-lookup_in b (live r)

-- An extent that `lookup` finds holds the block.
pub lookup_in_covers :
    (b : ℕ) (xs : List Xad) (e : Extent)
    → lookup_in b xs ≡ some e
    → (e.offset ≤ b) × (b < e.offset + e.length)
unfolding lookup_in
lookup_in_covers b [] e h = cc
lookup_in_covers b (x ∷ xs) e h = ground (arith, lookup_in_covers b xs e)

pub lookup_covers :
    (r : XtRoot) (b : ℕ) (e : Extent)
    → lookup r b ≡ some e
    → (e.offset ≤ b) × (b < e.offset + e.length)
unfolding lookup
lookup_covers r b e h = lookup_in_covers b (live r) e h
