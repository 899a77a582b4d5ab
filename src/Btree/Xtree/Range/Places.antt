-- ===== src/Btree/Xtree/Range/Places.antt =====
-- What the tests of `place` say of an entry.
use jfsfuse.Prelude.{ℕ, ◌+◌, ◌≤◌, ◌<◌, ◌≡◌, ◌⊎◌, Bool, ◌&&◌, arith, ltb, length, retain}
use jfsfuse.Types.Xad
use jfsfuse.Types.Xad.{Xad}
use jfsfuse.Types.XtRoot.{XtRoot}
use jfsfuse.Btree.Xtree.{live}
use jfsfuse.Btree.Xtree.Range.{Place, place}

abbrev pub HasPlace : Place → ℕ → ℕ → Xad → Type 0
HasPlace Place.empty start end x = Xad.length_of x ≡ 0
HasPlace Place.outside start end x = (Xad.offset x + Xad.length_of x ≤ start) ⊎ (end ≤ Xad.offset x)
HasPlace Place.within start end x = (start ≤ Xad.offset x) × (Xad.offset x + Xad.length_of x ≤ end)
HasPlace Place.spanning start end x =
    (Xad.offset x < start) × (end < Xad.offset x + Xad.length_of x)
HasPlace Place.head_kept start end x =
    (Xad.offset x < start)
    × (start < Xad.offset x + Xad.length_of x)
    × (Xad.offset x + Xad.length_of x ≤ end)
HasPlace Place.tail_kept start end x =
    (start ≤ Xad.offset x) × (Xad.offset x < end) × (end < Xad.offset x + Xad.length_of x)

pub place-HasPlace : (start end : ℕ) (x : Xad) → HasPlace (place start end x) start end x
unfolding place
place-HasPlace start end x = ground arith

-- An entry that reaches out of the range at both ends.
abbrev pub spans : ℕ → ℕ → Xad → Bool
spans start end x = ltb (Xad.offset x) start && ltb end (Xad.offset x + Xad.length_of x)

-- The sixteen slots have room for one more entry for each live entry that is split in two.
abbrev pub Fits : ℕ → ℕ → XtRoot → Type 0
Fits start end r = length (live r) + length (retain (spans start end) (live r)) ≤ 16
