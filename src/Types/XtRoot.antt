-- ===== src/Types/XtRoot.antt =====
-- `XtHeader` and `XtRoot` of src/types.rs: the extent tree root that lies in the inode.
use jfsfuse.Prelude.{
  ℕ, ◌≡◌, ◌&&◌, Option, none, some, List, ltb, if◌then◌else◌, length, get_or, set, replicate,
}
use jfsfuse.Types.Pxd
use jfsfuse.Types.Pxd.{Pxd}
use jfsfuse.Types.Xad
use jfsfuse.Types.Xad.{Xad}

-- The sibling pointers are 64-bit values, `nextindex`, `maxentry` and `rsrvd2` 16-bit ones.
pub record XtHeader : Type 0 where
  pub next : ℕ
  pub prev : ℕ
  pub flag : ℕ
  pub rsrvd1 : ℕ
  pub nextindex : ℕ
  pub maxentry : ℕ
  pub rsrvd2 : ℕ
  pub self_pxd : Pxd

-- `XTROOTMAXSLOT` and `XTENTRYSTART`
abbrev pub xtrootmaxslot : ℕ
xtrootmaxslot = 18

abbrev pub xtentrystart : ℕ
xtentrystart = 2

-- `xad` is the array of `XTROOTMAXSLOT` entries; `HasSlots` says that it is.
pub record XtRoot : Type 0 where
  pub header : XtHeader
  pub xad : List Xad

abbrev pub HasSlots : XtRoot → Type 0
HasSlots r = length r.xad ≡ xtrootmaxslot

-- `XtRoot::default()`
abbrev pub default : XtRoot
default = record {
  header = record {
    next = 0;
    prev = 0;
    flag = 0;
    rsrvd1 = 0;
    nextindex = 0;
    maxentry = 0;
    rsrvd2 = 0;
    self_pxd = Pxd.default;
  };
  xad = replicate xtrootmaxslot Xad.default;
}

abbrev pub next_index : XtRoot → ℕ
next_index r = r.header.nextindex

abbrev pub set_nextindex : ℕ → XtRoot → XtRoot
set_nextindex v r = record r { header = record (r.header) { nextindex = v } }

-- `self.root.xad[i]`
abbrev pub slot : XtRoot → ℕ → Xad
slot r i = get_or r.xad i Xad.default

abbrev pub set_slot : ℕ → Xad → XtRoot → XtRoot
set_slot i x r = record r { xad = set r.xad i x }

-- `XtRoot::entry`
unfoldable pub entry : XtRoot → ℕ → Option Xad
entry r i = if ltb i xtrootmaxslot && ltb i (next_index r) then some (slot r i) else none
