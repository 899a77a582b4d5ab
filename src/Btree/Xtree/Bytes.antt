-- ===== src/Btree/Xtree/Bytes.antt =====
-- The bytes of the root of an extent tree: `from_inode_data` and `to_bytes` of
-- src/btree/xtree.rs. The slots before `XTENTRYSTART` have no bytes of their own.
use jfsfuse.Prelude.{
  ℕ, ◌+◌, ◌*◌, ◌/◌, ◌%◌, ◌^◌, ◌<◌, ◌≡◌, refl, sym, ap, ◌∙◌, false, Option, none, some, List, [],
  ◌∷◌, ◌++◌, map, arith, ltb, if◌then◌else◌, ge→ltb, length, take, drop, concat, All, length-append,
  length-drop, take-append, drop-append, take-drop, u8_mod, u16_mod, u64_mod, as_u8, byte, read_u16,
  read_u32, read_u64, u16_bytes, u32_bytes, u64_bytes,
}
use mathlib.Core.List.{append_assoc}
use jfsfuse.Types.Pxd
use jfsfuse.Types.Pxd.Fields.{from_bytes-into_bytes}
use jfsfuse.Types.Lrd.Bytes.{u32_back, u16_back}
use jfsfuse.Types.Xad
use jfsfuse.Types.Xad.{Xad}
use jfsfuse.Types.XtRoot
use jfsfuse.Types.XtRoot.{XtRoot, XtHeader, HasSlots, xtrootmaxslot, xtentrystart}

unfoldable pub parse_xad : List ℕ → Xad
parse_xad d = record {
  flag = byte d 0;
  rsvrd = read_u16 d 1;
  off1 = byte d 3;
  off2 = read_u32 d 4;
  loc = Pxd.from_bytes (take 8 (drop 8 d));
}

-- The loop of `parse_xtroot`, over the slots of the new root that are left, from `base` on.
unfoldable pub parse_slots : List ℕ → ℕ → List Xad → List Xad
parse_slots d base [] = []
parse_slots d base (x ∷ slots) =
    if ltb (length d) (base + 16)
    then x ∷ slots
    else parse_xad (take 16 (drop base d)) ∷ parse_slots d (base + 16) slots

abbrev pub parse_header : List ℕ → XtHeader
parse_header d = record {
  next = read_u64 d 0;
  prev = read_u64 d 8;
  flag = byte d 16;
  rsrvd1 = byte d 17;
  nextindex = read_u16 d 18;
  maxentry = read_u16 d 20;
  rsrvd2 = read_u16 d 22;
  self_pxd = Pxd.from_bytes (take 8 (drop 24 d));
}

-- At least 96 bytes are asked for, so that the header is always there.
unfoldable pub from_inode_data : List ℕ → Option XtRoot
from_inode_data d =
    if ltb (length d) 96
    then none
    else some (record {
      header = parse_header d;
      xad =
          take xtentrystart XtRoot.default.xad
          ++ parse_slots d 32 (drop xtentrystart XtRoot.default.xad);
    })

unfoldable pub xad_bytes : Xad → List ℕ
xad_bytes x =
    as_u8 x.flag ∷ u16_bytes x.rsvrd ++ (as_u8 x.off1 ∷ u32_bytes x.off2) ++ Pxd.into_bytes x.loc

unfoldable pub header_bytes : XtHeader → List ℕ
header_bytes h =
    u64_bytes h.next
    ++ u64_bytes h.prev
    ++ (as_u8 h.flag ∷ as_u8 h.rsrvd1 ∷ u16_bytes h.nextindex)
    ++ u16_bytes h.maxentry
    ++ u16_bytes h.rsrvd2
    ++ Pxd.into_bytes h.self_pxd

-- The header, and the sixteen entries behind it, fill the 288 bytes.
unfoldable pub to_bytes : XtRoot → List ℕ
to_bytes r = header_bytes r.header ++ concat (map xad_bytes (drop xtentrystart r.xad))

-- The fields of the header have their widths.
pub record IsWords (h : XtHeader) : Type 0 where
  pub next_u64 : h.next < u64_mod
  pub prev_u64 : h.prev < u64_mod
  pub flag_u8 : h.flag < u8_mod
  pub rsrvd1_u8 : h.rsrvd1 < u8_mod
  pub nextindex_u16 : h.nextindex < u16_mod
  pub maxentry_u16 : h.maxentry < u16_mod
  pub rsrvd2_u16 : h.rsrvd2 < u16_mod
  pub self_pxd_words : Pxd.IsWords h.self_pxd

u64_back : (w : ℕ) → w < u64_mod → w % 2 ^ 32 + w / 2 ^ 32 * 2 ^ 32 ≡ w
u64_back w h = omega arith

u8_back : (w : ℕ) → w < u8_mod → as_u8 w ≡ w
u8_back w h = omega arith

length-xad_bytes : (x : Xad) → length (xad_bytes x) ≡ 16
unfolding xad_bytes Pxd.into_bytes
length-xad_bytes x = refl

parse_xad-xad_bytes : (x : Xad) → Xad.IsWords x → parse_xad (xad_bytes x) ≡ x
unfolding parse_xad xad_bytes Pxd.into_bytes
parse_xad-xad_bytes x w =
    rw
      (
        u8_back x.flag w.flag_u8,
        u16_back x.rsvrd w.rsvrd_u16,
        u8_back x.off1 w.off1_u8,
        u32_back x.off2 w.off2_u32,
        from_bytes-into_bytes x.loc w.loc_words,
      )
      refl

length-header_bytes : (h : XtHeader) → length (header_bytes h) ≡ 32
unfolding header_bytes Pxd.into_bytes
length-header_bytes h = refl

parse_header-header_bytes :
    (h : XtHeader) (rest : List ℕ) → IsWords h → parse_header (header_bytes h ++ rest) ≡ h
unfolding header_bytes Pxd.into_bytes
parse_header-header_bytes h rest w =
    rw
      (
        u32_back (h.next % 2 ^ 32) (omega arith),
        u32_back (h.next / 2 ^ 32) (omega (arith, w.next_u64)),
        u64_back h.next w.next_u64,
        u32_back (h.prev % 2 ^ 32) (omega arith),
        u32_back (h.prev / 2 ^ 32) (omega (arith, w.prev_u64)),
        u64_back h.prev w.prev_u64,
        u8_back h.flag w.flag_u8,
        u8_back h.rsrvd1 w.rsrvd1_u8,
        u16_back h.nextindex w.nextindex_u16,
        u16_back h.maxentry w.maxentry_u16,
        u16_back h.rsrvd2 w.rsrvd2_u16,
        from_bytes-into_bytes h.self_pxd w.self_pxd_words,
      )
      refl

length-concat : (xs : List Xad) → length (concat (map xad_bytes xs)) ≡ length xs * 16
length-concat [] = refl
length-concat (x ∷ xs) =
    length-append (xad_bytes x) (concat (map xad_bytes xs))
    ∙ omega (arith, length-xad_bytes x, length-concat xs)

parse_slots-concat :
    (pre : List ℕ) (xs slots : List Xad)
    → length slots ≡ length xs
    → All Xad.IsWords xs
    → parse_slots (pre ++ concat (map xad_bytes xs)) (length pre) slots ≡ xs
unfolding parse_slots
parse_slots-concat pre [] [] e w = refl
parse_slots-concat pre [] (s ∷ slots) e w = absurd (omega arith)
parse_slots-concat pre (x ∷ xs) [] e w = absurd (omega arith)
parse_slots-concat pre (x ∷ xs) (s ∷ slots) e w =
    let rest = concat (map xad_bytes xs) in
    let d = pre ++ (xad_bytes x ++ rest) in
    let size : length d ≡ length pre + (16 + length rest) =
      length-append pre (xad_bytes x ++ rest)
      ∙ ap (λ n. length pre + n)
          (length-append (xad_bytes x) rest ∙ omega (arith, length-xad_bytes x)) in
    let room : ltb (length d) (length pre + 16) ≡ false =
      ge→ltb (length d) (length pre + 16) (omega (arith, size)) in
    let here : take 16 (drop (length pre) d) ≡ xad_bytes x =
      ap (take 16) (drop-append pre (xad_bytes x ++ rest))
      ∙ ap (λ n. take n (xad_bytes x ++ rest)) (sym (length-xad_bytes x))
      ∙ take-append (xad_bytes x) rest in
    let next : length (pre ++ xad_bytes x) ≡ length pre + 16 =
      length-append pre (xad_bytes x) ∙ omega (arith, length-xad_bytes x) in
    let tail_ : parse_slots d (length pre + 16) slots ≡ xs =
      ap (λ n. parse_slots d n slots) (sym next)
      ∙ ap (λ z. parse_slots z (length (pre ++ xad_bytes x)) slots)
          (sym (append_assoc pre (xad_bytes x) rest))
      ∙ parse_slots-concat (pre ++ xad_bytes x) xs slots (omega arith) w.1 in
    rw (room, here, parse_slots, tail_) (ap (λ z. z ∷ xs) (parse_xad-xad_bytes x w.0))

pub length-to_bytes : (r : XtRoot) → HasSlots r → length (to_bytes r) ≡ 288
unfolding to_bytes
length-to_bytes r slots =
    let entries = drop xtentrystart r.xad in
    let count : length entries ≡ 16 = length-drop xtentrystart r.xad ∙ omega (arith, slots) in
    length-append (header_bytes r.header) (concat (map xad_bytes entries))
    ∙ omega (arith, length-header_bytes r.header, length-concat entries, count)

-- A root with all its slots, header fields and entries of their widths, and the two slots that
-- share their bytes with the header at their defaults, is read back from the bytes that
-- `to_bytes` makes of it.
pub from_inode_data-to_bytes :
    (r : XtRoot)
    → HasSlots r
    → IsWords r.header
    → take xtentrystart r.xad ≡ take xtentrystart XtRoot.default.xad
    → All Xad.IsWords (drop xtentrystart r.xad)
    → from_inode_data (to_bytes r) ≡ some r
unfolding from_inode_data to_bytes
from_inode_data-to_bytes r slots h first w =
    let entries = drop xtentrystart r.xad in
    let free = drop xtentrystart XtRoot.default.xad in
    let head = header_bytes r.header in
    let body = concat (map xad_bytes entries) in
    let count : length entries ≡ 16 = length-drop xtentrystart r.xad ∙ omega (arith, slots) in
    let size : length (head ++ body) ≡ 288 = length-to_bytes r slots in
    let long_ : ltb (length (head ++ body)) 96 ≡ false =
      ge→ltb (length (head ++ body)) 96 (omega (arith, size)) in
    let parsed : parse_slots (head ++ body) 32 free ≡ entries =
      ap (λ n. parse_slots (head ++ body) n free) (sym (length-header_bytes r.header))
      ∙ parse_slots-concat head entries free (sym count) w in
    let whole : take xtentrystart XtRoot.default.xad ++ entries ≡ r.xad =
      ap (λ z. z ++ entries) (sym first) ∙ take-drop xtentrystart r.xad in
    rw (long_, parse_header-header_bytes r.header body h, parsed)
      (λ i. some (record { header = r.header; xad = whole i }))
