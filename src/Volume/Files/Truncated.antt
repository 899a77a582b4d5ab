-- ===== src/Volume/Files/Truncated.antt =====
-- What `truncate` of src/volume.rs writes into an inode, read back by `parse_dinode` and by
-- `from_inode_data`.
use jfsfuse.Prelude.{
  ℕ, ◌<◌, ◌-◌, ◌≡◌, sym, ap, ◌∙◌, some, List, All, arith, ltb, false, ge→ltb, length, take, drop,
  length-drop, length-take, take_all, put_bytes, put_u64, length-put_bytes, drop-put_behind,
  take-put_first, u64_mod,
}
use jfsfuse.Types.Xad
use jfsfuse.Types.XtRoot
use jfsfuse.Types.XtRoot.{XtRoot, xtentrystart}
use jfsfuse.Types.Dinode.{Dinode, fields, parse_dinode, root_bytes}
use jfsfuse.Types.Dinode.Writes.{fields-put_root, fields-put_size, fields-put_nblocks}
use jfsfuse.Btree.Xtree.Bytes.{from_inode_data, to_bytes, from_inode_data-to_bytes, length-to_bytes}
use jfsfuse.Btree.Xtree.Bytes
use jfsfuse.Volume.{dinode_size}
use jfsfuse.Volume.Files.{put_truncated}

-- The inode with another extent root, size and count of blocks.
abbrev pub resized : XtRoot → ℕ → ℕ → Dinode → Dinode
resized r size nblocks i = record i {
  u = put_bytes i.u 96 (to_bytes r);
  size = size;
  nblocks = nblocks;
}

length-union : (d : List ℕ) → length d ≡ 512 → length (take 384 (drop 128 d)) ≡ 384
length-union d sized = omega (arith, sized, length-take 384 (drop 128 d), length-drop 128 d)

root_of-put : (u x : List ℕ) → length u ≡ 384 → length x ≡ 288 → drop 96 (put_bytes u 96 x) ≡ x
root_of-put u x hu hx =
    let e = put_bytes (drop 96 u) 0 x in
    let sized : length (drop 96 u) ≡ 288 = omega (arith, hu, length-drop 96 u) in
    let same : length e ≡ length x = length-put_bytes (drop 96 u) 0 x ∙ omega (arith, sized, hx) in
    drop-put_behind 96 u 0 x
    ∙ sym (take_all e)
    ∙ ap (λ n. take n e) same
    ∙ take-put_first (drop 96 u) x (omega (arith, sized, hx))

-- `truncate` writes a root with all its slots, header fields and entries of their widths, and the
-- shared slots at their defaults, with a size and a count of blocks of 64 bits, into the 512 bytes of
-- an inode. They then parse to the old inode with these, and the root that is read from its union is
-- the one written.
pub parse_dinode-put_truncated :
    (r : XtRoot) (size nblocks : ℕ) (d : List ℕ)
    → length d ≡ 512
    → XtRoot.HasSlots r
    → Bytes.IsWords r.header
    → take xtentrystart r.xad ≡ take xtentrystart XtRoot.default.xad
    → All Xad.IsWords (drop xtentrystart r.xad)
    → size < u64_mod
    → nblocks < u64_mod
    → (parse_dinode (put_truncated r size nblocks d) ≡ some (resized r size nblocks (fields d)))
      × (from_inode_data (root_bytes (resized r size nblocks (fields d))) ≡ some r)
unfolding put_truncated parse_dinode
parse_dinode-put_truncated r size nblocks d sized slots words first entries ns nb =
    let x = to_bytes r in
    let hx : length x ≡ 288 = length-to_bytes r slots in
    let place : dinode_size - length x ≡ 224 = omega (arith, hx) in
    let d1 = put_bytes d 224 x in
    let s1 : length d1 ≡ 512 = length-put_bytes d 224 x ∙ sized in
    let d2 = put_u64 d1 24 size in
    let s2 : length d2 ≡ 512 = length-put_bytes d1 24 _ ∙ s1 in
    let s3 : length (put_u64 d2 32 nblocks) ≡ 512 = length-put_bytes d2 32 _ ∙ s2 in
    let enough : ltb (length (put_u64 d2 32 nblocks)) 512 ≡ false =
      ge→ltb (length (put_u64 d2 32 nblocks)) 512 (omega (arith, s3)) in
    let f1 = fields-put_root d sized x hx in
    let f2 =
      fields-put_size d1 s1 size ns
      ∙ ap {A = Dinode} {B = Dinode} (λ i. record i { size = size }) f1 in
    let f3 =
      fields-put_nblocks d2 s2 nblocks nb
      ∙ ap {A = Dinode} {B = Dinode} (λ i. record i { nblocks = nblocks }) f2 in
    (
      rw (place, enough) (ap some f3),
      ap from_inode_data (root_of-put _ x (length-union d sized) hx)
          ∙ from_inode_data-to_bytes r slots words first entries,
    )
