-- ===== src/Volume/Dirs/Symlink.antt =====
-- A symbolic link that src/volume.rs makes, read back.
use jfsfuse.Prelude.{
  ℕ, min, lt→ltb, ◌<◌, ◌+◌, ◌-◌, ◌≤◌, ◌≡◌, ap, ◌∙◌, some, List, arith, ltb, leb, true, false,
  ge→ltb, le→leb, length, take, drop, length-drop, length-take, put_bytes, put_u32, put_u64,
  length-put_bytes, take-put_first, u32_mod,
}
use jfsfuse.Types.Dinode.{Dinode, fields, parse_dinode}
use jfsfuse.Types.Dinode.Writes.{
  fields-put_fileset, fields-put_number, fields-put_nlink, fields-put_mode, fields-put_size,
  fields-put_nblocks, fields-put_path,
}
use jfsfuse.Volume.Step.{Answer}
use jfsfuse.Volume.Inode.{filesystem_i}
use jfsfuse.Volume.Dirs.{put_new, put_symlink, link_target}

-- The inode that `create_file`, `mkdir`, `mknod` and `symlink` write before what is their own.
abbrev made_of : ℕ → ℕ → ℕ → ℕ → List ℕ → Dinode
made_of mode size nlink child d = record (fields d) {
  mode = mode;
  size = size;
  nblocks = 0;
  nlink = nlink;
  fileset = filesystem_i;
  number = child - filesystem_i;
}

length-put_new :
    (mode size nlink child : ℕ) (d : List ℕ) → length (put_new mode size nlink child d) ≡ length d
unfolding put_new
length-put_new mode size nlink child d =
    length-put_bytes _ 8 _
    ∙ length-put_bytes _ 4 _
    ∙ length-put_bytes _ 40 _
    ∙ length-put_bytes _ 32 _
    ∙ length-put_bytes _ 24 _
    ∙ length-put_bytes d 52 _

fields-put_new :
    (mode size nlink child : ℕ) (d : List ℕ)
    → length d ≡ 512
    → mode < u32_mod
    → size < u32_mod
    → nlink < u32_mod
    → child < u32_mod
    → fields (put_new mode size nlink child d) ≡ made_of mode size nlink child d
unfolding put_new
fields-put_new mode size nlink child d sized nm ns nn nc =
    let d1 = put_u32 d 52 mode in
    let s1 : length d1 ≡ 512 = length-put_bytes d 52 _ ∙ sized in
    let d2 = put_u64 d1 24 size in
    let s2 : length d2 ≡ 512 = length-put_bytes d1 24 _ ∙ s1 in
    let d3 = put_u64 d2 32 0 in
    let s3 : length d3 ≡ 512 = length-put_bytes d2 32 _ ∙ s2 in
    let d4 = put_u32 d3 40 nlink in
    let s4 : length d4 ≡ 512 = length-put_bytes d3 40 _ ∙ s3 in
    let d5 = put_u32 d4 4 filesystem_i in
    let s5 : length d5 ≡ 512 = length-put_bytes d4 4 _ ∙ s4 in
    let f1 = fields-put_mode d sized mode nm in
    let f2 =
      fields-put_size d1 s1 size (omega arith)
      ∙ ap {A = Dinode} {B = Dinode} (λ i. record i { size = size }) f1 in
    let f3 =
      fields-put_nblocks d2 s2 0 (omega arith)
      ∙ ap {A = Dinode} {B = Dinode} (λ i. record i { nblocks = 0 }) f2 in
    let f4 =
      fields-put_nlink d3 s3 nlink nn
      ∙ ap {A = Dinode} {B = Dinode} (λ i. record i { nlink = nlink }) f3 in
    let f5 =
      fields-put_fileset d4 s4 filesystem_i (omega arith)
      ∙ ap {A = Dinode} {B = Dinode} (λ i. record i { fileset = filesystem_i }) f4 in
    fields-put_number d5 s5 (child - filesystem_i) (omega arith)
    ∙ ap {A = Dinode} {B = Dinode} (λ i. record i { number = child - filesystem_i }) f5

-- A symbolic link to a path of 1 to 127 bytes, made in the 512 bytes of an inode whose number fits
-- 32 bits, is an inode whose link is read back as that path.
pub link_target-put_symlink :
    (child : ℕ) (path d : List ℕ) (page_block page_offset : ℕ)
    → length d ≡ 512
    → child < u32_mod
    → 1 ≤ length path
    → length path < 128
    → (i : Dinode) × (parse_dinode (put_symlink child path d) ≡ some i)
      × (link_target
            (record { dinode = i; ino = child; page_block = page_block; page_offset = page_offset })
          ≡ Answer.ok path)
unfolding put_symlink parse_dinode link_target
link_target-put_symlink child path d page_block page_offset sized nc some_ short =
    let made = put_new 41471 (length path) 1 child d in
    let hm : length made ≡ 512 = length-put_new 41471 (length path) 1 child d ∙ sized in
    let room : leb (128 + length path) (length made) ≡ true =
      le→leb (128 + length path) (length made) (omega (arith, hm)) in
    let long_ : length (put_bytes made 128 path) ≡ 512 = length-put_bytes made 128 path ∙ hm in
    let enough : ltb (length (put_bytes made 128 path)) 512 ≡ false =
      ge→ltb (length (put_bytes made 128 path)) 512 (omega (arith, long_)) in
    let written =
      fields-put_path made hm path (omega arith)
      ∙ ap {A = Dinode} {B = Dinode} (λ i. record i { u = put_bytes (fields made).u 0 path })
          (fields-put_new 41471 (length path) 1 child d sized (omega arith) (omega arith)
            (omega arith) nc) in
    let union = put_bytes (fields made).u 0 path in
    let whole : length union ≡ 384 =
      length-put_bytes (fields made).u 0 path
      ∙ omega (arith, hm, length-take 384 (drop 128 made), length-drop 128 made) in
    let back : take (length path) union ≡ path =
      take-put_first (fields made).u path
        (omega (arith, short, hm, length-take 384 (drop 128 made), length-drop 128 made)) in
    let least : min (length path) (length union) ≡ length path = omega (arith, whole, short) in
    let positive : ltb 0 (length path) ≡ true = lt→ltb 0 (length path) some_ in
    let below : ltb (length path) 128 ≡ true = lt→ltb (length path) 128 short in
    (
      record (made_of 41471 (length path) 1 child d) { u = union },
      rw (room, enough) (ap some written),
      rw (positive, below, least) (ap Answer.ok back),
    )
