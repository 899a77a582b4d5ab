-- ===== src/Types/Dinode/Writes.antt =====
-- What a write into the base area of an inode, its first 128 bytes, does to its fields.
use jfsfuse.Prelude.{
  ℕ, ◌+◌, ◌-◌, ◌*◌, ◌/◌, ◌%◌, ◌^◌, ◌≤◌, ◌<◌, ◌≡◌, refl, sym, ap, ◌∙◌, inl, inr, ◌&&◌, List, arith,
  ltb, leb, if◌then◌else◌, tests, Bool-cases, length, take, drop, byte, u32_bytes, u64_bytes,
  put_bytes, put_u32, put_u64, byte-put_before, byte-put_behind, byte-put_inside, drop-put_before,
  u32_mod, u64_mod, length-put_bytes, length-drop, take_all, drop-put_behind,
}
use mathlib.Core.Path.{fun_ext}
use jfsfuse.Types.Lrd.Bytes.{u32_back}
use jfsfuse.Types.Pxd.{Pxd}
use jfsfuse.Types.Dinode.{Dinode, Dxd, Timestruc, fields}

-- The bytes after a write, as a function of the index.
abbrev written : (ℕ → ℕ) → ℕ → List ℕ → ℕ → ℕ
written f off x i = if leb off i && ltb i (off + length x) then byte x (i - off) else f i

byte-put :
    (d : List ℕ) (off : ℕ) (x : List ℕ) (i : ℕ)
    → off + length x ≤ length d
    → byte (put_bytes d off x) i ≡ written (byte d) off x i
byte-put d off x i h = elim (Bool-cases (leb off i)) [
  | inr n ↦ rw n (byte-put_before d off x i (omega tests))
  | inl y ↦ elim (Bool-cases (ltb i (off + length x))) [
    | inr m ↦ rw (y, m) (byte-put_behind d off x i (omega tests))
    | inl z ↦
        let place : off + (i - off) ≡ i = omega tests in
        rw (y, z)
          (ap (byte (put_bytes d off x)) (sym place)
            ∙ byte-put_inside d off x (i - off) h (omega tests))
  ]
]

-- the fields of an inode, from its bytes as a function and the union
abbrev word : (ℕ → ℕ) → ℕ → ℕ
word f i = f i + f (i + 1) * 2 ^ 8 + f (i + 2) * 2 ^ 16 + f (i + 3) * 2 ^ 24

abbrev long_word : (ℕ → ℕ) → ℕ → ℕ
long_word f i = word f i + word f (i + 4) * 2 ^ 32

abbrev pxd_at : (ℕ → ℕ) → ℕ → Pxd
pxd_at f i = record { len_addr = word f i; addr2 = word f (i + 4) }

abbrev time_at : (ℕ → ℕ) → ℕ → Timestruc
time_at f i = record { tv_sec = word f i; tv_nsec = word f (i + 4) }

abbrev dxd_at : (ℕ → ℕ) → ℕ → Dxd
dxd_at f i = record {
  flag = f i;
  rsrvd = f (i + 1) + f (i + 2) * 2 ^ 8 + f (i + 3) * 2 ^ 16;
  size = word f (i + 4);
  loc = pxd_at f (i + 8);
}

abbrev fields_of : (ℕ → ℕ) → List ℕ → Dinode
fields_of f u = record {
  inostamp = word f 0;
  fileset = word f 4;
  number = word f 8;
  generation = word f 12;
  ixpxd = pxd_at f 16;
  size = long_word f 24;
  nblocks = long_word f 32;
  nlink = word f 40;
  uid = word f 44;
  gid = word f 48;
  mode = word f 52;
  atime = time_at f 56;
  ctime = time_at f 64;
  mtime = time_at f 72;
  otime = time_at f 80;
  acl = dxd_at f 88;
  ea = dxd_at f 104;
  next_index = word f 120;
  acltype = word f 124;
  u = u;
}

bytes-put :
    (d : List ℕ) (off : ℕ) (x : List ℕ)
    → length d ≡ 512
    → off + length x ≤ 512
    → fields (put_bytes d off x)
      ≡ fields_of (written (byte d) off x) (take 384 (drop 128 (put_bytes d off x)))
bytes-put d off x sized h =
    let bytes_ : byte (put_bytes d off x) ≡ written (byte d) off x =
      fun_ext (λ i. byte-put d off x i (omega arith)) in
    λ j. fields_of (bytes_ j) (take 384 (drop 128 (put_bytes d off x)))

fields-put :
    (d : List ℕ) (off : ℕ) (x : List ℕ)
    → length d ≡ 512
    → off + length x ≤ 128
    → fields (put_bytes d off x) ≡ fields_of (written (byte d) off x) (take 384 (drop 128 d))
fields-put d off x sized h =
    bytes-put d off x sized (omega arith)
    ∙ ap (λ z. fields_of (written (byte d) off x) (take 384 z)) (drop-put_before d off x 128 h)

module _ (d : List ℕ) (sized : length d ≡ 512) (w : ℕ) where
  module _ (narrow : w < u32_mod) where
    pub fields-put_fileset : fields (put_u32 d 4 w) ≡ record (fields d) { fileset = w }
    fields-put_fileset =
        fields-put d 4 (u32_bytes w) sized (omega arith) ∙ rw (u32_back w narrow) refl

    pub fields-put_number : fields (put_u32 d 8 w) ≡ record (fields d) { number = w }
    fields-put_number =
        fields-put d 8 (u32_bytes w) sized (omega arith) ∙ rw (u32_back w narrow) refl

    pub fields-put_nlink : fields (put_u32 d 40 w) ≡ record (fields d) { nlink = w }
    fields-put_nlink =
        fields-put d 40 (u32_bytes w) sized (omega arith) ∙ rw (u32_back w narrow) refl

    pub fields-put_uid : fields (put_u32 d 44 w) ≡ record (fields d) { uid = w }
    fields-put_uid = fields-put d 44 (u32_bytes w) sized (omega arith) ∙ rw (u32_back w narrow) refl

    pub fields-put_gid : fields (put_u32 d 48 w) ≡ record (fields d) { gid = w }
    fields-put_gid = fields-put d 48 (u32_bytes w) sized (omega arith) ∙ rw (u32_back w narrow) refl

    pub fields-put_mode : fields (put_u32 d 52 w) ≡ record (fields d) { mode = w }
    fields-put_mode =
        fields-put d 52 (u32_bytes w) sized (omega arith) ∙ rw (u32_back w narrow) refl

    pub fields-put_atime_sec :
        fields (put_u32 d 56 w)
        ≡ record (fields d) { atime = record ((fields d).atime) { tv_sec = w } }
    fields-put_atime_sec =
        fields-put d 56 (u32_bytes w) sized (omega arith) ∙ rw (u32_back w narrow) refl

    pub fields-put_atime_nsec :
        fields (put_u32 d 60 w)
        ≡ record (fields d) { atime = record ((fields d).atime) { tv_nsec = w } }
    fields-put_atime_nsec =
        fields-put d 60 (u32_bytes w) sized (omega arith) ∙ rw (u32_back w narrow) refl

    pub fields-put_mtime_sec :
        fields (put_u32 d 72 w)
        ≡ record (fields d) { mtime = record ((fields d).mtime) { tv_sec = w } }
    fields-put_mtime_sec =
        fields-put d 72 (u32_bytes w) sized (omega arith) ∙ rw (u32_back w narrow) refl

    pub fields-put_mtime_nsec :
        fields (put_u32 d 76 w)
        ≡ record (fields d) { mtime = record ((fields d).mtime) { tv_nsec = w } }
    fields-put_mtime_nsec =
        fields-put d 76 (u32_bytes w) sized (omega arith) ∙ rw (u32_back w narrow) refl

  module _ (narrow : w < u64_mod) where
    u64_high : w / 2 ^ 32 < u32_mod
    u64_high = omega arith

    u64_join : w % 2 ^ 32 + w / 2 ^ 32 * 2 ^ 32 ≡ w
    u64_join = omega arith

    pub fields-put_size : fields (put_u64 d 24 w) ≡ record (fields d) { size = w }
    fields-put_size =
        fields-put d 24 (u64_bytes w) sized (omega arith)
        ∙ rw (u32_back (w % 2 ^ 32) (omega arith), u32_back (w / 2 ^ 32) u64_high, u64_join) refl

    pub fields-put_nblocks : fields (put_u64 d 32 w) ≡ record (fields d) { nblocks = w }
    fields-put_nblocks =
        fields-put d 32 (u64_bytes w) sized (omega arith)
        ∙ rw (u32_back (w % 2 ^ 32) (omega arith), u32_back (w / 2 ^ 32) u64_high, u64_join) refl

module _ (d : List ℕ) (sized : length d ≡ 512) where
  whole_union : (x : List ℕ) → length x ≡ 384 → take 384 x ≡ x
  whole_union x e = ap (λ n. take n x) (sym e) ∙ take_all x

  -- a write into the union
  fields-put_u :
      (off : ℕ) (x : List ℕ)
      → off + length x ≤ 384
      → (fields (put_bytes d (128 + off) x)).u ≡ put_bytes (fields d).u off x
  fields-put_u off x h =
      let before = whole_union (drop 128 d) (length-drop 128 d ∙ omega arith) in
      let after =
        whole_union (put_bytes (drop 128 d) off x)
          (length-put_bytes (drop 128 d) off x ∙ length-drop 128 d ∙ omega arith) in
      ap (take 384) (drop-put_behind 128 d off x) ∙ after ∙ ap (λ z. put_bytes z off x) (sym before)

  -- The root is written over the last 288 bytes: the other fields stay.
  pub fields-put_root :
      (x : List ℕ)
      → length x ≡ 288
      → fields (put_bytes d 224 x) ≡ record (fields d) { u = put_bytes (fields d).u 96 x }
  fields-put_root x e =
      bytes-put d 224 x sized (omega arith)
      ∙ ap (λ z. record (fields d) { u = z }) (fields-put_u 96 x (omega arith))

  pub fields-put_path :
      (x : List ℕ)
      → length x ≤ 384
      → fields (put_bytes d 128 x) ≡ record (fields d) { u = put_bytes (fields d).u 0 x }
  fields-put_path x h =
      bytes-put d 128 x sized (omega arith)
      ∙ ap (λ z. record (fields d) { u = z }) (fields-put_u 0 x (omega arith))
