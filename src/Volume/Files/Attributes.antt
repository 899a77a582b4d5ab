-- ===== src/Volume/Files/Attributes.antt =====
-- What `setattr` of src/volume.rs makes of the bytes of an inode, read back.
use jfsfuse.Prelude.{
  ℕ, ◌<◌, false, ◌≡◌, refl, ap, ◌∙◌, Option, none, some, List, arith, ltb, ge→ltb, length, as_u32,
  u32_mod, read_u32, put_u32, length-put_bytes, ◌%◌, ◌/◌, ◌^◌,
}
use jfsfuse.Types.Dinode.{Dinode, Timestruc, fields, parse_dinode}
use jfsfuse.Types.Dinode.Writes.{
  fields-put_mode, fields-put_uid, fields-put_gid, fields-put_atime_sec, fields-put_atime_nsec,
  fields-put_mtime_sec, fields-put_mtime_nsec,
}
use jfsfuse.Volume.Files.{put_some, new_mode, put_attributes}

-- A field with an optional new value.
abbrev pub or_old : Option ℕ → ℕ → ℕ
or_old none old = old
or_old (some x) old = x

abbrev pub mode_after : Option ℕ → ℕ → ℕ
mode_after none old = old
mode_after (some m) old = new_mode m old

-- the time of a request, in whole seconds of 32 bits
abbrev pub time_after : Option ℕ → Timestruc → Timestruc
time_after none old = old
time_after (some t) old = record { tv_sec = t % 2 ^ 32; tv_nsec = 0 }

-- The new value fits a `u32`, where there is one.
abbrev pub IsNarrow : Option ℕ → Type 0
IsNarrow none = Unit {0}
IsNarrow (some x) = x < u32_mod

-- The bytes keep their number, and the fields are `f`.
abbrev Holds : List ℕ → Dinode → Type 0
Holds d f = (length d ≡ 512) × (fields d ≡ f)

put_mode-Holds :
    (o : Option ℕ) (d : List ℕ)
    → length d ≡ 512
    → Holds
        (put_some o (λ m e. put_u32 e 52 (new_mode m (read_u32 e 52))) d)
        (record (fields d) { mode = mode_after o (fields d).mode })
put_mode-Holds none d h = (h, refl)
put_mode-Holds (some m) d h =
    (length-put_bytes d 52 _ ∙ h, fields-put_mode d h (new_mode m (read_u32 d 52)) (omega arith))

put_uid-Holds :
    (o : Option ℕ) (d : List ℕ)
    → length d ≡ 512
    → IsNarrow o
    → Holds
        (put_some o (λ u e. put_u32 e 44 u) d)
        (record (fields d) { uid = or_old o (fields d).uid })
put_uid-Holds none d h n = (h, refl)
put_uid-Holds (some u) d h n = (length-put_bytes d 44 _ ∙ h, fields-put_uid d h u n)

put_gid-Holds :
    (o : Option ℕ) (d : List ℕ)
    → length d ≡ 512
    → IsNarrow o
    → Holds
        (put_some o (λ g e. put_u32 e 48 g) d)
        (record (fields d) { gid = or_old o (fields d).gid })
put_gid-Holds none d h n = (h, refl)
put_gid-Holds (some g) d h n = (length-put_bytes d 48 _ ∙ h, fields-put_gid d h g n)

put_atime-Holds :
    (o : Option ℕ) (d : List ℕ)
    → length d ≡ 512
    → Holds
        (put_some o (λ t e. put_u32 (put_u32 e 56 (as_u32 t)) 60 0) d)
        (record (fields d) { atime = time_after o (fields d).atime })
put_atime-Holds none d h = (h, refl)
put_atime-Holds (some t) d h =
    let e = put_u32 d 56 (as_u32 t) in
    let sized : length e ≡ 512 = length-put_bytes d 56 _ ∙ h in
    (
      length-put_bytes e 60 _ ∙ sized,
      fields-put_atime_nsec e sized 0 (omega arith)
          ∙ ap {A = Dinode} {B = Dinode}
              (λ f. record f { atime = record (f.atime) { tv_nsec = 0 } })
              (fields-put_atime_sec d h (as_u32 t) (omega arith)),
    )

put_mtime-Holds :
    (o : Option ℕ) (d : List ℕ)
    → length d ≡ 512
    → Holds
        (put_some o (λ t e. put_u32 (put_u32 e 72 (as_u32 t)) 76 0) d)
        (record (fields d) { mtime = time_after o (fields d).mtime })
put_mtime-Holds none d h = (h, refl)
put_mtime-Holds (some t) d h =
    let e = put_u32 d 72 (as_u32 t) in
    let sized : length e ≡ 512 = length-put_bytes d 72 _ ∙ h in
    (
      length-put_bytes e 76 _ ∙ sized,
      fields-put_mtime_nsec e sized 0 (omega arith)
          ∙ ap {A = Dinode} {B = Dinode}
              (λ f. record f { mtime = record (f.mtime) { tv_nsec = 0 } })
              (fields-put_mtime_sec d h (as_u32 t) (omega arith)),
    )

parse-Holds : (d : List ℕ) (f : Dinode) → Holds d f → parse_dinode d ≡ some f
unfolding parse_dinode
parse-Holds d f h =
    let enough : ltb (length d) 512 ≡ false = ge→ltb (length d) 512 (omega (arith, h.0)) in
    rw enough (ap some (h.1))

parse_dinode-put_mode :
    (mode uid gid atime mtime : Option ℕ) (d : List ℕ)
    → length d ≡ 512
    → IsNarrow uid
    → IsNarrow gid
    → parse_dinode (put_attributes mode uid gid atime mtime d)
      ≡ some (record (fields d) {
        mode = mode_after mode (fields d).mode;
        uid = or_old uid (fields d).uid;
        gid = or_old gid (fields d).gid;
        atime = time_after atime (fields d).atime;
        mtime = time_after mtime (fields d).mtime;
      })
unfolding put_attributes
parse_dinode-put_mode mode uid gid atime mtime d sized nu ng =
    let h1 = put_mode-Holds mode d sized in
    let h2 = put_uid-Holds uid _ h1.0 nu in
    let h3 = put_gid-Holds gid _ h2.0 ng in
    let h4 = put_atime-Holds atime _ h3.0 in
    let h5 = put_mtime-Holds mtime _ h4.0 in
    let f2 = h2.1 ∙ ap {A = Dinode} {B = Dinode} (λ f. record f { uid = or_old uid f.uid }) h1.1 in
    let f3 = h3.1 ∙ ap {A = Dinode} {B = Dinode} (λ f. record f { gid = or_old gid f.gid }) f2 in
    let f4 =
      h4.1 ∙ ap {A = Dinode} {B = Dinode} (λ f. record f { atime = time_after atime f.atime }) f3 in
    parse-Holds _ _ (
      h5.0,
      h5.1 ∙ ap {A = Dinode} {B = Dinode} (λ f. record f { mtime = time_after mtime f.mtime }) f4,
    )

-- What the mode `old` becomes: the twelve permission bits are those of the request, the four bits of
-- the file type stay, and all bits above are cleared.
pub data ModeAfter : Option ℕ → ℕ → ℕ → Type 0 where
  unnamed : {old : ℕ} → ModeAfter none old old
  named :
      {m old mode : ℕ}
      → mode % 4096 ≡ m % 4096
      → mode / 4096 ≡ old / 4096 % 16
      → ModeAfter (some m) old mode

mode_after-ModeAfter : (o : Option ℕ) (old : ℕ) → ModeAfter o old (mode_after o old)
mode_after-ModeAfter none old = ModeAfter.unnamed
mode_after-ModeAfter (some m) old = ModeAfter.named (omega arith) (omega arith)

-- After `setattr` with owner and group of 32 bits, the 512 bytes of an inode parse to the inode that
-- they were before, but for its mode, owner, group, `atime` and `mtime`. Of these the ones that the
-- request does not name stay. Owner and group become the new ones, and the times the new ones in whole
-- seconds of 32 bits. A new mode has the twelve permission bits of the request and the file type of the
-- old one, and no bit above, so that the mark `INLINEEA` is lost.
pub parse_dinode-put_attributes :
    (mode uid gid atime mtime : Option ℕ) (d : List ℕ)
    → length d ≡ 512
    → IsNarrow uid
    → IsNarrow gid
    → (m : ℕ) × ModeAfter mode (fields d).mode m
      × (parse_dinode (put_attributes mode uid gid atime mtime d)
          ≡ some (record (fields d) {
            mode = m;
            uid = or_old uid (fields d).uid;
            gid = or_old gid (fields d).gid;
            atime = time_after atime (fields d).atime;
            mtime = time_after mtime (fields d).mtime;
          }))
parse_dinode-put_attributes mode uid gid atime mtime d sized nu ng = (
  mode_after mode (fields d).mode,
  mode_after-ModeAfter mode (fields d).mode,
  parse_dinode-put_mode mode uid gid atime mtime d sized nu ng,
)
