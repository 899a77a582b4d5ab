-- ===== src/Volume/Xattr.antt =====
-- The extended attributes in src/volume.rs: `setxattr`, `getxattr` and `removexattr` on the fields of
-- the inode that they read, which are an argument.
pub mod RoundTrip
use jfsfuse.Prelude.{
  ℕ, zero, suc, ◌+◌, ◌-◌, ◌/◌, min, ap, inl, Bool, true, false, not, ◌&&◌, Option, none, some, List,
  [], ◌∷◌, ◌++◌, map, ltb, leb, ◌==◌, if◌then◌else◌, length, set, take, drop, replicate, any, All,
  byte, read_u16, read_u32, u16_bytes,
}
use jfsfuse.Types.Lrd.{has_bit}
use jfsfuse.Alloc.Dmap.Pages
use jfsfuse.Journal.Manager.{copy_slice}
use jfsfuse.Storage.Trait.{Storage}
use jfsfuse.Storage.Lru.{LruCache}
use jfsfuse.Storage.Cache.{CachedPage}
use jfsfuse.Transaction.{Committed}
use jfsfuse.Volume
use jfsfuse.Volume.{Volume}

abbrev pub same_bytes : List ℕ → List ℕ → Bool
same_bytes [] [] = true
same_bytes [] (y ∷ ys) = false
same_bytes (x ∷ xs) [] = false
same_bytes (x ∷ xs) (y ∷ ys) = (x == y) && same_bytes xs ys

-- `di_ea.flag`, `di_ea.length()` and `u` of an inode, and where the inode lies.
pub record InodeEa : Type 0 where
  pub flag : ℕ
  pub ea_length : ℕ
  pub u : List ℕ
  pub page_block : ℕ
  pub page_offset : ℕ

-- `IXATTRSIZE`, `INLINEEA` and `DXD_INLINE`
abbrev pub ixattrsize : ℕ
ixattrsize = 128

abbrev pub inlineea : ℕ
inlineea = 262144

abbrev pub dxd_inline : ℕ
dxd_inline = 64

unfoldable pub read_inline_xattr_data : InodeEa → List ℕ
read_inline_xattr_data inode =
    if not (has_bit inode.flag dxd_inline)
    then []
    else if inode.ea_length == 0
    then []
    else take (min inode.ea_length (length inode.u)) inode.u

-- The loop of `parse_xattr_list` over the bytes that are left, with a bound on its rounds.
unfoldable pub parse_loop : ℕ → List ℕ → List (List ℕ × List ℕ)
parse_loop zero d = []
parse_loop (suc fuel) d =
    let name_len = read_u16 d 0 in
    let val_len = read_u16 d 2 in
    let body = drop 4 d in
    let rest = parse_loop fuel (drop (name_len + val_len) body) in
    if ltb (length d) 4
    then []
    else if ltb (length body) (name_len + val_len)
    then []
    else (take name_len body, take val_len (drop name_len body)) ∷ rest

unfoldable pub parse_xattr_list : List ℕ → List (List ℕ × List ℕ)
unfolding parse_loop
parse_xattr_list d = parse_loop (length d) d

-- The bytes that `write_xattr_entry` adds.
unfoldable pub xattr_entry : List ℕ → List ℕ → List ℕ
xattr_entry name value =
    let name_len = min (length name) 255 in
    let val_len = min (length value) 65535 in
    u16_bytes name_len ++ u16_bytes val_len ++ (take name_len name ++ value)

abbrev pub find_xattr : List ℕ → List (List ℕ × List ℕ) → Option (List ℕ)
find_xattr name [] = none
find_xattr name ((n, v) ∷ es) = if same_bytes n name then some v else find_xattr name es

abbrev pub has_xattr : List ℕ → List (List ℕ × List ℕ) → Bool
has_xattr name es = any (λ e. same_bytes e.0 name) es

-- The loop that writes the list with the value of a name replaced, and the one without a name.
unfoldable pub write_replaced : List ℕ → List ℕ → List (List ℕ × List ℕ) → List ℕ
write_replaced name value [] = []
write_replaced name value ((n, v) ∷ es) =
    xattr_entry n (if same_bytes n name then value else v) ++ write_replaced name value es

unfoldable pub write_without : List ℕ → List (List ℕ × List ℕ) → List ℕ
write_without name [] = []
write_without name ((n, v) ∷ es) =
    if same_bytes n name then write_without name es else xattr_entry n v ++ write_without name es

pub data XattrError : Type 0 where
  name_too_long value_too_large already_exists not_found data_too_large : XattrError

pub data NewList : Type 0 where
  written : List ℕ → NewList
  refused : XattrError → NewList

-- The list that `setxattr` makes of the inode's, or the error that it aborts with.
unfoldable pub set_list : InodeEa → List ℕ → List ℕ → ℕ → NewList
unfolding write_replaced
set_list inode name value flags =
    let parsed = parse_xattr_list (read_inline_xattr_data inode) in
    let exists = has_xattr name parsed in
    let new_list =
      write_replaced name value parsed ++ (if exists then [] else xattr_entry name value) in
    if ltb 255 (length name)
    then NewList.refused XattrError.name_too_long
    else if ltb ixattrsize (length value)
    then NewList.refused XattrError.value_too_large
    else if has_bit flags 1 && exists
    then NewList.refused XattrError.already_exists
    else if has_bit flags 2 && not exists
    then NewList.refused XattrError.not_found
    else if ltb ixattrsize (length new_list)
    then NewList.refused XattrError.data_too_large
    else NewList.written new_list

-- `getxattr`, on the inode that it has read
unfoldable pub getxattr : InodeEa → List ℕ → Option (List ℕ)
getxattr inode name = find_xattr name (parse_xattr_list (read_inline_xattr_data inode))

-- The bytes of the inode with a new list: its area is cleared first.
unfoldable pub store_list : Bool → List ℕ → List ℕ → List ℕ
store_list keeps_mark new_list d =
    let cleared = copy_slice d 128 (replicate (min ixattrsize (length d - 128)) 0) in
    let listed =
      if leb (128 + length new_list) (length d) then copy_slice cleared 128 new_list else cleared in
    let mode = read_u32 listed 52 in
    let marked = if has_bit mode inlineea then mode else mode + inlineea in
    let unmarked = if has_bit mode inlineea then mode - inlineea else mode in
    let flagged = copy_slice listed 104 ((if keeps_mark then dxd_inline else 0) ∷ []) in
    let sized = Pages.write_u32 flagged 108 (length new_list) in
    let blank = copy_slice sized 112 (replicate 8 0) in
    Pages.write_u32 blank 52 (if keeps_mark then marked else unmarked)

module _ {C S : Type 0} (lru : LruCache CachedPage C) (storage log_storage : Storage S)
    (dmap_start : ℕ) where
  -- The last steps of both operations.
  unfoldable pub commit_list : S → Volume C → ℕ → InodeEa → Bool → List ℕ → Committed × S × Volume C
  commit_list s v ino inode keeps_mark new_list =
      let (found, w) =
        Volume.update_inode_page lru storage log_storage dmap_start s v ino inode.page_block
          inode.page_offset (store_list keeps_mark new_list) in
      let (marked, x) = Volume.mark_page_dirty lru w ino inode.page_block in
      if not found
      then (Committed.failed, s, w)
      else if not marked
      then (Committed.failed, s, x)
      else Volume.commit_transaction lru storage log_storage dmap_start s x

  -- `none` is the error of a transaction in progress.
  unfoldable pub setxattr :
      S → Volume C → ℕ → InodeEa → List ℕ → List ℕ → ℕ → Option (NewList × Committed) × S × Volume C
  unfolding commit_list
  setxattr s v ino inode name value flags =
      let (txid, begun) = Volume.begin_transaction lru v in
      elim txid [
        | none ↦ (none, s, begun)
        | some id ↦ elim (set_list inode name value flags) [
          | NewList.refused e ↦
              (some (NewList.refused e, Committed.failed), s, Volume.abort_transaction lru begun)
          | NewList.written l ↦
              let (how, t, w) = commit_list s begun ino inode true l in
              (some (NewList.written l, how), t, w)
        ]
      ]

  -- Whether an attribute was removed, with how the transaction ended.
  unfoldable pub removexattr :
      S → Volume C → ℕ → InodeEa → List ℕ → Option (Bool × Committed) × S × Volume C
  unfolding commit_list write_without
  removexattr s v ino inode name =
      let (txid, begun) = Volume.begin_transaction lru v in
      let parsed = parse_xattr_list (read_inline_xattr_data inode) in
      let new_list = write_without name parsed in
      let (how, t, w) = commit_list s begun ino inode (ltb 0 (length new_list)) new_list in
      elim txid [
        | none ↦ (none, s, begun)
        | some id ↦
            if not (has_xattr name parsed)
            then (some (false, Committed.failed), s, Volume.abort_transaction lru begun)
            else (some (true, how), t, w)
      ]
