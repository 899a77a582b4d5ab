-- ===== src/Volume/InodePage.antt =====
-- What `update_inode_page` of src/volume.rs does to the cache.
use jfsfuse.Prelude.{
  ℕ, zero, suc, [], ◌∷◌, ◌++◌, ◌≤◌, ◌&&◌, Bool, take, drop, byte, ltb, leb→le, sym, length-take,
  length-drop, length-append, byte-take, byte-drop, byte-append_left, byte-append_right, ext_get_or,
  tests, ◌+◌, ◌-◌, ◌<◌, min, ◌≡◌, refl, ap, ◌∙◌, inl, inr, true, some, List, arith, leb,
  if◌then◌else◌, Bool-cases, length, u32_mod,
}
use jfsfuse.Storage.Trait.{Storage}
use jfsfuse.Storage.Lru
use jfsfuse.Storage.Lru.{LruCache, same_key, same_key→≡, contains}
use jfsfuse.Storage.Cache
use jfsfuse.Storage.Cache.{CachedPage, PageCache, pin, unpin}
use jfsfuse.Journal.Manager
use jfsfuse.Volume.{Volume, update_inode, update_inode_page}

unpin-update_inode-pin :
    (offset : ℕ) (update : List ℕ → List ℕ) (p : CachedPage)
    → p.pin_count + 1 < u32_mod
    → unpin (update_inode offset update (pin p)) ≡ update_inode offset update p
unpin-update_inode-pin offset update p low =
    let count : min (p.pin_count + 1) (u32_mod - 1) - 1 ≡ p.pin_count = omega arith in
    elim (Bool-cases (leb (offset + 512) (length p.data_))) [
      | inl e ↦ rw (e, update_inode, count) refl
      | inr e ↦ rw (e, update_inode, count) refl
    ]

byte-copy_slice_before :
    (b : List ℕ) (off : ℕ) (x : List ℕ) (i : ℕ)
    → off + length x ≤ length b
    → i < off
    → byte (Manager.copy_slice b off x) i ≡ byte b i
byte-copy_slice_before b off x i h lt =
    let n = length-take off b in
    byte-append_left (take off b ++ x) (drop (off + length x) b) i
      (omega (arith, n, length-append (take off b) x))
    ∙ byte-append_left (take off b) x i (omega (arith, n))
    ∙ byte-take off b i lt

byte-copy_slice_inside :
    (b : List ℕ) (off : ℕ) (x : List ℕ) (k : ℕ)
    → off + length x ≤ length b
    → k < length x
    → byte (Manager.copy_slice b off x) (off + k) ≡ byte x k
byte-copy_slice_inside b off x k h lt =
    let n : length (take off b) ≡ off = omega (arith, length-take off b) in
    let place : off + k ≡ length (take off b) + k = omega (arith, n) in
    byte-append_left (take off b ++ x) (drop (off + length x) b) (off + k)
      (omega (arith, n, length-append (take off b) x))
    ∙ ap (byte (take off b ++ x)) place
    ∙ byte-append_right (take off b) x k

byte-copy_slice_behind :
    (b : List ℕ) (off : ℕ) (x : List ℕ) (k : ℕ)
    → off + length x ≤ length b
    → byte (Manager.copy_slice b off x) (off + length x + k) ≡ byte b (off + length x + k)
byte-copy_slice_behind b off x k h =
    let n : length (take off b ++ x) ≡ off + length x =
      omega (arith, length-take off b, length-append (take off b) x) in
    let place : off + length x + k ≡ length (take off b ++ x) + k = omega (arith, n) in
    ap (byte (Manager.copy_slice b off x)) place
    ∙ byte-append_right (take off b ++ x) (drop (off + length x) b) k
    ∙ byte-drop (off + length x) b k

-- `n` bytes put over those from `off` on
byte-copy_slice :
    (b : List ℕ) (off : ℕ) (x : List ℕ) (n i : ℕ)
    → length x ≡ n
    → off + n ≤ length b
    → byte (Manager.copy_slice b off x) i
      ≡ (if leb off i && ltb i (off + n) then byte x (i - off) else byte b i)
byte-copy_slice b off x n i e h = elim (Bool-cases (leb off i)) [
  | inr m ↦ rw m (byte-copy_slice_before b off x i (omega (arith, e)) (omega tests))
  | inl y ↦ elim (Bool-cases (ltb i (off + n))) [
    | inl z ↦
        let place : off + (i - off) ≡ i = omega tests in
        rw (y, z)
          (ap (byte (Manager.copy_slice b off x)) (sym place)
            ∙ byte-copy_slice_inside b off x (i - off) (omega (arith, e)) (omega (tests, e)))
    | inr m ↦
        let place : off + length x + (i - (off + n)) ≡ i = omega (tests, e) in
        rw (y, m)
          (ap (byte (Manager.copy_slice b off x)) (sym place)
            ∙ byte-copy_slice_behind b off x (i - (off + n)) (omega (arith, e))
            ∙ ap (byte b) place)
  ]
]

byte_beyond : (d : List ℕ) (i : ℕ) → length d ≤ i → byte d i ≡ 0
byte_beyond [] i h = refl
byte_beyond (a ∷ d) zero h = absurd (omega arith)
byte_beyond (a ∷ d) (suc i) h = byte_beyond d i (omega arith)

-- The 512 bytes of the inode are those between its offset and its end.
window_lem :
    (offset : ℕ) (b x : List ℕ)
    → length x ≡ 512
    → ((k : ℕ) → k < 512 → byte x k ≡ byte b (offset + k))
    → offset + 512 ≤ length b
    → take 512 (drop offset b) ≡ x
window_lem offset b x sized same room =
    let old = take 512 (drop offset b) in
    let n : length old ≡ 512 =
      omega (arith, length-take 512 (drop offset b), length-drop offset b) in
    ext_get_or old x 0 (n ∙ sym sized) (λ i. elim (Bool-cases (ltb i 512)) [
      | inl y ↦
          byte-take 512 (drop offset b) i (omega tests)
          ∙ byte-drop offset b i
          ∙ sym (same i (omega tests))
      | inr m ↦ byte_beyond old i (omega (tests, n)) ∙ sym (byte_beyond x i (omega (tests, sized)))
    ])

length-copy_slice :
    (b : List ℕ) (off : ℕ) (x : List ℕ)
    → off + length x ≤ length b
    → length (Manager.copy_slice b off x) ≡ length b
length-copy_slice b off x h = omega (
  arith,
  length-take off b,
  length-append (take off b) x,
  length-append (take off b ++ x) (drop (off + length x) b),
  length-drop (off + length x) b,
)

-- Whether the `i`-th byte of a page of `n` bytes is one of the inode at `offset`.
abbrev pub in_inode : ℕ → ℕ → ℕ → Bool
in_inode n offset i = leb (offset + 512) n && leb offset i && ltb i (offset + 512)

module _ {S C : Type 0} (lru : LruCache CachedPage C) (law : Lru.IsLawful lru)
    (storage log_storage : Storage S) where
  peek-changed_page :
      (dmap_start : ℕ) (s : S) (v : Volume C) (ino block offset : ℕ) (update : List ℕ → List ℕ)
      (p : CachedPage) (q : ℕ × ℕ)
      → lru.peek v.page_cache.cache (ino, block) ≡ some p
      → p.pin_count + 1 < u32_mod
      → ((update_inode_page lru storage log_storage dmap_start s v ino block offset update).0
          ≡ true)
        × (lru.peek
              (update_inode_page lru storage log_storage dmap_start s v ino block offset
                update).1.page_cache.cache
              q
            ≡ (if same_key q (ino, block)
                then some (update_inode offset update p)
                else lru.peek v.page_cache.cache q))
  unfolding update_inode_page Cache.get_or_load Cache.get_mut_for_write
  peek-changed_page dmap_start s v ino block offset update p q found low =
      let key : ℕ × ℕ = (ino, block) in
      let c = v.page_cache.cache in
      let touched : lru.peek (lru.touch c key) key ≡ some p = law.peek-touch c key key ∙ found in
      let changed = lru.change (lru.touch c key) key (λ r. update_inode offset update (pin r)) in
      let loaded : PageCache C = record (v.page_cache) { cache = lru.touch c key } in
      let loads : (Cache.get_or_load storage lru v.page_cache s ino block 0).1 ≡ loaded =
        rw (found, Cache.get_or_load) refl in
      let there : contains lru (lru.touch c key) key ≡ true = rw (touched, contains) refl in
      let gets : Cache.get_mut_for_write lru loaded ino block (update_inode offset update)
          ≡ (true, record loaded { cache = changed }) =
        rw (there, Cache.get_mut_for_write) refl in
      let runs : update_inode_page lru storage log_storage dmap_start s v ino block offset update
          ≡ (
            true,
            record v {
              page_cache = record (v.page_cache) { cache = lru.change changed key unpin };
            },
          ) =
        rw (update_inode_page, loads, gets) refl in
      rw runs (
        refl,
        law.peek-change changed key q unpin
            ∙ rw
                (
                  law.peek-change (lru.touch c key) key q (λ r. update_inode offset update (pin r)),
                  law.peek-touch c key q,
                )
                (elim (Bool-cases (same_key q key)) [
                  | inl y ↦
                      let here : lru.peek c q ≡ some p =
                        ap (lru.peek c) (same_key→≡ q key y) ∙ found in
                      rw (y, here) (ap some (unpin-update_inode-pin offset update p low))
                  | inr n ↦ rw n refl
                ]),
      )

-- The page's bytes after a change, where `x` are the 512 bytes of the inode before.
byte-update_inode :
    (offset : ℕ) (update : List ℕ → List ℕ) (p : CachedPage) (x : List ℕ)
    → length x ≡ 512
    → ((k : ℕ) → k < 512 → byte x k ≡ byte p.data_ (offset + k))
    → length (update x) ≡ 512
    → (d : List ℕ) × (update_inode offset update p ≡ record p { data_ = d })
      × (length d ≡ length p.data_)
      × ((i : ℕ)
          → byte d i ≡ (
              if in_inode (length p.data_) offset i
              then byte (update x) (i - offset)
              else byte p.data_ i))
byte-update_inode offset update p x sized window kept =
    elim (Bool-cases (leb (offset + 512) (length p.data_))) [
      | inr short ↦ (p.data_, rw (short, update_inode) refl, refl, λ i. rw short refl)
      | inl whole ↦
          let room = leb→le (offset + 512) (length p.data_) whole in
          let same : take 512 (drop offset p.data_) ≡ x =
            window_lem offset p.data_ x sized window room in
          let d = Manager.copy_slice p.data_ offset (update x) in
          (
            d,
            rw (whole, update_inode)
                (ap {A = List ℕ} {B = CachedPage}
                  (λ z. record p { data_ = Manager.copy_slice p.data_ offset (update z) }) same),
            length-copy_slice p.data_ offset (update x) (omega (arith, kept)),
            λ i. rw whole (byte-copy_slice p.data_ offset (update x) 512 i kept room),
          )
    ]

module _ {S C : Type 0} (lru : LruCache CachedPage C) (law : Lru.IsLawful lru)
    (storage log_storage : Storage S) where
  -- With a lawful container and a cached page whose pin count is not at its bound, and a change that
  -- keeps the length of the inode's 512 bytes, `update_inode_page` succeeds. Where the page has those
  -- bytes, each becomes what the change makes of them, and every other byte of the page stays; where
  -- the page ends before, all bytes stay. The page keeps its length, its pins, its dirty mark and the
  -- rest of its record, and all other pages stay as they were.
  pub peek-update_inode_page :
      (dmap_start : ℕ) (s : S) (v : Volume C) (ino block offset : ℕ) (update : List ℕ → List ℕ)
      (p : CachedPage) (x : List ℕ)
      → lru.peek v.page_cache.cache (ino, block) ≡ some p
      → p.pin_count + 1 < u32_mod
      → length x ≡ 512
      → ((k : ℕ) → k < 512 → byte x k ≡ byte p.data_ (offset + k))
      → length (update x) ≡ 512
      → ((update_inode_page lru storage log_storage dmap_start s v ino block offset update).0
          ≡ true)
        × (d : List ℕ) × ((q : ℕ × ℕ)
            → lru.peek
                (update_inode_page lru storage log_storage dmap_start s v ino block offset
                  update).1.page_cache.cache
                q
              ≡ (if same_key q (ino, block)
                  then some (record p { data_ = d })
                  else lru.peek v.page_cache.cache q))
        × (length d ≡ length p.data_)
        × ((i : ℕ)
            → byte d i ≡ (
                if in_inode (length p.data_) offset i
                then byte (update x) (i - offset)
                else byte p.data_ i))
  peek-update_inode_page dmap_start s v ino block offset update p x found low sized window kept =
      let runs =
        peek-changed_page lru law storage log_storage dmap_start s v ino block offset update p in
      let (d, changed, same, bytes_) = byte-update_inode offset update p x sized window kept in
      (
        (runs (ino, block) found low).0,
        d,
        λ q. rw (sym changed) ((runs q found low).1),
        same,
        bytes_,
      )
