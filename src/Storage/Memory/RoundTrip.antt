-- ===== src/Storage/Memory/RoundTrip.antt =====
-- A block read back from a `MemoryStorage` is the block last written there.
use jfsfuse.Prelude.{
  ℕ, zero, suc, ◌+◌, ◌-◌, ◌*◌, ◌%◌, ◌^◌, ◌≤◌, ◌<◌, ◌≡◌, refl, sym, ap, ◌∙◌, inl, inr, false, ◌&&◌,
  List, [], ◌∷◌, arith, ltb, leb, ◌==◌, if◌then◌else◌, ltb→ge, ge→ltb, ==→≡, ==→≢, Bool-cases,
  length, set, length-set, get_or-set_self, get_or-set_ne, ext_get_or, byte,
}
use jfsfuse.Storage.Memory.{
  StorageResult, MemoryStorage, block_size, block_to_offset, size_blocks, bytes_at, copy_at,
  read_bytes, write_bytes, read_block, write_block,
}

get_or_beyond : (bs : List ℕ) (i : ℕ) → length bs ≤ i → byte bs i ≡ 0
get_or_beyond [] i h = refl
get_or_beyond (b ∷ bs) zero h = absurd (omega arith)
get_or_beyond (b ∷ bs) (suc i) h = get_or_beyond bs i (omega arith)

length-copy_at : (d bs : List ℕ) (offset : ℕ) → length (copy_at d offset bs) ≡ length d
unfolding copy_at
length-copy_at d [] offset = refl
length-copy_at d (b ∷ bs) offset =
    length-copy_at (set d offset b) bs (offset + 1) ∙ length-set d offset b

byte-copy_at :
    (d bs : List ℕ) (offset k : ℕ)
    → offset + length bs ≤ length d
    → byte (copy_at d offset bs) k
      ≡ (if leb offset k && ltb k (offset + length bs) then byte bs (k - offset) else byte d k)
unfolding copy_at
byte-copy_at d [] offset k h = ground arith
byte-copy_at d (b ∷ bs) offset k h =
    let rest =
      byte-copy_at (set d offset b) bs (offset + 1) k (omega (arith, length-set d offset b)) in
    elim (Bool-cases (k == offset)) [
      | inl e ↦
          let here : byte (set d offset b) k ≡ b =
            ap (byte (set d offset b)) (==→≡ k offset e)
            ∙ get_or-set_self d offset b 0 (omega arith) in
          let none_left : k - offset ≡ 0 = omega (arith, ==→≡ k offset e) in
          let first : byte (b ∷ bs) (k - offset) ≡ b = ap (byte (b ∷ bs)) none_left in
          ground (arith, rest, here, first)
      | inr e ↦
          let other = get_or-set_ne d offset k b 0 (λ q. ==→≢ k offset e (sym q)) in
          elim (Bool-cases (leb offset k)) [
            | inr below ↦ ground (arith, rest, other)
            | inl above ↦
                let next : byte (b ∷ bs) (k - offset) ≡ byte bs (k - (offset + 1)) =
                  ap (byte (b ∷ bs)) {x = k - offset} {y = suc (k - (offset + 1))} (ground arith) in
                ground (arith, rest, other, next)
          ]
    ]

bytes_at_self :
    (n offset : ℕ) (d : List ℕ) (i : ℕ)
    → byte (bytes_at n offset d) i ≡ (if ltb i n then byte d (offset + i) else 0)
unfolding bytes_at
bytes_at_self zero offset d i = ground arith
bytes_at_self (suc n) offset d zero =
    let at : byte d offset ≡ byte d (offset + 0) = ap (byte d) (omega arith) in ground (arith, at)
bytes_at_self (suc n) offset d (suc i) =
    let at : byte d (offset + 1 + i) ≡ byte d (offset + suc i) = ap (byte d) (omega arith) in
    ground (arith, bytes_at_self n (offset + 1) d i, at)

length-bytes_at : (n offset : ℕ) (d : List ℕ) → length (bytes_at n offset d) ≡ n
unfolding bytes_at
length-bytes_at zero offset d = refl
length-bytes_at (suc n) offset d = ap suc (length-bytes_at n (offset + 1) d)

bytes_at_ext :
    (n offset : ℕ) (d e : List ℕ)
    → ((k : ℕ) → offset ≤ k → k < offset + n → byte d k ≡ byte e k)
    → bytes_at n offset d ≡ bytes_at n offset e
unfolding bytes_at
bytes_at_ext zero offset d e h = refl
bytes_at_ext (suc n) offset d e h =
    rw
      (
        h offset (omega arith) (omega arith),
        bytes_at_ext n (offset + 1) d e (λ k a b. h k (omega arith) (omega arith)),
      )
      refl

-- The vector has as many bytes as the size says, which fits a signed 64-bit number.
pub record IsSized (s : MemoryStorage) : Type 0 where
  pub filled : length s.data_ ≡ s.size
  pub small : s.size < 2 ^ 63

-- A block is written inside the store.
write_block_runs :
    (s : MemoryStorage) (b : ℕ) (d : List ℕ)
    → s.size < 2 ^ 63
    → length d ≡ block_size
    → b < size_blocks s
    → write_block s b d
      ≡ (StorageResult.ok tt, record s { data_ = copy_at s.data_ (b * block_size) d })
unfolding write_block
write_block_runs s b d small len inside =
    let at : block_to_offset b ≡ b * block_size = omega arith in
    let end_ : (b * block_size + length d) % 2 ^ 64 ≡ b * block_size + block_size =
      omega (arith, len) in
    rw
      (
        at,
        write_bytes,
        end_,
        ge→ltb s.size (b * block_size + block_size) (omega arith),
        ge→ltb (b * block_size + block_size) (b * block_size) (omega arith),
      )
      refl

read_block_runs :
    (s : MemoryStorage) (b : ℕ)
    → s.size < 2 ^ 63
    → b < size_blocks s
    → read_block s b ≡ StorageResult.ok (bytes_at block_size (b * block_size) s.data_)
unfolding read_block
read_block_runs s b small inside =
    let at : block_to_offset b ≡ b * block_size = omega arith in
    let end_ : (b * block_size + block_size) % 2 ^ 64 ≡ b * block_size + block_size = omega arith in
    let size : b * block_size + block_size - b * block_size ≡ block_size = omega arith in
    rw
      (
        at,
        read_bytes,
        end_,
        ge→ltb s.size (b * block_size + block_size) (omega arith),
        ge→ltb (b * block_size + block_size) (b * block_size) (omega arith),
        size,
      )
      refl

-- the bytes that were copied in, and those of another block
copied_back :
    (d bs : List ℕ) (offset : ℕ)
    → offset + length bs ≤ length d
    → bytes_at (length bs) offset (copy_at d offset bs) ≡ bs
copied_back d bs offset h =
    ext_get_or (bytes_at (length bs) offset (copy_at d offset bs)) bs 0
      (length-bytes_at (length bs) offset (copy_at d offset bs))
      (λ i. bytes_at_self (length bs) offset (copy_at d offset bs) i ∙ at i)
  where
    at :
        (i : ℕ)
        → (if ltb i (length bs) then byte (copy_at d offset bs) (offset + i) else 0) ≡ byte bs i
    at i = elim (Bool-cases (ltb i (length bs))) [
      | inl e ↦
          let back : byte bs (offset + i - offset) ≡ byte bs i = ap (byte bs) (omega arith) in
          ground (arith, byte-copy_at d bs offset (offset + i) h, back)
      | inr e ↦ rw e (sym (get_or_beyond bs i (ltb→ge i (length bs) e)))
    ]

other_block :
    (d bs : List ℕ) (b c : ℕ)
    → length bs ≡ block_size
    → b * block_size + block_size ≤ length d
    → (c == b) ≡ false
    → bytes_at block_size (c * block_size) (copy_at d (b * block_size) bs)
      ≡ bytes_at block_size (c * block_size) d
other_block d bs b c len h ne =
    bytes_at_ext block_size (c * block_size) (copy_at d (b * block_size) bs) d
      (λ k lo hi. ground (arith, byte-copy_at d bs (b * block_size) k (omega arith), len))

-- In a store of fewer than 2^63 bytes whose vector has its size, a write of 4096 bytes at a
-- block inside the store succeeds and keeps the store's size. A read of any block inside the
-- store then gives the bytes written, if it is that block, and otherwise what it gave before.
pub read_block-write_block :
    (s : MemoryStorage) (b c : ℕ) (d : List ℕ)
    → IsSized s
    → length d ≡ block_size
    → b < size_blocks s
    → c < size_blocks s
    → let (r, t) = write_block s b d in
      (r ≡ StorageResult.ok tt)
      × IsSized t
      × (read_block t c ≡ (if c == b then StorageResult.ok d else read_block s c))
read_block-write_block s b c d sized len inside also =
    let t : MemoryStorage = record s { data_ = copy_at s.data_ (b * block_size) d } in
    let room : b * block_size + length d ≤ length s.data_ = omega (arith, sized.filled) in
    let back = copied_back s.data_ d (b * block_size) room in
    rw (write_block_runs s b d sized.small len inside) (
      refl,
      record {
        filled = length-copy_at s.data_ d (b * block_size) ∙ sized.filled;
        small = sized.small;
      },
      elim (Bool-cases (c == b)) [
        | inl e ↦
            rw (e, ==→≡ c b e)
              (read_block_runs t b sized.small inside
                ∙ ap (λ x. StorageResult.ok x) (rw len at back))
        | inr e ↦
            rw
              (
                e,
                read_block_runs t c sized.small also,
                read_block_runs s c sized.small also,
                other_block s.data_ d b c len (omega (arith, room, len)) e,
              )
              refl
      ],
    )
