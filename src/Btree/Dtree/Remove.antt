-- ===== src/Btree/Dtree/Remove.antt =====
-- `remove` of src/btree/dtree.rs: it finds what `lookup` finds, and closes the gap in the table.
use jfsfuse.Prelude.{
  ℕ, zero, suc, ◌+◌, ◌-◌, ◌*◌, ◌≤◌, ◌<◌, min, ◌≡◌, refl, sym, ap, ◌∙◌, ◌⊎◌, inl, inr, true, false,
  ◌&&◌, Option, none, some, List, [], ◌∷◌, arith, ltb, leb, ◌==◌, if◌then◌else◌, lt→ltb, le→leb,
  gt→leb, ==→≡, ==→≢, Bool-cases, length, get_or, set, replicate, All, length-set, get_or-set_self,
  get_or-set_ne, as_u8, byte,
}
use jfsfuse.Btree.Dtree.{
  Outcome, DirEntry, Dtree, next_index, slot_size, read_stbl, read_stbl_loop, dir_entry, outside,
  name_outside, same_name, lookup_loop, lookup, with_data, write_bytes, shift_stbl, drop_entry,
  remove_loop, remove,
}
use jfsfuse.Btree.Dtree.Lookup.{read_stbl_zero}

length-write_bytes : (d bs : List ℕ) (offset : ℕ) → length (write_bytes d offset bs) ≡ length d
unfolding write_bytes
length-write_bytes d [] offset = refl
length-write_bytes d (b ∷ bs) offset =
    length-write_bytes (set d offset b) bs (offset + 1) ∙ length-set d offset b

-- bytes before the written ones stay
byte-write_bytes_below :
    (d bs : List ℕ) (offset k : ℕ) → k < offset → byte (write_bytes d offset bs) k ≡ byte d k
unfolding write_bytes
byte-write_bytes_below d [] offset k h = refl
byte-write_bytes_below d (b ∷ bs) offset k h =
    byte-write_bytes_below (set d offset b) bs (offset + 1) k (omega arith)
    ∙ get_or-set_ne d offset k b 0 (λ e. omega arith)

byte-set :
    (d : List ℕ) (i k v : ℕ) → i < length d → byte (set d i v) k ≡ (if k == i then v else byte d k)
byte-set d i k v h = elim (Bool-cases (k == i)) [
  | inl e ↦ rw (e, ==→≡ k i e) (get_or-set_self d i v 0 h)
  | inr e ↦ rw e (get_or-set_ne d i k v 0 (λ q. ==→≢ k i e (sym q)))
]

-- The bytes from `j` on move down by one, if they all lie in the data.
shift_stbl_lem :
    (count j : ℕ) (d : List ℕ)
    → 24 + j + count < length d
    → let (r, d1) = shift_stbl count j d in
      (r ≡ Outcome.ok tt)
      × (length d1 ≡ length d)
      × ((k : ℕ)
          → byte d1 k
            ≡ (if leb (24 + j) k && ltb k (24 + j + count) then byte d (k + 1) else byte d k))
unfolding shift_stbl
shift_stbl_lem zero j d h = (refl, refl, λ k. ground arith)
shift_stbl_lem (suc count) j d h =
    let next_slot = byte d (24 + (j + 1)) in
    let d1 = set d (24 + j) next_slot in
    let e1 = gt→leb (length d) (24 + (j + 1)) (omega arith) in
    let e2 = gt→leb (length d) (24 + j) (omega arith) in
    let rest = shift_stbl_lem count (j + 1) d1 (omega (arith, length-set d (24 + j) next_slot)) in
    rw (e1, shift_stbl, e2)
      (
        rest.0,
        rest.1 ∙ length-set d (24 + j) next_slot,
        λ k.
            rest.2 k
            ∙ moved k (byte-set d (24 + j) k next_slot (omega arith))
                (byte-set d (24 + j) (k + 1) next_slot (omega arith)),
      )
  where
    moved :
        (k : ℕ)
        → byte (set d (24 + j) (byte d (24 + (j + 1)))) k
          ≡ (if k == 24 + j then byte d (24 + (j + 1)) else byte d k)
        → byte (set d (24 + j) (byte d (24 + (j + 1)))) (k + 1)
          ≡ (if k + 1 == 24 + j then byte d (24 + (j + 1)) else byte d (k + 1))
        → (if leb (24 + (j + 1)) k && ltb k (24 + (j + 1) + count)
            then byte (set d (24 + j) (byte d (24 + (j + 1)))) (k + 1)
            else byte (set d (24 + j) (byte d (24 + (j + 1)))) k)
          ≡ (if leb (24 + j) k && ltb k (24 + j + suc count) then byte d (k + 1) else byte d k)
    moved k a b = elim (Bool-cases (k == 24 + j)) [
      | inl e ↦
          let up : byte d (k + 1) ≡ byte d (24 + (j + 1)) =
            ap (byte d) (omega (arith, ==→≡ k (24 + j) e)) in
          ground (arith, a, b, up)
      | inr e ↦ ground (arith, a, b)
    ]

-- the data that `drop_entry` leaves, step by step
abbrev emptied : List ℕ → ℕ → ℕ → List ℕ
emptied d1 n slot =
    write_bytes (set (set d1 (24 + (n - 1)) 0) 17 (as_u8 (n - 1))) (slot * 32) (replicate 32 0)

drop_entry_runs :
    (d : List ℕ) (n pos slot ino : ℕ)
    → 32 < length d
    → slot * 32 + 32 ≤ length d
    → n ≤ 8
    → pos < n
    → drop_entry d n pos slot ino
      ≡ (Outcome.ok (some ino), emptied (shift_stbl (n - 1 - pos) pos d).1 n slot)
unfolding drop_entry
drop_entry_runs d n pos slot ino big inside few at =
    let s = shift_stbl_lem (n - 1 - pos) pos d (omega arith) in
    let d1 = (shift_stbl (n - 1 - pos) pos d).1 in
    let e1 : leb (length d1) (24 + (n - 1)) ≡ false =
      gt→leb (length d1) (24 + (n - 1)) (omega (arith, s.1)) in
    let d2 = set d1 (24 + (n - 1)) 0 in
    let d3 = set d2 17 (as_u8 (n - 1)) in
    let len2 : length d2 ≡ length d = length-set d1 (24 + (n - 1)) 0 ∙ s.1 in
    let len3 : length d3 ≡ length d = length-set d2 17 (as_u8 (n - 1)) ∙ len2 in
    let e2 : ltb 17 (length d2) ≡ true = lt→ltb 17 (length d2) (omega (arith, len2)) in
    let e3 : leb (slot * slot_size + slot_size) (length d3) ≡ true =
      le→leb (slot * slot_size + slot_size) (length d3) (omega (arith, len3)) in
    rw (s.0, drop_entry, e1, e2, e3) refl

byte-emptied :
    (d1 : List ℕ) (n slot k : ℕ)
    → 32 < length d1
    → n ≤ 8
    → 0 < slot
    → k < 32
    → byte (emptied d1 n slot) k
      ≡ (if k == 17 then as_u8 (n - 1) else if k == 24 + (n - 1) then 0 else byte d1 k)
byte-emptied d1 n slot k big few real low =
    let d2 = set d1 (24 + (n - 1)) 0 in
    let len2 = length-set d1 (24 + (n - 1)) 0 in
    byte-write_bytes_below (set d2 17 (as_u8 (n - 1))) (replicate 32 0) (slot * 32) k (omega arith)
    ∙ byte-set d2 17 k (as_u8 (n - 1)) (omega (arith, len2))
    ∙ rw (byte-set d1 (24 + (n - 1)) k 0 (omega arith)) refl

above :
    (d d1 : List ℕ) (n pos i : ℕ)
    → pos < n
    → i < n - 1
    → byte d1 (24 + i) ≡ (
        if leb (24 + pos) (24 + i) && ltb (24 + i) (24 + pos + (n - 1 - pos))
        then byte d (24 + i + 1)
        else byte d (24 + i))
    → (if 24 + i == 17
        then as_u8 (n - 1)
        else if 24 + i == 24 + (n - 1)
        then 0
        else byte d1 (24 + i))
      ≡ (if ltb i pos then byte d (24 + i) else byte d (24 + (i + 1)))
above d d1 n pos i at low h =
    let up : byte d (24 + i + 1) ≡ byte d (24 + (i + 1)) = ap (byte d) (omega arith) in
    ground (arith, h, up)

-- Once a live entry of a root of at least nine slots is found, in a slot that is not the header, its removal succeeds with
-- the inode number given, takes one from the count and its position out of the sorted table.
drop_entry_lem :
    (d : List ℕ) (n pos slot ino : ℕ)
    → 32 < length d
    → slot * 32 + 32 ≤ length d
    → 0 < slot
    → n ≤ 8
    → pos < n
    → let (r, d1) = drop_entry d n pos slot ino in
      (r ≡ Outcome.ok (some ino))
      × (length d1 ≡ length d)
      × (next_index d1 ≡ n - 1)
      × ((i : ℕ)
          → i < n - 1
          → byte d1 (24 + i) ≡ (if ltb i pos then byte d (24 + i) else byte d (24 + (i + 1))))
drop_entry_lem d n pos slot ino big inside real few at =
    let s = shift_stbl_lem (n - 1 - pos) pos d (omega arith) in
    let d1 = (shift_stbl (n - 1 - pos) pos d).1 in
    let len : length (emptied d1 n slot) ≡ length d =
      length-write_bytes (set (set d1 (24 + (n - 1)) 0) 17 (as_u8 (n - 1))) (replicate 32 0)
        (slot * 32)
      ∙ length-set (set d1 (24 + (n - 1)) 0) 17 (as_u8 (n - 1))
      ∙ length-set d1 (24 + (n - 1)) 0
      ∙ s.1 in
    let longer : 32 < length d1 = omega (arith, s.1) in
    rw (drop_entry_runs d n pos slot ino big inside few at) (
      refl,
      len,
      rw (gt→leb (length (emptied d1 n slot)) 17 (omega (arith, len)))
          (byte-emptied d1 n slot 17 longer few real (omega arith) ∙ omega arith),
      λ i low.
          byte-emptied d1 n slot (24 + i) longer few real (omega arith)
          ∙ above d d1 n pos i at low (s.2 (24 + i)),
    )

length-read_stbl_loop : (count i : ℕ) (d : List ℕ) → length (read_stbl_loop count i d) ≤ count
unfolding read_stbl_loop
length-read_stbl_loop zero i d = omega arith
length-read_stbl_loop (suc count) i d = ground (arith, length-read_stbl_loop count (i + 1) d)

length-read_stbl : (d : List ℕ) (n : ℕ) → n ≤ 8 → length (read_stbl d n) ≤ n
unfolding read_stbl
length-read_stbl d n h = omega (arith, length-read_stbl_loop (min n 8) 0 d)

-- What the two loops answer from position `idx` of the table on: neither finds the name, both panic,
-- or both find it in the same slot.
abbrev Stops :
    List ℕ → List ℕ → ℕ → ℕ → Outcome (Option DirEntry) → Outcome (Option ℕ) × List ℕ → Type 0
Stops slots d idx n l r =
    ((l ≡ Outcome.ok none) × (r ≡ (Outcome.ok none, d)))
    ⊎ ((l ≡ Outcome.panic) × (r ≡ (Outcome.panic, d)))
    ⊎ ((i : ℕ) × (i < length slots)
        × (0 < get_or slots i 0)
        × (get_or slots i 0 * slot_size + slot_size ≤ length d)
        × (l ≡ Outcome.ok (some (dir_entry d (get_or slots i 0 * slot_size))))
        × (r
            ≡ drop_entry d n (idx + i) (get_or slots i 0)
                (dir_entry d (get_or slots i 0 * slot_size)).inumber))

later_stop :
    (slot : ℕ) (slots d : List ℕ) (idx n : ℕ) (l : Outcome (Option DirEntry))
    (r : Outcome (Option ℕ) × List ℕ)
    → Stops slots d (idx + 1) n l r
    → Stops (slot ∷ slots) d idx n l r
later_stop slot slots d idx n l r (inl q) = inl q
later_stop slot slots d idx n l r (inr (inl q)) = inr (inl q)
later_stop slot slots d idx n l r (inr (inr (i, a, b, c, u, v))) =
    let at : idx + 1 + i ≡ idx + suc i = omega arith in
    inr (inr (suc i, omega arith, b, c, u, rw (sym at) v))

remove_loop-lookup_loop :
    (slots d : List ℕ) (idx n : ℕ) (name : List ℕ)
    → All (λ s. 0 < s) slots
    → Stops slots d idx n (lookup_loop slots d name) (remove_loop slots idx d n name)
unfolding lookup_loop remove_loop
remove_loop-lookup_loop [] d idx n name h = inl (refl, refl)
remove_loop-lookup_loop (slot ∷ slots) d idx n name h =
    let later =
      later_stop slot slots d idx n (lookup_loop slots d name)
        (remove_loop slots (idx + 1) d n name)
        (remove_loop-lookup_loop slots d (idx + 1) n name h.1) in
    elim (Bool-cases (outside d slot)) [
      | inl o ↦ rw o later
      | inr o ↦ elim (Bool-cases (name_outside d slot)) [
        | inl p ↦ rw (o, p) (inr (inl (refl, refl)))
        | inr p ↦ elim (Bool-cases (same_name (dir_entry d (slot * slot_size)).name name)) [
          | inr m ↦ rw (o, p, m) later
          | inl m ↦
              let at : idx ≡ idx + 0 = omega arith in
              rw (o, p, m)
                (inr (
                  inr (
                    0,
                    omega arith,
                    h.0,
                    ground (arith, o),
                    refl,
                    ap (λ k. drop_entry d n k slot (dir_entry d (slot * slot_size)).inumber) at,
                  )))
        ]
      ]
    ]

remove_loop_nil :
    (d : List ℕ) (n : ℕ) (name : List ℕ) → remove_loop [] 0 d n name ≡ (Outcome.ok none, d)
unfolding remove_loop
remove_loop_nil d n name = refl

-- Neither finds the name, both panic, or both find the entry at position `i`, and the data `d` are
-- left without it.
abbrev pub RemoveSpec : Dtree → List ℕ → Type 0
RemoveSpec t name =
    ((lookup t name ≡ Outcome.ok none) × (remove t name ≡ (Outcome.ok none, t)))
    ⊎ ((lookup t name ≡ Outcome.panic) × (remove t name ≡ (Outcome.panic, t)))
    ⊎ ((i : ℕ) × (e : DirEntry) × (d : List ℕ) × (i < next_index t.data_)
        × (e ≡ dir_entry t.data_ (get_or (read_stbl t.data_ (next_index t.data_)) i 0 * slot_size))
        × (lookup t name ≡ Outcome.ok (some e))
        × (remove t name ≡ (Outcome.ok (some e.inumber), with_data t d))
        × (next_index d ≡ next_index t.data_ - 1)
        × ((j : ℕ)
            → j < next_index t.data_ - 1
            → byte d (24 + j)
              ≡ (if ltb j i then byte t.data_ (24 + j) else byte t.data_ (24 + (j + 1)))))

-- In a directory root of more than 32 bytes, with at most eight entries and none of them in slot
-- 0, `remove` and `lookup` agree on every name. Where `lookup` finds none, `remove` finds none
-- and changes nothing; where `lookup` panics, so does `remove`. Where `lookup` finds the entry
-- at position `i` of the sorted table, `remove` returns its inode number, the count goes down by
-- one, and the table is the old one without that position.
pub remove-lookup :
    (t : Dtree) (name : List ℕ)
    → 32 < length t.data_
    → next_index t.data_ ≤ 8
    → All (λ s. 0 < s) (read_stbl t.data_ (next_index t.data_))
    → RemoveSpec t name
unfolding lookup remove
remove-lookup t name big few real =
    let d = t.data_ in
    let n = next_index d in
    elim (Bool-cases (n == 0)) [
      | inl z ↦
          let none_read : read_stbl d n ≡ [] = ap (read_stbl d) (==→≡ n 0 z) ∙ read_stbl_zero d in
          inl (rw z refl, rw (none_read, remove_loop_nil d n name) refl)
      | inr z ↦ elim (remove_loop-lookup_loop (read_stbl d n) d 0 n name real) [
        | inl q ↦ inl (rw z q.0, rw (q.1) refl)
        | inr (inl q) ↦ inr (inl (rw z q.0, rw (q.1) refl))
        | inr (inr (i, a, b, c, u, v)) ↦
            let slot = get_or (read_stbl d n) i 0 in
            let e = dir_entry d (slot * slot_size) in
            let low : i < n = omega (arith, a, length-read_stbl d n few) in
            let found = drop_entry_lem d n i slot e.inumber big c b few low in
            let plain : 0 + i ≡ i = omega arith in
            let v2 = rw plain at v in
            inr (
              inr (
                i,
                e,
                (drop_entry d n i slot e.inumber).1,
                low,
                refl,
                rw z u,
                rw (v2, found.0) refl,
                found.2,
                found.3,
              ))
      ]
    ]
