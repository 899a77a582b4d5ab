-- ===== src/Volume/Inode/Scan.antt =====
-- The inner loop of `Inode::find_inode_page` of src/inode.rs: an inode in a page of the table.
use jfsfuse.Prelude.{
  ℕ, zero, suc, ◌+◌, ◌*◌, ◌≤◌, ◌<◌, ◌≡◌, refl, inl, inr, true, false, tests, Option, none, some,
  List, arith, ltb, leb, Bool-cases, ltb→ge, length, ◌-◌, read_u32, le→leb, gt→leb,
}
use jfsfuse.Volume.{dinode_size}
use jfsfuse.Volume.Step.{Answer}
use jfsfuse.Volume.Inode.{target, is_at, scan_page}

-- The fileset and the number of an inode number: those from 16 on are the file system's.
pub data IsTarget : ℕ → ℕ → ℕ → Type 0 where
  of_filesystem : {num : ℕ} → IsTarget (num + 16) 16 num
  of_aggregate : {ino : ℕ} → ino < 16 → IsTarget ino 1 ino

pub target-IsTarget : (ino fs num : ℕ) → IsTarget ino fs num → target ino ≡ (fs, num)
target-IsTarget ino fs num (IsTarget.of_filesystem {num = n}) =
    let large : leb 16 (n + 16) ≡ true = le→leb 16 (n + 16) (omega arith) in
    let back : n + 16 - 16 ≡ n = omega arith in rw (large, back) refl
target-IsTarget ino fs num (IsTarget.of_aggregate {ino = n} small) =
    let below : leb 16 n ≡ false = gt→leb 16 n small in rw below refl

-- The inode at an offset of a page has the fileset and the number.
abbrev pub IsInode : ℕ × ℕ → List ℕ → ℕ → Type 0
IsInode (fs, num) d off = (read_u32 d (off + 4) ≡ fs) × (read_u32 d (off + 8) ≡ num)

is_at-IsInode : (goal : ℕ × ℕ) (d : List ℕ) (off : ℕ) → is_at goal d off ≡ true → IsInode goal d off
is_at-IsInode (fs, num) d off h = ground arith

is_at-not-IsInode :
    (goal : ℕ × ℕ) (d : List ℕ) (off : ℕ) → is_at goal d off ≡ false → ¬ (IsInode goal d off)
is_at-not-IsInode (fs, num) d off h = λ (e, f). ground arith

-- No inode of the page from the `i`-th on and before the `n`-th has the fileset and the number.
abbrev pub IsWithout : ℕ × ℕ → List ℕ → ℕ → ℕ → Type 0
IsWithout goal d i n = (k : ℕ) → i ≤ k → k < n → ¬ (IsInode goal d (k * 512))

-- The inode at an offset has them, and is the first of the page from the `i`-th on that does.
pub record IsFirst (goal : ℕ × ℕ) (d : List ℕ) (i n off : ℕ) : Type 0 where
  pub index : ℕ
  pub low : i ≤ index
  pub high : index < n
  pub place : off ≡ index * 512
  pub whole : off + 512 ≤ length d
  pub same : IsInode goal d off
  pub before : IsWithout goal d i index

abbrev pub Scanned : ℕ × ℕ → List ℕ → ℕ → ℕ → Answer (Option ℕ) → Type 0
Scanned goal d i n (Answer.ok none) = IsWithout goal d i n
Scanned goal d i n (Answer.ok (some off)) = IsFirst goal d i n off
Scanned goal d i n (Answer.err e) = ⊥
Scanned goal d i n Answer.panicked = length d < n * 512

extend_before :
    (goal : ℕ × ℕ) (d : List ℕ) (i n : ℕ)
    → ¬ (IsInode goal d (i * 512))
    → IsWithout goal d (i + 1) n
    → IsWithout goal d i n
extend_before goal d i n e h k low high = elim (Bool-cases (leb k i)) [
  | inl y ↦ let same : k ≡ i = omega tests in rw same e
  | inr m ↦ h k (omega tests) high
]

extend :
    (goal : ℕ × ℕ) (d : List ℕ) (i n : ℕ) (a : Answer (Option ℕ))
    → ¬ (IsInode goal d (i * 512))
    → Scanned goal d (i + 1) n a
    → Scanned goal d i n a
extend goal d i n (Answer.ok none) e s = extend_before goal d i n e s
extend goal d i n (Answer.ok (some off)) e s = record {
  index = s.index;
  low = omega (arith, s.low);
  high = s.high;
  place = s.place;
  whole = s.whole;
  same = s.same;
  before = extend_before goal d i s.index e s.before;
}
extend goal d i n (Answer.err x) e s = s
extend goal d i n Answer.panicked e s = s

pub scan_page-Scanned :
    (count i : ℕ) (goal : ℕ × ℕ) (d : List ℕ)
    → Scanned goal d i (i + count) (scan_page count i goal d)
unfolding scan_page
scan_page-Scanned zero i goal d = λ k a b. absurd (omega arith)
scan_page-Scanned (suc count) i goal d =
    let next : i + suc count ≡ i + 1 + count = omega arith in
    elim (Bool-cases (ltb (length d) (i * dinode_size + dinode_size))) [
      | inl short ↦ rw short (omega (tests, short))
      | inr long_ ↦ elim (Bool-cases (is_at goal d (i * dinode_size))) [
        | inl here ↦
            rw (long_, here)
              (record {
                index = i;
                low = omega arith;
                high = omega arith;
                place = refl;
                whole = ltb→ge (length d) (i * dinode_size + dinode_size) long_;
                same = is_at-IsInode goal d (i * dinode_size) here;
                before = λ k a b. absurd (omega arith);
              })
        | inr off ↦
            rw (long_, off, next)
              (extend goal d i (i + 1 + count) _ (is_at-not-IsInode goal d (i * dinode_size) off)
                (scan_page-Scanned count (i + 1) goal d))
      ]
    ]
