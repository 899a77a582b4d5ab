-- ===== src/Prelude/Bytes.antt =====
-- Words in slices of bytes: the eight bytes of a `u64`, and the writes of `copy_from_slice` and
-- `LittleEndian::write_u32`.
use Prim.Native.Nat.{ℕ, zero, suc, ◌+◌, ◌*◌, ◌/◌, ◌%◌, ◌^◌, ◌≤◌, ◌<◌}
use mathlib.Core.Path.{◌≡◌, refl, ap, ◌∙◌}
use mathlib.Core.List.{List, [], ◌∷◌, ◌++◌}
use native.Mathlib.Omega.{arith}
use jfsfuse.Prelude.Lists.{length, set, take, drop, length-set, get_or-set_self, get_or-set_ne}
use jfsfuse.Prelude.Machine.{byte, read_u32, u32_bytes}

abbrev pub read_u64 : List ℕ → ℕ → ℕ
read_u64 b i = read_u32 b i + read_u32 b (i + 4) * 2 ^ 32

abbrev pub u64_bytes : ℕ → List ℕ
u64_bytes w = u32_bytes (w % 2 ^ 32) ++ u32_bytes (w / 2 ^ 32)

-- The bytes written one after the other from an offset on; the callers stay inside the slice.
unfoldable pub put_bytes : List ℕ → ℕ → List ℕ → List ℕ
put_bytes d off [] = d
put_bytes d off (b ∷ bs) = put_bytes (set d off b) (off + 1) bs

-- `LittleEndian::write_u32(&mut d[off..off + 4], w)`, and so on
abbrev pub put_u32 : List ℕ → ℕ → ℕ → List ℕ
put_u32 d off w = put_bytes d off (u32_bytes w)

abbrev pub put_u64 : List ℕ → ℕ → ℕ → List ℕ
put_u64 d off w = put_bytes d off (u64_bytes w)

pub length-put_bytes : (d : List ℕ) (off : ℕ) (x : List ℕ) → length (put_bytes d off x) ≡ length d
unfolding put_bytes
length-put_bytes d off [] = refl
length-put_bytes d off (b ∷ bs) = length-put_bytes (set d off b) (off + 1) bs ∙ length-set d off b

pub byte-put_before :
    (d : List ℕ) (off : ℕ) (x : List ℕ) (i : ℕ) → i < off → byte (put_bytes d off x) i ≡ byte d i
unfolding put_bytes
byte-put_before d off [] i h = refl
byte-put_before d off (b ∷ bs) i h =
    byte-put_before (set d off b) (off + 1) bs i (omega arith)
    ∙ get_or-set_ne d off i b 0 (λ e. omega arith)

pub byte-put_behind :
    (d : List ℕ) (off : ℕ) (x : List ℕ) (i : ℕ)
    → off + length x ≤ i
    → byte (put_bytes d off x) i ≡ byte d i
unfolding put_bytes
byte-put_behind d off [] i h = refl
byte-put_behind d off (b ∷ bs) i h =
    byte-put_behind (set d off b) (off + 1) bs i (omega arith)
    ∙ get_or-set_ne d off i b 0 (λ e. omega arith)

pub byte-put_inside :
    (d : List ℕ) (off : ℕ) (x : List ℕ) (k : ℕ)
    → off + length x ≤ length d
    → k < length x
    → byte (put_bytes d off x) (off + k) ≡ byte x k
unfolding put_bytes
byte-put_inside d off [] k h lt = absurd (omega arith)
byte-put_inside d off (b ∷ bs) zero h lt =
    let here : off + 0 ≡ off = omega arith in
    rw here (
      byte-put_before (set d off b) (off + 1) bs off (omega arith)
      ∙ get_or-set_self d off b 0 (omega arith))
byte-put_inside d off (b ∷ bs) (suc k) h lt =
    let next : off + suc k ≡ off + 1 + k = omega arith in
    rw next (
      byte-put_inside (set d off b) (off + 1) bs k (omega (arith, length-set d off b))
        (omega arith))

drop-set_before : (d : List ℕ) (off : ℕ) (b n : ℕ) → off < n → drop n (set d off b) ≡ drop n d
drop-set_before [] off b n h = refl
drop-set_before (a ∷ d) off b zero h = absurd (omega arith)
drop-set_before (a ∷ d) zero b (suc n) h = refl
drop-set_before (a ∷ d) (suc off) b (suc n) h = drop-set_before d off b n (omega arith)

pub drop-put_before :
    (d : List ℕ) (off : ℕ) (x : List ℕ) (n : ℕ)
    → off + length x ≤ n
    → drop n (put_bytes d off x) ≡ drop n d
unfolding put_bytes
drop-put_before d off [] n h = refl
drop-put_before d off (b ∷ bs) n h =
    drop-put_before (set d off b) (off + 1) bs n (omega arith)
    ∙ drop-set_before d off b n (omega arith)

put-nil : (off : ℕ) (x : List ℕ) → put_bytes [] off x ≡ []
unfolding put_bytes
put-nil off [] = refl
put-nil off (b ∷ bs) = put-nil (off + 1) bs

put-suc :
    (a : ℕ) (d : List ℕ) (off : ℕ) (x : List ℕ)
    → put_bytes (a ∷ d) (suc off) x ≡ a ∷ put_bytes d off x
unfolding put_bytes
put-suc a d off [] = refl
put-suc a d off (b ∷ bs) =
    let next : suc off + 1 ≡ suc (off + 1) = omega arith in
    rw next (put-suc a (set d off b) (off + 1) bs)

put_first : (a b : ℕ) (d bs : List ℕ) → put_bytes (a ∷ d) 0 (b ∷ bs) ≡ b ∷ put_bytes d 0 bs
unfolding put_bytes
put_first a b d bs = let one : 0 + 1 ≡ 1 = omega arith in rw one (put-suc b d 0 bs)

pub drop-put_behind :
    (n : ℕ) (d : List ℕ) (off : ℕ) (x : List ℕ)
    → drop n (put_bytes d (n + off) x) ≡ put_bytes (drop n d) off x
drop-put_behind zero d off x = let same : 0 + off ≡ off = omega arith in rw same refl
drop-put_behind (suc n) [] off x = rw (put-nil (suc n + off) x, put-nil off x) refl
drop-put_behind (suc n) (a ∷ d) off x =
    let same : suc n + off ≡ suc (n + off) = omega arith in
    rw (same, put-suc a d (n + off) x) (drop-put_behind n d off x)

-- A write from the start, read back.
pub take-put_first : (d x : List ℕ) → length x ≤ length d → take (length x) (put_bytes d 0 x) ≡ x
take-put_first d [] h = refl
take-put_first [] (b ∷ bs) h = absurd (omega arith)
take-put_first (a ∷ d) (b ∷ bs) h =
    let next : put_bytes (a ∷ d) 0 (b ∷ bs) ≡ b ∷ put_bytes d 0 bs = put_first a b d bs in
    rw next (ap (◌∷◌ b) (take-put_first d bs (omega arith)))

pub byte-take : (n : ℕ) (d : List ℕ) (i : ℕ) → i < n → byte (take n d) i ≡ byte d i
byte-take zero d i h = absurd (omega arith)
byte-take (suc n) [] i h = refl
byte-take (suc n) (a ∷ d) zero h = refl
byte-take (suc n) (a ∷ d) (suc i) h = byte-take n d i (omega arith)

pub byte-drop : (n : ℕ) (d : List ℕ) (i : ℕ) → byte (drop n d) i ≡ byte d (n + i)
byte-drop zero d i = let same : 0 + i ≡ i = omega arith in rw same refl
byte-drop (suc n) [] i = refl
byte-drop (suc n) (a ∷ d) i =
    let next : suc n + i ≡ suc (n + i) = omega arith in rw next (byte-drop n d i)

-- The first list's bytes, and then the second's.
pub byte-append_left : (a b : List ℕ) (i : ℕ) → i < length a → byte (a ++ b) i ≡ byte a i
byte-append_left [] b i h = absurd (omega arith)
byte-append_left (x ∷ a) b zero h = refl
byte-append_left (x ∷ a) b (suc i) h = byte-append_left a b i (omega arith)

pub byte-append_right : (a b : List ℕ) (k : ℕ) → byte (a ++ b) (length a + k) ≡ byte b k
byte-append_right [] b k = let same : 0 + k ≡ k = omega arith in rw same refl
byte-append_right (x ∷ a) b k =
    let next : suc (length a) + k ≡ suc (length a + k) = omega arith in
    rw next (byte-append_right a b k)
