-- ===== src/Volume/Xattr/RoundTrip.antt =====
-- What `getxattr` of src/volume.rs finds in the list that `setxattr` writes.
use jfsfuse.Prelude.{
  ℕ, zero, suc, ◌+◌, ◌≤◌, min, ◌≡◌, refl, sym, ap, ◌∙◌, inl, inr, true, false, ◌&&◌, none, some,
  List, [], ◌∷◌, ◌++◌, arith, ltb, if◌then◌else◌, ge→ltb, ==_refl, Bool-cases, if_keeps, or_else,
  length, take, drop, All, length-append, take-append, drop-append, All-append, u16_bytes,
}
use mathlib.Core.List.{append_assoc, append-nil}
use jfsfuse.Types.Lrd.Bytes.{u16_back}
use jfsfuse.Volume.Xattr.{
  InodeEa, NewList, same_bytes, find_xattr, has_xattr, parse_loop, parse_xattr_list, xattr_entry,
  write_replaced, set_list, getxattr, read_inline_xattr_data,
}

-- An attribute whose lengths fit their fields.
abbrev pub IsEntry : List ℕ × List ℕ → Type 0
IsEntry e = (length e.0 ≤ 255) × (length e.1 ≤ 65535)

encode : List (List ℕ × List ℕ) → List ℕ
encode [] = []
encode ((n, v) ∷ es) = xattr_entry n v ++ encode es

take_all : (n : ℕ) (xs : List ℕ) → length xs ≤ n → take n xs ≡ xs
take_all zero [] h = refl
take_all zero (x ∷ xs) h = absurd (omega arith)
take_all (suc n) [] h = refl
take_all (suc n) (x ∷ xs) h = ap (◌∷◌ x) (take_all n xs (omega arith))

-- the four bytes of the lengths, and what stands behind them
entry_bytes :
    (n v rest : List ℕ)
    → length n ≤ 255
    → length v ≤ 65535
    → xattr_entry n v ++ rest ≡ u16_bytes (length n) ++ u16_bytes (length v) ++ ((n ++ v) ++ rest)
unfolding xattr_entry
entry_bytes n v rest hn hv =
    let a : min (length n) 255 ≡ length n = omega arith in
    let b : min (length v) 65535 ≡ length v = omega arith in
    rw (a, b, take_all (length n) n (omega arith)) refl

parse_loop-entry :
    (fuel : ℕ) (n v rest : List ℕ)
    → length n ≤ 255
    → length v ≤ 65535
    → parse_loop (suc fuel) (xattr_entry n v ++ rest) ≡ (n, v) ∷ parse_loop fuel rest
unfolding parse_loop
parse_loop-entry fuel n v rest hn hv =
    let body = (n ++ v) ++ rest in
    let size : length (n ++ v) ≡ length n + length v = length-append n v in
    let whole : length body ≡ length n + length v + length rest =
      length-append (n ++ v) rest ∙ rw size refl in
    let name : take (length n) body ≡ n =
      ap (take (length n)) (append_assoc n v rest) ∙ take-append n (v ++ rest) in
    let behind : drop (length n) body ≡ v ++ rest =
      ap (drop (length n)) (append_assoc n v rest) ∙ drop-append n (v ++ rest) in
    let value : take (length v) (drop (length n) body) ≡ v =
      ap (take (length v)) behind ∙ take-append v rest in
    let left : drop (length n + length v) body ≡ rest =
      ap (λ k. drop k body) (sym size) ∙ drop-append (n ++ v) rest in
    let fits : ltb (length body) (length n + length v) ≡ false =
      ge→ltb (length body) (length n + length v) (omega (arith, whole)) in
    rw (entry_bytes n v rest hn hv) (
      rw
        (
          ge→ltb (suc (suc (suc (suc (length body))))) 4 (omega arith),
          u16_back (length n) (omega arith),
          u16_back (length v) (omega arith),
          fits,
          name,
          value,
          left,
        )
        refl)

length-encode : (es : List (List ℕ × List ℕ)) → length es ≤ length (encode es)
unfolding encode xattr_entry
length-encode [] = omega arith
length-encode ((n, v) ∷ es) =
    omega (arith, length-append (xattr_entry n v) (encode es), length-encode es)

parse_loop_nil : (fuel : ℕ) → parse_loop fuel [] ≡ []
unfolding parse_loop
parse_loop_nil zero = refl
parse_loop_nil (suc fuel) = refl

parse_loop-encode :
    (fuel : ℕ) (es : List (List ℕ × List ℕ))
    → length es ≤ fuel
    → All IsEntry es
    → parse_loop fuel (encode es) ≡ es
unfolding encode
parse_loop-encode fuel [] h w = parse_loop_nil fuel
parse_loop-encode zero (e ∷ es) h w = absurd (omega arith)
parse_loop-encode (suc fuel) ((n, v) ∷ es) h w =
    parse_loop-entry fuel n v (encode es) w.0.0 w.0.1
    ∙ ap (◌∷◌ (n, v)) (parse_loop-encode fuel es (omega arith) w.1)

parse_xattr_list-encode :
    (es : List (List ℕ × List ℕ)) → All IsEntry es → parse_xattr_list (encode es) ≡ es
unfolding parse_xattr_list
parse_xattr_list-encode es w = parse_loop-encode (length (encode es)) es (length-encode es) w

-- The list with the value of a name replaced.
replaced : List ℕ → List ℕ → List (List ℕ × List ℕ) → List (List ℕ × List ℕ)
replaced name value [] = []
replaced name value ((n, v) ∷ es) =
    (n, if same_bytes n name then value else v) ∷ replaced name value es

write_replaced-encode :
    (name value : List ℕ) (es tail_ : List (List ℕ × List ℕ))
    → write_replaced name value es ++ encode tail_ ≡ encode (replaced name value es ++ tail_)
unfolding write_replaced encode replaced
write_replaced-encode name value [] tail_ = refl
write_replaced-encode name value ((n, v) ∷ es) tail_ =
    let x = xattr_entry n (if same_bytes n name then value else v) in
    append_assoc x (write_replaced name value es) (encode tail_)
    ∙ ap (λ z. x ++ z) (write_replaced-encode name value es tail_)

replaced-IsEntry :
    (name value : List ℕ) (es : List (List ℕ × List ℕ))
    → length value ≤ 65535
    → All IsEntry es
    → All IsEntry (replaced name value es)
unfolding replaced
replaced-IsEntry name value [] h w = tt
replaced-IsEntry name value ((n, v) ∷ es) h w = (
  (w.0.0, if_keeps (same_bytes n name) (λ (z : List ℕ). length z ≤ 65535) h w.0.1),
  replaced-IsEntry name value es h w.1,
)

same_bytes→≡ : (xs ys : List ℕ) → same_bytes xs ys ≡ true → xs ≡ ys
same_bytes→≡ [] [] h = refl
same_bytes→≡ [] (y ∷ ys) h = absurd (ground (arith, h))
same_bytes→≡ (x ∷ xs) [] h = absurd (ground (arith, h))
same_bytes→≡ (x ∷ xs) (y ∷ ys) h =
    let heads : x ≡ y = ground (arith, h) in
    let tails = same_bytes→≡ xs ys (ground (arith, h)) in λ i. heads i ∷ tails i

same_bytes_refl : (xs : List ℕ) → same_bytes xs xs ≡ true
same_bytes_refl [] = refl
same_bytes_refl (x ∷ xs) = rw (==_refl x) (same_bytes_refl xs)

-- a name is no other one
same_bytes_other :
    (n name q : List ℕ)
    → same_bytes n name ≡ false
    → same_bytes n q ≡ true
    → same_bytes name q ≡ false
same_bytes_other n name q m h = elim (Bool-cases (same_bytes name q)) [
  | inr z ↦ z
  | inl z ↦
      let is : n ≡ name = same_bytes→≡ n q h ∙ sym (same_bytes→≡ name q z) in
      let yes : same_bytes n name ≡ true = ap (λ k. same_bytes k name) is ∙ same_bytes_refl name in
      absurd (ground (arith, yes, m))
]

find_xattr-replaced :
    (name value q : List ℕ) (es tail_ : List (List ℕ × List ℕ))
    → find_xattr q (replaced name value es ++ tail_) ≡ (
        if has_xattr name es && same_bytes name q
        then some value
        else or_else (find_xattr q es) (find_xattr q tail_))
unfolding replaced
find_xattr-replaced name value q [] tail_ = ground arith
find_xattr-replaced name value q ((n, v) ∷ es) tail_ =
    let rest = find_xattr-replaced name value q es tail_ in
    elim (Bool-cases (same_bytes n name)) [
      | inl y ↦
          let is : same_bytes n q ≡ same_bytes name q =
            ap (λ z. same_bytes z q) (same_bytes→≡ n name y) in
          ground (arith, y, is, rest)
      | inr m ↦ ground (arith, m, rest, same_bytes_other n name q m)
    ]

find_xattr_absent :
    (name : List ℕ) (es : List (List ℕ × List ℕ))
    → has_xattr name es ≡ false
    → find_xattr name es ≡ none
find_xattr_absent name [] h = refl
find_xattr_absent name ((n, v) ∷ es) h = ground (arith, h, find_xattr_absent name es)

set_list-written :
    (inode : InodeEa) (name value l : List ℕ) (flags : ℕ)
    → set_list inode name value flags ≡ NewList.written l
    → let es = parse_xattr_list (read_inline_xattr_data inode) in
      (length name ≤ 255)
      × (length value ≤ 65535)
      × (l
          ≡ write_replaced name value es
            ++ (if has_xattr name es then [] else xattr_entry name value))
unfolding set_list
set_list-written inode name value l flags e =
    (ground (arith, e), ground (arith, e), ground (arith, e))

-- An inode's attributes have names of at most 255 bytes and values of at most 65535. Where
-- `setxattr` with some name and value makes a new list of them, the list parses, and has the new
-- value under that name, and under every other name what `getxattr` found before.
pub find_xattr-set_list :
    (inode : InodeEa) (name value q l : List ℕ) (flags : ℕ)
    → All IsEntry (parse_xattr_list (read_inline_xattr_data inode))
    → set_list inode name value flags ≡ NewList.written l
    → find_xattr q (parse_xattr_list l)
      ≡ (if same_bytes name q then some value else getxattr inode q)
unfolding getxattr encode
find_xattr-set_list inode name value q l flags w e =
    let es = parse_xattr_list (read_inline_xattr_data inode) in
    let (short_name, short_value, is) = set_list-written inode name value l flags e in
    let parsed : (tail_ : List (List ℕ × List ℕ))
        → All IsEntry tail_
        → write_replaced name value es ++ encode tail_ ≡ l
        → find_xattr q (parse_xattr_list l) ≡ find_xattr q (replaced name value es ++ tail_) =
      λ tail_ h same. ap (find_xattr q) (
        ap parse_xattr_list (sym same ∙ write_replaced-encode name value es tail_)
        ∙ parse_xattr_list-encode (replaced name value es ++ tail_) (
            All-append IsEntry (replaced name value es) tail_
              (replaced-IsEntry name value es short_value w) h)) in
    elim (Bool-cases (has_xattr name es)) [
      | inl y ↦
          parsed [] tt (ap (λ z. write_replaced name value es ++ z) (rw y refl) ∙ sym is)
          ∙ find_xattr-replaced name value q es []
          ∙ rw y (ground arith)
      | inr m ↦
          let added = (name, value) ∷ [] in
          parsed added ((short_name, short_value), tt)
            (ap (λ z. write_replaced name value es ++ z)
                (append-nil (xattr_entry name value) ∙ rw m refl)
              ∙ sym is)
          ∙ find_xattr-replaced name value q es added
          ∙ rw m (elim (Bool-cases (same_bytes name q)) [
            | inl z ↦
                let absent : find_xattr q es ≡ none =
                  ap (λ k. find_xattr k es) (sym (same_bytes→≡ name q z))
                  ∙ find_xattr_absent name es m in
                rw (z, absent) refl
            | inr z ↦ rw z (ground arith)
          ])
    ]
