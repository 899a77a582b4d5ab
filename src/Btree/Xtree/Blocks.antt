-- ===== src/Btree/Xtree/Blocks.antt =====
-- `map_blocks` against the block map.
use jfsfuse.Prelude.{
  ℕ, zero, suc, ◌+◌, ◌-◌, ◌≤◌, ◌<◌, min, ◌≡◌, refl, sym, ap, ◌∙◌, ◌≢◌, inl, inr, Option, none, some,
  List, [], ◌∷◌, arith, ltb, if◌then◌else◌, lt→ltb, ge→ltb, Option-cases,
}
use native.Mathlib.Nat.{add-zero, add_assoc}
use native.Mathlib.Decide.{dec_lt}
use jfsfuse.Types.XtRoot.{XtRoot}
use jfsfuse.Btree.Xtree.{Extent, live, lookup, map_loop, map_blocks}
use jfsfuse.Btree.Xtree.Mapping.{block_of, physical-lookup, lookup_covers}
use jfsfuse.Btree.Xtree.Order.{IsOrdered, Validity, validate, validate-IsOrdered, lookup_run}

-- The blocks that a result of `map_blocks` spans.
unfoldable pub total : List (ℕ × ℕ) → ℕ
total [] = 0
total ((a, n) ∷ rs) = n + total rs

-- The physical block that a result names for the `k`-th block of the request.
unfoldable pub located : List (ℕ × ℕ) → ℕ → Option ℕ
located [] k = none
located ((a, n) ∷ rs) k = if ltb k n then some (a + k) else located rs (k - n)

-- The blocks `current`, ..., `current + k` are all mapped.
abbrev pub AllMapped : XtRoot → ℕ → ℕ → Type 0
AllMapped r current k = (j : ℕ) → j ≤ k → block_of r (current + j) ≢ none

-- The three ends of a round.
map_loop_done : (f : ℕ) (r : XtRoot) (c e : ℕ) → e ≤ c → map_loop f r c e ≡ []
unfolding map_loop
map_loop_done zero r c e h = refl
map_loop_done (suc f) r c e h = rw (ge→ltb c e h, map_loop) refl

map_loop_hole :
    (f : ℕ) (r : XtRoot) (c e : ℕ)
    → c < e
    → lookup r c ≡ none
    → map_loop (suc f) r c e ≡ (0, e - c) ∷ []
unfolding map_loop
map_loop_hole f r c e h l = rw (lt→ltb c e h, l, map_loop) refl

abbrev piece_len : Extent → ℕ → ℕ → ℕ
piece_len x c e = min (x.length - (c - x.offset)) (e - c)

map_loop_found :
    (f : ℕ) (r : XtRoot) (c e : ℕ) (x : Extent)
    → c < e
    → lookup r c ≡ some x
    → map_loop (suc f) r c e
      ≡ (x.address + (c - x.offset), piece_len x c e) ∷ map_loop f r (c + piece_len x c e) e
unfolding map_loop
map_loop_found f r c e x h l = rw (lt→ltb c e h, l, map_loop) refl

total-map_loop :
    (fuel : ℕ) (r : XtRoot) (current end : ℕ)
    → end ≤ current + fuel
    → total (map_loop fuel r current end) ≡ end - current
unfolding total
total-map_loop zero r current end h =
    rw (map_loop_done zero r current end (omega arith)) (omega arith)
total-map_loop (suc fuel) r current end h = elim (dec_lt current end) [
  | no ge ↦ rw (map_loop_done (suc fuel) r current end (omega arith)) (omega arith)
  | yes lt ↦ elim (Option-cases (lookup r current)) [
    | inl e ↦ rw (map_loop_hole fuel r current end lt e) (omega arith)
    | inr (x, e) ↦
        let c = lookup_covers r current x e in
        rw (map_loop_found fuel r current end x lt e) (
          omega
            (arith, total-map_loop fuel r (current + piece_len x current end) end (omega arith)))
  ]
]

-- Whatever the tree holds, the pieces of the result add up to the blocks asked for.
pub total-map_blocks : (r : XtRoot) (offset count : ℕ) → total (map_blocks r offset count) ≡ count
unfolding map_blocks
total-map_blocks r offset count =
    total-map_loop count r offset (offset + count) (omega arith) ∙ omega arith

block_of-lookup :
    (r : XtRoot) (b : ℕ) (e : Extent)
    → lookup r b ≡ some e
    → block_of r b ≡ some (e.address + (b - e.offset))
block_of-lookup r b e h = sym (physical-lookup r b) ∙ rw h refl

block_of-no_lookup : (r : XtRoot) (b : ℕ) → lookup r b ≡ none → block_of r b ≡ none
block_of-no_lookup r b h = sym (physical-lookup r b) ∙ rw h refl

located-map_loop :
    (fuel : ℕ) (r : XtRoot) (current end k : ℕ)
    → IsOrdered 0 (live r)
    → end ≤ current + fuel
    → current + k < end
    → AllMapped r current k
    → located (map_loop fuel r current end) k ≡ block_of r (current + k)
unfolding located
located-map_loop zero r current end k o h l m = absurd (omega arith)
located-map_loop (suc fuel) r current end k o h l m = elim (Option-cases (lookup r current)) [
  | inl e ↦ absurd (m 0 (omega arith) (rw add-zero (block_of-no_lookup r current e)))
  | inr (x, e) ↦
      let n = piece_len x current end in
      let c = lookup_covers r current x e in
      rw (map_loop_found fuel r current end x (omega arith) e) (elim (dec_lt k n) [
        | yes lt ↦ rw (lt→ltb k n lt) (
            rw
              (block_of-lookup r (current + k) x
                (lookup_run r current (current + k) x o e (omega arith) (omega arith)))
              (ap some (omega arith)))
        | no ge ↦ rw (ge→ltb k n (omega arith)) (
            located-map_loop fuel r (current + n) end (k - n) o (omega arith) (omega arith)
              (λ j hj. later n j (omega arith))
            ∙ ap (block_of r) (omega arith))
      ])
]
  where
    later : (n j : ℕ) → n + j ≤ k → block_of r (current + n + j) ≢ none
    later n j hj = rw (add_assoc current n j) (m (n + j) hj)

-- In a root that passes `validate`, a request whose first blocks are all mapped, up to the one
-- at `k`, is answered with the physical block of the one at `k`.
pub located-map_blocks :
    (r : XtRoot) (offset count k : ℕ)
    → validate r ≡ Validity.valid
    → k < count
    → AllMapped r offset k
    → located (map_blocks r offset count) k ≡ block_of r (offset + k)
unfolding map_blocks
located-map_blocks r offset count k v h m =
    located-map_loop count r offset (offset + count) k ((validate-IsOrdered r).0 v) (omega arith)
      (omega arith) m

-- A request for at least one block whose first block is a hole is answered by one piece without
-- a block (address 0) that spans the whole request, whatever the file has mapped behind the
-- hole.
pub map_blocks_at_hole :
    (r : XtRoot) (offset count : ℕ)
    → 0 < count
    → block_of r offset ≡ none
    → map_blocks r offset count ≡ (0, count) ∷ []
unfolding map_blocks
map_blocks_at_hole r offset zero h e = absurd (omega arith)
map_blocks_at_hole r offset (suc count) h e = elim (Option-cases (lookup r offset)) [
  | inl n ↦
      map_loop_hole count r offset (offset + suc count) (omega arith) n
      ∙ ap (λ (k : ℕ). (0, k) ∷ []) (omega arith)
  | inr (x, s) ↦ absurd (cc (e, block_of-lookup r offset x s))
]
