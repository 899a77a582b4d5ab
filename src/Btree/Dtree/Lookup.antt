-- ===== src/Btree/Dtree/Lookup.antt =====
-- `lookup` of src/btree/dtree.rs finds what `entries` lists.
use jfsfuse.Prelude.{
  ℕ, ◌*◌, ◌≡◌, refl, sym, ap, ◌∙◌, ◌⊎◌, inl, inr, Option, none, some, List, [], ◌∷◌, arith, ◌==◌,
  if◌then◌else◌, ==→≡, Bool-cases,
}
use jfsfuse.Btree.Dtree.{
  Outcome, DirEntry, Dtree, next_index, read_stbl, dir_entry, outside, name_outside, same_name,
  lookup_loop, lookup, and_then, entries_loop, entries,
}

-- the first entry of the name
abbrev pub find_named : List ℕ → List DirEntry → Option DirEntry
find_named name [] = none
find_named name (e ∷ es) = if same_name e.name name then some e else find_named name es

ok_injective {ℓ} : {A : Type ℓ} {x y : A} → Outcome.ok x ≡ Outcome.ok y → x ≡ y
ok_injective {A} {x} h =
    ap (λ o. elim o as (λ _. A) [ Outcome.ok z ↦ z | Outcome.err ↦ x | Outcome.panic ↦ x ]) h

pub Outcome-cases {ℓ} :
    {A : Type ℓ} (o : Outcome A)
    → ((a : A) × (o ≡ Outcome.ok a)) ⊎ (o ≡ Outcome.err) ⊎ (o ≡ Outcome.panic)
Outcome-cases (Outcome.ok a) = inl (a, refl)
Outcome-cases Outcome.err = inr (inl refl)
Outcome-cases Outcome.panic = inr (inr refl)

entries_loop_cons :
    (slot : ℕ) (slots d : List ℕ)
    → entries_loop (slot ∷ slots) d ≡ (
        if outside d slot
        then entries_loop slots d
        else if name_outside d slot
        then Outcome.panic
        else and_then (entries_loop slots d) (λ es. Outcome.ok (dir_entry d (slot * 32) ∷ es)))
unfolding entries_loop
entries_loop_cons slot slots d = refl

lookup_loop-entries_loop :
    (slots d name : List ℕ) (es : List DirEntry)
    → entries_loop slots d ≡ Outcome.ok es
    → lookup_loop slots d name ≡ Outcome.ok (find_named name es)
unfolding lookup_loop entries_loop
lookup_loop-entries_loop [] d name es h = rw (sym (ok_injective h)) refl
lookup_loop-entries_loop (slot ∷ slots) d name es h = elim (Bool-cases (outside d slot)) [
  | inl o ↦
      rw o (lookup_loop-entries_loop slots d name es (rw (entries_loop_cons slot slots d, o) at h))
  | inr o ↦ elim (Bool-cases (name_outside d slot)) [
    | inl p ↦ absurd (ground (arith, rw (entries_loop_cons slot slots d, o, p) at h))
    | inr p ↦ elim (Outcome-cases (entries_loop slots d)) [
      | inr (inl b) ↦ absurd (ground (arith, rw (entries_loop_cons slot slots d, o, p, b) at h))
      | inr (inr b) ↦ absurd (ground (arith, rw (entries_loop_cons slot slots d, o, p, b) at h))
      | inl (rest, e) ↦
          let is : dir_entry d (slot * 32) ∷ rest ≡ es =
            ok_injective (rw (entries_loop_cons slot slots d, o, p, e) at h) in
          let later = lookup_loop-entries_loop slots d name rest e in
          elim (Bool-cases (same_name (dir_entry d (slot * 32)).name name)) [
            | inl m ↦ rw (o, p, sym is, m) refl
            | inr m ↦ rw (o, p, sym is, m, later) refl
          ]
    ]
  ]
]

pub read_stbl_zero : (d : List ℕ) → read_stbl d 0 ≡ []
unfolding read_stbl
read_stbl_zero d = refl

-- Where `entries` returns the list of the directory's entries, `lookup` returns the first of
-- them that has the name, or none if no entry has it.
pub lookup-entries :
    (t : Dtree) (name : List ℕ) (es : List DirEntry)
    → entries t ≡ Outcome.ok es
    → lookup t name ≡ Outcome.ok (find_named name es)
unfolding lookup entries lookup_loop
lookup-entries t name es h = elim (Bool-cases (next_index t.data_ == 0)) [
  | inl z ↦
      let d = t.data_ in
      let none_read : read_stbl d (next_index d) ≡ [] =
        ap (read_stbl d) (==→≡ (next_index d) 0 z) ∙ read_stbl_zero d in
      rw z (lookup_loop-entries_loop [] d name es (rw none_read at h))
  | inr z ↦
      rw z (lookup_loop-entries_loop (read_stbl t.data_ (next_index t.data_)) t.data_ name es h)
]
