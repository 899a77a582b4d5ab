-- ===== src/Storage/Sample.antt =====
-- Concrete parameters for the tests: a store that never fails, and a cache of two entries.
use jfsfuse.Prelude.{
  ℕ, ◌≡◌, refl, sym, ap, ◌∙◌, inl, inr, Bool, true, false, Option, none, some, List, [], ◌∷◌, ◌++◌,
  arith, leb, ◌==◌, if◌then◌else◌, Bool-cases, Option-cases, length, take, drop, replicate,
}
use mathlib.Core.Option
use jfsfuse.Storage.Trait
use jfsfuse.Storage.Trait.{Storage, Read}
use jfsfuse.Storage.Lru
use jfsfuse.Storage.Lru.{
  LruCache, same_key, same_key→≡, same_key_refl, contains, victim, victim-peek_lru,
}

-- the blocks of the file system, and the bytes of the log
pub record World : Type 0 where
  pub blocks : ℕ → List ℕ
  pub log_bytes : List ℕ

abbrev pub empty_world : World
empty_world = record { blocks = λ b. []; log_bytes = replicate 8 0 }

abbrev pub store : Storage World
store = record {
  size_blocks = λ s. 100;
  read_block = λ s b. some (s.blocks b);
  write_block = λ s b d. (true, record s { blocks = λ c. if c == b then d else s.blocks c });
  read_bytes = λ s o n. Read.bytes (take n (drop o s.log_bytes));
  write_bytes = λ s o d. (true, record s { log_bytes = take o s.log_bytes ++ d });
  sync = λ s. (true, s);
  flush_data = λ s. (true, s);
  flush_metadata = λ s. (true, s);
}

pub store-IsLawful : Trait.IsLawful store
store-IsLawful = record {
  read_block-write_block = λ s t b c d e. rw (ap (λ x. x.1) (sym e)) (ground arith);
}

module _ {V : Type 0} where
  abbrev find : ℕ × ℕ → List ((ℕ × ℕ) × V) → Option V
  find k [] = none
  find k ((e, v) ∷ c) = if same_key k e then some v else find k c

  abbrev without : ℕ × ℕ → List ((ℕ × ℕ) × V) → List ((ℕ × ℕ) × V)
  without k [] = []
  without k ((e, v) ∷ c) = if same_key k e then without k c else (e, v) ∷ without k c

  abbrev last_of : List ((ℕ × ℕ) × V) → Option (ℕ × ℕ)
  last_of [] = none
  last_of ((e, v) ∷ []) = some e
  last_of (e ∷ f ∷ c) = last_of (f ∷ c)

  abbrev oldest : List ((ℕ × ℕ) × V) → Option ((ℕ × ℕ) × V)
  oldest c = elim (last_of c) [
    | none ↦ none
    | some k ↦ elim (find k c) [ none ↦ none | some v ↦ some (k, v) ]
  ]

  abbrev renew : List ((ℕ × ℕ) × V) → ℕ × ℕ → (V → V) → List ((ℕ × ℕ) × V)
  renew c k f = elim (find k c) [ none ↦ c | some v ↦ (k, f v) ∷ without k c ]

  abbrev insert : List ((ℕ × ℕ) × V) → ℕ × ℕ → V → List ((ℕ × ℕ) × V)
  insert c k v = elim (find k c) [
    | some w ↦ (k, v) ∷ without k c
    | none ↦ elim (leb 2 (length c)) [
      | false ↦ (k, v) ∷ c
      | true ↦ elim (oldest c) [ none ↦ (k, v) ∷ c | some (e, w) ↦ (k, v) ∷ without e c ]
    ]
  ]

  abbrev pub two_entries : LruCache V (List ((ℕ × ℕ) × V))
  two_entries = record {
    cap = λ c. 2;
    len = λ c. length c;
    peek = λ c k. find k c;
    peek_lru = oldest;
    touch = λ c k. renew c k (λ v. v);
    change = renew;
    put = insert;
    pop = λ c k. without k c;
    clear = λ c. [];
    iter = λ c. c;
  }

  find-without :
      (q k : ℕ × ℕ) (c : List ((ℕ × ℕ) × V))
      → find q (without k c) ≡ (if same_key q k then none else find q c)
  find-without q k [] = ground arith
  find-without (j, d) (l, m) (((i, b), v) ∷ c) = ground (arith, find-without (j, d) (l, m) c)

  find-renew :
      (c : List ((ℕ × ℕ) × V)) (k q : ℕ × ℕ) (f : V → V)
      → find q (renew c k f) ≡ (if same_key q k then Option.map f (find q c) else find q c)
  find-renew c k q f = elim (Option-cases (find k c)) [
    | inl e ↦
        rw (e, renew)
          (elim (Bool-cases (same_key q k)) [
            | inl y ↦
                let gone : find q c ≡ none = ap (λ z. find z c) (same_key→≡ q k y) ∙ e in
                rw (y, gone) refl
            | inr n ↦ rw n refl
          ])
    | inr (v, e) ↦
        rw (e, renew)
          (elim (Bool-cases (same_key q k)) [
            | inl y ↦
                let here : find q c ≡ some v = ap (λ z. find z c) (same_key→≡ q k y) ∙ e in
                rw (y, here) refl
            | inr n ↦ rw (n, find-without q k c, n) refl
          ])
  ]

  map_id_if : (b : Bool) (o : Option V) → (if b then Option.map (λ v. v) o else o) ≡ o
  map_id_if true none = refl
  map_id_if true (some v) = refl
  map_id_if false o = refl

  find-insert_self : (c : List ((ℕ × ℕ) × V)) (k : ℕ × ℕ) (v : V) → find k (insert c k v) ≡ some v
  find-insert_self c (i, b) v = ground arith

  find-insert_keeps :
      (c : List ((ℕ × ℕ) × V)) (k q : ℕ × ℕ) (v : V)
      → same_key q k ≡ false
      → victim two_entries c k ≡ none
      → find q (insert c k v) ≡ find q c
  find-insert_keeps c k q v other none_ = ground (arith, find-without q k c)

  find-insert_drops :
      (c : List ((ℕ × ℕ) × V)) (k q e : ℕ × ℕ) (v w : V)
      → same_key q k ≡ false
      → victim two_entries c k ≡ some (e, w)
      → find q (insert c k v) ≡ (if same_key q e then none else find q c)
  find-insert_drops c k q e v w other full =
      let (absent, at_cap, last) = victim-peek_lru two_entries c k e w full in
      rw (absent, at_cap, last, insert, other, find-without q e c) refl

  pub two_entries-IsLawful : Lru.IsLawful two_entries
  two_entries-IsLawful = record {
    peek-touch = λ c k q. find-renew c k q (λ v. v) ∙ map_id_if (same_key q k) (find q c);
    peek-change = find-renew;
    peek-put_self = find-insert_self;
    peek-put_keeps = find-insert_keeps;
    peek-put_drops = find-insert_drops;
    peek-pop = λ c k q. find-without q k c;
    peek_lru-peek = λ c k v h. ground arith;
  }
