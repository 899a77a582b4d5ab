-- ===== src/Storage/Lru.antt =====
-- The container `LruCache` of the crate `lru`, which src/storage/mod.rs keeps its pages in: its
-- operations over an unknown state, and its documented behaviour. A key is an inode and a block.
use jfsfuse.Prelude.{
  ℕ, ◌≡◌, Bool, true, false, not, ◌&&◌, Option, none, some, List, arith, leb, ◌==◌, if◌then◌else◌,
}
use mathlib.Core.Option

abbrev pub same_key : ℕ × ℕ → ℕ × ℕ → Bool
same_key (i, b) (j, c) = (i == j) && (b == c)

pub same_key→≡ : (q k : ℕ × ℕ) → same_key q k ≡ true → q ≡ k
same_key→≡ (i, b) (j, c) h =
    let left : i ≡ j = ground arith in let right : b ≡ c = ground arith in λ n. (left n, right n)

pub same_key_refl : (k : ℕ × ℕ) → same_key k k ≡ true
same_key_refl (i, b) = ground arith

-- `get` is `peek` with `touch`, which renews the entry; `change` is what a caller does with the
-- value of `get_mut`.
pub record LruCache (V C : Type 0) : Type 0 where
  pub cap : C → ℕ
  pub len : C → ℕ
  pub peek : C → ℕ × ℕ → Option V
  pub peek_lru : C → Option ((ℕ × ℕ) × V)
  pub touch : C → ℕ × ℕ → C
  pub change : C → ℕ × ℕ → (V → V) → C
  pub put : C → ℕ × ℕ → V → C
  pub pop : C → ℕ × ℕ → C
  pub clear : C → C
  pub iter : C → List ((ℕ × ℕ) × V)

module _ {V C : Type 0} (lru : LruCache V C) where
  abbrev pub contains : C → ℕ × ℕ → Bool
  contains c k = elim (lru.peek c k) [ none ↦ false | some v ↦ true ]

  -- The key that a `put` of another one drops.
  abbrev pub victim : C → ℕ × ℕ → Option ((ℕ × ℕ) × V)
  victim c k = if not (contains c k) && leb (lru.cap c) (lru.len c) then lru.peek_lru c else none

  pub record IsLawful : Type 0 where
    pub peek-touch : (c : C) (k q : ℕ × ℕ) → lru.peek (lru.touch c k) q ≡ lru.peek c q
    pub peek-change :
        (c : C) (k q : ℕ × ℕ) (f : V → V)
        → lru.peek (lru.change c k f) q
          ≡ (if same_key q k then Option.map f (lru.peek c q) else lru.peek c q)
    pub peek-put_self : (c : C) (k : ℕ × ℕ) (v : V) → lru.peek (lru.put c k v) k ≡ some v
    pub peek-put_keeps :
        (c : C) (k q : ℕ × ℕ) (v : V)
        → same_key q k ≡ false
        → victim c k ≡ none
        → lru.peek (lru.put c k v) q ≡ lru.peek c q
    pub peek-put_drops :
        (c : C) (k q e : ℕ × ℕ) (v w : V)
        → same_key q k ≡ false
        → victim c k ≡ some (e, w)
        → lru.peek (lru.put c k v) q ≡ (if same_key q e then none else lru.peek c q)
    pub peek-pop :
        (c : C) (k q : ℕ × ℕ)
        → lru.peek (lru.pop c k) q ≡ (if same_key q k then none else lru.peek c q)
    pub peek_lru-peek :
        (c : C) (k : ℕ × ℕ) (v : V) → lru.peek_lru c ≡ some (k, v) → lru.peek c k ≡ some v

  pub victim-peek_lru :
      (c : C) (k e : ℕ × ℕ) (w : V)
      → victim c k ≡ some (e, w)
      → (lru.peek c k ≡ none)
        × (leb (lru.cap c) (lru.len c) ≡ true)
        × (lru.peek_lru c ≡ some (e, w))
  victim-peek_lru c k e w h = ground arith
