-- ===== src/Transaction/Abort.antt =====
-- What an abort of src/transaction.rs leaves in the page cache.
use jfsfuse.Prelude.{
  ℕ, ◌≡◌, refl, ap, ◌∙◌, inl, inr, Option, none, some, List, [], ◌∷◌, arith, Bool-cases,
  Option-cases,
}
use mathlib.Core.Option
use jfsfuse.Storage.Lru
use jfsfuse.Storage.Lru.{LruCache, same_key, same_key→≡, contains, victim}
use jfsfuse.Storage.Cache
use jfsfuse.Storage.Cache.{CachedPage, PageCache, clean_page, unpin, put_at}
use jfsfuse.Transaction.{TransactionManager, abort_pages, abort}

module _ {C : Type 0} (lru : LruCache CachedPage C) (law : Lru.IsLawful lru) where
  -- the block and the data of a cached page
  abbrev pub view : C → ℕ × ℕ → Option (ℕ × List ℕ)
  view c q = Option.map (λ p. (p.block, p.data_)) (lru.peek c q)

  -- Every page stands under its own block.
  abbrev pub IsKeyed : C → Type 0
  IsKeyed c = (q : ℕ × ℕ) (p : CachedPage) → lru.peek c q ≡ some p → p.block ≡ q.1

  view-unpin : (c : C) (k q : ℕ × ℕ) → view (lru.change c k unpin) q ≡ view c q
  view-unpin c k q = ground (arith, law.peek-change c k q unpin)

  put_runs :
      (pc : PageCache C) (k : ℕ × ℕ) (p r : CachedPage)
      → lru.peek pc.cache k ≡ some p
      → (put_at lru pc k r).1.cache ≡ lru.put pc.cache k r
  unfolding put_at
  put_runs pc k p r found = rw (found, put_at, contains) refl

  put_at_self_lem :
      (pc : PageCache C) (k : ℕ × ℕ) (p r : CachedPage)
      → lru.peek pc.cache k ≡ some p
      → r.block ≡ p.block
      → r.data_ ≡ p.data_
      → view (put_at lru pc k r).1.cache k ≡ view pc.cache k
  put_at_self_lem pc k p r found same_block same_data =
      rw (put_runs pc k p r found, law.peek-put_self pc.cache k r, found, same_block, same_data)
        refl

  view-put_at :
      (pc : PageCache C) (k q : ℕ × ℕ) (p r : CachedPage)
      → lru.peek pc.cache k ≡ some p
      → r.block ≡ p.block
      → r.data_ ≡ p.data_
      → view (put_at lru pc k r).1.cache q ≡ view pc.cache q
  view-put_at pc k q p r found same_block same_data = elim (Bool-cases (same_key q k)) [
    | inl h ↦ rw (same_key→≡ q k h) (put_at_self_lem pc k p r found same_block same_data)
    | inr h ↦
        let none_ : victim lru pc.cache k ≡ none = rw (found, victim, contains) refl in
        rw (put_runs pc k p r found, law.peek-put_keeps pc.cache k q r h none_) refl
  ]

  view-IsKeyed : (c d : C) → IsKeyed c → ((q : ℕ × ℕ) → view d q ≡ view c q) → IsKeyed d
  view-IsKeyed c d keyed same q p e = elim (Option-cases (lru.peek c q)) [
    | inl f ↦ absurd (let s = same q in ground (arith, rw (e, f) at s))
    | inr (o, f) ↦
        let s = same q in
        let agree : p.block ≡ o.block = ground (arith, rw (e, f) at s) in agree ∙ keyed q o f
  ]

  view-abort_pages :
      (keys : List (ℕ × ℕ)) (pc : PageCache C)
      → IsKeyed pc.cache
      → (q : ℕ × ℕ) → view (abort_pages lru keys pc).cache q ≡ view pc.cache q
  unfolding abort_pages
  view-abort_pages [] pc keyed q = refl
  view-abort_pages ((i, b) ∷ keys) pc keyed q =
      let seen = (Cache.get lru pc i b).1 in
      let touched : (q : ℕ × ℕ) → view seen.cache q ≡ view pc.cache q =
        λ q. ap (Option.map (λ p. (p.block, p.data_))) (law.peek-touch pc.cache (i, b) q) in
      let ends : (m : PageCache C)
          → ((q : ℕ × ℕ) → view m.cache q ≡ view pc.cache q)
          → view (abort_pages lru keys (Cache.unpin_page lru m i b)).cache q ≡ view pc.cache q =
        λ m same.
          view-abort_pages keys (Cache.unpin_page lru m i b)
            (view-IsKeyed pc.cache (lru.change m.cache (i, b) unpin) keyed
              (λ q. view-unpin m.cache (i, b) q ∙ same q))
            q
          ∙ view-unpin m.cache (i, b) q
          ∙ same q in
      elim (Option-cases (lru.peek pc.cache (i, b))) [
        | inl e ↦ rw (e, abort_pages) (ends seen touched)
        | inr (p, e) ↦
            let r = unpin (clean_page p) in
            let here : r.block ≡ b = keyed (i, b) p e in
            let found : lru.peek seen.cache (i, r.block) ≡ some p =
              ap (λ k. lru.peek seen.cache (i, k)) here
              ∙ law.peek-touch pc.cache (i, b) (i, b)
              ∙ e in
            rw (e, abort_pages)
              (ends (put_at lru seen (i, r.block) r).1
                (λ q. view-put_at seen (i, r.block) q p r found refl refl ∙ touched q))
      ]

  -- With a lawful container, in a cache whose pages stand under their own blocks: after an abort
  -- no transaction is active, and every cached page still has the block and the data that it
  -- had, those that the transaction changed as well.
  pub view-abort :
      (tm : TransactionManager) (pc : PageCache C) (q : ℕ × ℕ)
      → IsKeyed pc.cache
      → ((abort lru tm pc).0.active ≡ none) × (view (abort lru tm pc).1.cache q ≡ view pc.cache q)
  unfolding abort
  view-abort tm pc q keyed = elim (Option-cases tm.active) [
    | inl e ↦ rw (e, abort) (e, refl)
    | inr (a, e) ↦ rw (e, abort) (refl, view-abort_pages a.dirty_pages pc keyed q)
  ]
