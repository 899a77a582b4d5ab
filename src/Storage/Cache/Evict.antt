-- ===== src/Storage/Cache/Evict.antt =====
-- What the page cache of src/storage/mod.rs drops when it is full.
use jfsfuse.Prelude.{
  ℕ, ◌≡◌, refl, sym, ap, ◌∙◌, inl, inr, Bool, true, false, not, ◌&&◌, ◌||◌, none, some, arith, ltb,
  leb, if◌then◌else◌, Bool-cases, Option-cases, some_injective,
}
use jfsfuse.Storage.Trait.{Storage}
use jfsfuse.Storage.Lru
use jfsfuse.Storage.Lru.{
  LruCache, same_key, same_key→≡, same_key_refl, contains, victim, victim-peek_lru,
}
use jfsfuse.Storage.Cache.{CachedPage, PageCache, is_pinned, put_at, put, get_or_load}

module _ {C : Type 0} (lru : LruCache CachedPage C) (law : Lru.IsLawful lru) where
  -- With a lawful container, a `put` that succeeds stores the page, and keeps every other page
  -- that is dirty or pinned as it is. A `put` that fails changes nothing, and its page was not
  -- cached before.
  pub put-is_pinned :
      (pc : PageCache C) (inode : ℕ) (page : CachedPage)
      → let (fine, after) = put lru pc inode page in
        if fine
        then (lru.peek after.cache (inode, page.block) ≡ some page)
          × ((q : ℕ × ℕ) (p : CachedPage)
              → same_key q (inode, page.block) ≡ false
              → lru.peek pc.cache q ≡ some p
              → (p.dirty || is_pinned p) ≡ true
              → lru.peek after.cache q ≡ some p)
        else (after ≡ pc) × (lru.peek pc.cache (inode, page.block) ≡ none)
  unfolding put_at
  put-is_pinned pc inode page =
      let key : ℕ × ℕ = (inode, page.block) in
      let c = pc.cache in
      let held : Bool = elim (lru.peek_lru c) [
        | none ↦ false
        | some (k, v) ↦ v.dirty || ltb 0 v.pin_count
      ] in
      elim (Bool-cases (not (contains lru c key) && leb (lru.cap c) (lru.len c) && held)) [
        | inl h ↦
            let runs : put lru pc inode page ≡ (false, pc) = rw (h, put_at) refl in
            rw runs (refl, ground arith)
        | inr h ↦
            let runs : put lru pc inode page ≡ (true, record pc { cache = lru.put c key page }) =
              rw (h, put_at) refl in
            rw runs (
              law.peek-put_self c key page,
              λ q p other there busy. elim (Option-cases (victim lru c key)) [
                | inl v ↦ law.peek-put_keeps c key q page other v ∙ there
                | inr ((e, w), v) ↦
                    law.peek-put_drops c key q e page w other v ∙ elim (Bool-cases (same_key q e)) [
                      | inr n ↦ rw n there
                      | inl y ↦
                          let (absent, full, last) = victim-peek_lru lru c key e w v in
                          let is : w ≡ p = some_injective (
                            sym (law.peek_lru-peek c e w last)
                            ∙ ap (lru.peek c) (sym (same_key→≡ q e y))
                            ∙ there) in
                          let kept : (w.dirty || ltb 0 w.pin_count) ≡ true =
                            ap (λ z. z.dirty || ltb 0 z.pin_count) is ∙ busy in
                          let refused : (not (contains lru c key)
                                && leb (lru.cap c) (lru.len c)
                                && held)
                              ≡ true =
                            rw (contains, absent, full, last, kept) refl in
                          absurd (ground (arith, refused, h))
                    ]
              ],
            )
      ]

  -- With a lawful container that is full, loading a page that is not cached drops the least
  -- recently used page of another key, dirty or pinned as it may be.
  pub get_or_load-victim :
      {S : Type 0} (storage : Storage S) (s : S) (pc : PageCache C) (inode block index : ℕ)
      (e : ℕ × ℕ) (w : CachedPage)
      → same_key e (inode, block) ≡ false
      → victim lru pc.cache (inode, block) ≡ some (e, w)
      → (lru.peek pc.cache e ≡ some w)
        × (lru.peek (get_or_load storage lru pc s inode block index).1.cache e ≡ none)
  unfolding get_or_load
  get_or_load-victim storage s pc inode block index e w other full =
      let c = pc.cache in
      let key : ℕ × ℕ = (inode, block) in
      let (absent, at_cap, last) = victim-peek_lru lru c key e w full in
      (
        law.peek_lru-peek c e w last,
        rw (absent, get_or_load)
            (law.peek-put_drops c key e e _ w other full ∙ rw (same_key_refl e) refl),
      )
