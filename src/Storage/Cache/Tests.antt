-- ===== src/Storage/Cache/Tests.antt =====
-- The page cache of src/storage/mod.rs on concrete caches.
use jfsfuse.Prelude.{ℕ, ◌≡◌, true, none, List, [], ◌∷◌}
use jfsfuse.Storage.Sample.{two_entries, two_entries-IsLawful}
use jfsfuse.Storage.Cache
use jfsfuse.Storage.Cache.{CachedPage, PageCache, new_page, put_at, get_or_load}
use jfsfuse.Storage.Cache.Evict.{put-is_pinned}

-- A dirty page of block 3 is the older of two.
abbrev dirty_page : CachedPage
dirty_page = record (new_page 3 (9 ∷ [])) { dirty = true }

abbrev full_cache : PageCache (List ((ℕ × ℕ) × CachedPage))
full_cache = record { capacity = 2; cache = ((7, 4), new_page 4 []) ∷ ((7, 3), dirty_page) ∷ [] }

put-is_pinned_example :
    ((Cache.put two_entries full_cache 7 (new_page 5 [])).1 ≡ full_cache)
    × (two_entries.peek full_cache.cache (7, 5) ≡ none)
unfolding put_at
put-is_pinned_example = put-is_pinned two_entries two_entries-IsLawful full_cache 7 (new_page 5 [])
