-- ===== src/Journal/Tracker.antt =====
-- What src/journal/recovery.rs keeps while it replays: the committed transactions, the pages seen,
-- the freed inodes and the volumes. A hash map is a list of pairs, newest first; a table of buckets
-- is a function of the bucket's number.
use jfsfuse.Prelude.{
  ℕ, ◌+◌, ◌-◌, ◌%◌, Bool, true, false, not, Option, none, some, List, [], ◌∷◌, ◌++◌, ◌==◌,
  if◌then◌else◌, length, replicate, retain, any,
}
use jfsfuse.Types.Pxd
use jfsfuse.Types.Pxd.{Pxd}

-- `HashMap::contains_key`, `insert` and `remove`, on the keys of a map whose values are not read.
abbrev pub contains_key : ℕ → List ℕ → Bool
contains_key k ks = any (λ j. j == k) ks

abbrev pub insert_key : ℕ → List ℕ → List ℕ
insert_key k ks = if contains_key k ks then ks else k ∷ ks

-- the function that is `f` but for one argument
abbrev pub update {ℓ} : {A : Type ℓ} → (ℕ → A) → ℕ → A → ℕ → A
update f i v j = if j == i then v else f j

pub record CommitTracker : Type 0 where
  pub committed : List ℕ
  pub hash_table : ℕ → List ℕ

abbrev pub no_commits : CommitTracker
no_commits = record { committed = []; hash_table = λ h. [] }

-- `tid & 0x3f`
unfoldable pub commit : ℕ → CommitTracker → CommitTracker
commit tid c =
    let hash = tid % 64 in
    record {
      committed = insert_key tid c.committed;
      hash_table = update c.hash_table hash (c.hash_table hash ++ (tid ∷ []));
    }

unfoldable pub is_committed : ℕ → CommitTracker → Bool
is_committed tid c = contains_key tid c.committed

unfoldable pub end_of_transaction : ℕ → CommitTracker → Bool × CommitTracker
end_of_transaction tid c =
    if not (contains_key tid c.committed)
    then (false, c)
    else (true, record c { committed = retain (λ t. not (t == tid)) c.committed })

pub record PageTracker : Type 0 where
  pub pxd : Pxd
  pub page_type : ℕ
  pub aggregate : ℕ
  pub next : Option ℕ
  pub summary : ℕ
  pub inode_slots : ℕ
  pub dtroot : List (ℕ × ℕ)
  pub xtroot : List (ℕ × ℕ)
  pub dt_page_slots : ℕ
  pub xt_page_high : ℕ
  pub xt_page_low : ℕ
  pub data_page_slots : ℕ

-- `PageTracker::new`
abbrev pub new_tracker : Pxd → ℕ → ℕ → PageTracker
new_tracker pxd page_type aggregate = record {
  pxd = pxd;
  page_type = page_type;
  aggregate = aggregate;
  next = none;
  summary = 0;
  inode_slots = 0;
  dtroot = [];
  xtroot = [];
  dt_page_slots = 0;
  xt_page_high = 0;
  xt_page_low = 0;
  data_page_slots = 0;
}

abbrev pub is_complete : PageTracker → Bool
is_complete t = t.summary == 255

abbrev pub set_no_redo : PageTracker → PageTracker
set_no_redo t = record t { summary = 255; page_type = 0 }

-- The buckets, each a list of trackers under their page's address.
abbrev pub PageTrackerTable : Type 0
PageTrackerTable = ℕ → List (ℕ × PageTracker)

abbrev pub hash : ℕ → ℕ
hash addr = addr % 4096

abbrev pub find_in : ℕ → List (ℕ × PageTracker) → Option PageTracker
find_in addr [] = none
find_in addr ((k, t) ∷ ts) = if k == addr then some t else find_in addr ts

-- `find`, and `find_mut` where the tracker is read
unfoldable pub find : ℕ → PageTrackerTable → Option PageTracker
find addr p = find_in addr (p (hash addr))

-- The first tracker of the address is changed.
abbrev pub change_in :
    ℕ → (PageTracker → PageTracker) → List (ℕ × PageTracker) → List (ℕ × PageTracker)
change_in addr f [] = []
change_in addr f ((k, t) ∷ ts) = if k == addr then (k, f t) ∷ ts else (k, t) ∷ change_in addr f ts

-- `find_mut`, and a change of the tracker that it finds
unfoldable pub find_mut : ℕ → (PageTracker → PageTracker) → PageTrackerTable → PageTrackerTable
find_mut addr f p = update p (hash addr) (change_in addr f (p (hash addr)))

-- The table that `find_or_create` leaves; what it returns is not used by the replay.
unfoldable pub find_or_create : Pxd → ℕ → ℕ → PageTrackerTable → PageTrackerTable
unfolding find
find_or_create pxd page_type aggregate p =
    let addr = Pxd.address pxd in
    let bucket = p (hash addr) in
    elim (find addr p) [
      | some t ↦ p
      | none ↦ update p (hash addr) (bucket ++ ((addr, new_tracker pxd page_type aggregate) ∷ []))
    ]

-- `FM_CLEAN`, `FM_DIRTY` and `FM_LOGREDO`
abbrev pub fm_clean : ℕ
fm_clean = 0

abbrev pub fm_dirty : ℕ
fm_dirty = 2

abbrev pub fm_logredo : ℕ
fm_logredo = 4

pub record RecoveryVolume : Type 0 where
  pub status : ℕ
  pub fssize : ℕ
  pub lbperpage : ℕ
  pub bmap_ctl : ℕ
  pub bmap_wsp : List (List ℕ)
  pub fsimap_lst : List (List ℕ)

-- `RecoveryVolume::new`
abbrev pub new_volume : RecoveryVolume
new_volume = record {
  status = fm_dirty;
  fssize = 0;
  lbperpage = 1;
  bmap_ctl = 0;
  bmap_wsp = [];
  fsimap_lst = [];
}

abbrev pub is_clean : RecoveryVolume → Bool
is_clean v = v.status == fm_clean

abbrev pub is_logredoing : RecoveryVolume → Bool
is_logredoing v = v.status == fm_logredo

-- `get_volume` and `get_or_create_volume`: new volumes are added up to the index.
unfoldable pub with_volume : List RecoveryVolume → ℕ → List RecoveryVolume
with_volume vs idx = vs ++ replicate (idx + 1 - length vs) new_volume
