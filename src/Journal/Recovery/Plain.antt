-- ===== src/Journal/Recovery/Plain.antt =====
-- While src/journal/recovery.rs replays what the log manager writes, no page of its table is complete
-- and no volume is clean.
use jfsfuse.Prelude.{
  ℕ, zero, suc, ◌+◌, ◌-◌, ◌<◌, ◌≡◌, refl, sym, inl, inr, some, List, [], ◌∷◌, ◌++◌, arith, ◌==◌,
  Bool-cases, Option-cases, some_injective, if_keeps, length, get_or, replicate, All, All-append,
}
use jfsfuse.Types.Pxd
use jfsfuse.Types.Pxd.{Pxd}
use jfsfuse.Journal.Tracker.{
  PageTracker, PageTrackerTable, RecoveryVolume, find_in, change_in, find, find_mut, find_or_create,
  hash, new_tracker, new_volume, update, with_volume, fm_dirty,
}
use jfsfuse.Journal.Recovery.{JournalRecovery, track, refresh}

abbrev pub Small : List (ℕ × PageTracker) → Type 0
Small ts = All (λ e. e.1.summary < 8) ts

-- No page is complete, and no volume is clean.
pub record IsPlain (r : JournalRecovery) : Type 0 where
  pub open_pages : (h : ℕ) → Small (r.pages h)
  pub dirty : All (λ v. v.status ≡ fm_dirty) r.volumes

find_in-Small :
    (a : ℕ) (ts : List (ℕ × PageTracker)) (t : PageTracker)
    → Small ts
    → find_in a ts ≡ some t
    → t.summary < 8
find_in-Small a [] t h e = absurd (ground (arith, e))
find_in-Small a ((k, u) ∷ ts) t h e = elim (Bool-cases (k == a)) [
  | inl q ↦ let is : u ≡ t = some_injective (rw q at e) in rw (sym is) (h.0)
  | inr q ↦ find_in-Small a ts t h.1 (rw q at e)
]

change_in-Small : (a : ℕ) (ts : List (ℕ × PageTracker)) → Small ts → Small (change_in a refresh ts)
change_in-Small a [] h = tt
change_in-Small a ((k, u) ∷ ts) h = elim (Bool-cases (k == a)) [
  | inl q ↦ rw q (omega (arith, h.0), h.1)
  | inr q ↦ rw q (h.0, change_in-Small a ts h.1)
]

update-Small :
    (h k : ℕ) (p : PageTrackerTable) (ts : List (ℕ × PageTracker))
    → ((h : ℕ) → Small (p h))
    → Small ts
    → Small (update p k ts h)
update-Small h k p ts small new_ = if_keeps (h == k) Small new_ (small h)

pub find-Small :
    (a : ℕ) (p : PageTrackerTable) (t : PageTracker)
    → ((h : ℕ) → Small (p h))
    → find a p ≡ some t
    → t.summary < 8
unfolding find
find-Small a p t small e = find_in-Small a (p (hash a)) t (small (hash a)) e

pub track-Small :
    (pxd : Pxd) (ty ag : ℕ) (p : PageTrackerTable)
    → ((h : ℕ) → Small (p h))
    → (h : ℕ) → Small (track refresh pxd ty ag p h)
unfolding find find_mut find_or_create
track-Small pxd ty ag p small h =
    let bucket = p (hash (Pxd.address pxd)) in
    elim (Option-cases (find_in (Pxd.address pxd) (p (hash (Pxd.address pxd))))) [
      | inl e ↦
          rw (track, e, find_or_create, e)
            (update-Small h (hash (Pxd.address pxd)) p
              (bucket ++ ((Pxd.address pxd, new_tracker pxd ty ag) ∷ [])) small
              (All-append (λ e. e.1.summary < 8) bucket
                ((Pxd.address pxd, new_tracker pxd ty ag) ∷ []) (small (hash (Pxd.address pxd)))
                (omega arith, tt)))
      | inr (t, e) ↦
          rw (track, e)
            (update-Small h (hash (Pxd.address pxd)) p (change_in (Pxd.address pxd) refresh bucket)
              small (change_in-Small (Pxd.address pxd) bucket (small (hash (Pxd.address pxd)))))
    ]

pub with_volume_dirty :
    (vs : List RecoveryVolume) (idx : ℕ)
    → All (λ v. v.status ≡ fm_dirty) vs
    → All (λ v. v.status ≡ fm_dirty) (with_volume vs idx)
unfolding with_volume
with_volume_dirty vs idx h =
    All-append (λ v. v.status ≡ fm_dirty) vs (replicate (idx + 1 - length vs) new_volume) h
      (go (idx + 1 - length vs))
  where
    go : (n : ℕ) → All (λ v. v.status ≡ fm_dirty) (replicate n new_volume)
    go zero = tt
    go (suc n) = (refl, go n)

pub get_or_dirty :
    (vs : List RecoveryVolume) (idx : ℕ)
    → All (λ v. v.status ≡ fm_dirty) vs
    → (get_or vs idx new_volume).status ≡ fm_dirty
get_or_dirty [] idx h = refl
get_or_dirty (v ∷ vs) zero h = h.0
get_or_dirty (v ∷ vs) (suc idx) h = get_or_dirty vs idx h.1
