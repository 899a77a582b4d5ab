-- ===== src/Volume/Step/Settled.antt =====
-- Operations that leave no transaction behind where they succeed: how that goes through the steps
-- which the operations are made of.
use jfsfuse.Prelude.{
  ℕ, ◌≡◌, refl, Bool, true, false, none, Option, arith, inl, inr, if◌then◌else◌, Option-cases,
}
use jfsfuse.Storage.Trait.{Storage}
use jfsfuse.Storage.Lru.{LruCache}
use jfsfuse.Storage.Cache.{CachedPage, PageCache}
use jfsfuse.Journal.Manager.{LogManager}
use jfsfuse.Transaction
use jfsfuse.Transaction.{TransactionManager, Committed}
use jfsfuse.Volume
use jfsfuse.Volume.{Volume}
use jfsfuse.Volume.Step
use jfsfuse.Volume.Step.{Answer, VolumeError, World, Device, M, pure, lift, continue, ◌>>=◌, ◌>>◌}

-- No transaction is in progress.
abbrev pub IsIdle : {S C : Type 0} → World S C → Type 0
IsIdle w = w.volume.tx_mgr.active ≡ none

-- A success leaves the volume idle.
pub record Ends {S C A : Type 0} (m : M S C A) : Type 0 where
  pub ends : (w : World S C) (a : A) → (m w).0 ≡ Answer.ok a → IsIdle (m w).1

module _ {S C : Type 0} where
  continue-Ends :
      {A B : Type 0} (f : A → M S C B) (x : Answer A × World S C)
      → ((a : A) → Ends (f a))
      → (b : B) → (continue f x).0 ≡ Answer.ok b
      → IsIdle (continue f x).1
  continue-Ends f (Answer.ok a, w) h b e = (h a).ends w b e
  continue-Ends f (Answer.err x, w) h b e = absurd (cc e)
  continue-Ends f (Answer.panicked, w) h b e = absurd (cc e)

  pub Ends-bind :
      {A B : Type 0} (m : M S C A) (f : A → M S C B) → ((a : A) → Ends (f a)) → Ends (m >>= f)
  unfolding ◌>>=◌
  Ends-bind m f h = record { ends = λ w b e. continue-Ends f (m w) h b e }

  pub Ends-then : {B : Type 0} (m : M S C (Unit {0})) (k : M S C B) → Ends k → Ends (m >> k)
  unfolding ◌>>◌
  Ends-then m k h = Ends-bind m (λ u. k) (λ u. h)

  pub Ends-if :
      {A : Type 0} (b : Bool) {m n : M S C A} → Ends m → Ends n → Ends (if b then m else n)
  Ends-if true h k = h
  Ends-if false h k = k

  -- an operation that always leaves the volume idle
  pub Ends-last : {A : Type 0} {m : M S C A} → ((w : World S C) → IsIdle (m w).1) → Ends m
  Ends-last h = record { ends = λ w a e. h w }

  pub continue-pure :
      {A B : Type 0} (b c : B) (x : Answer A × World S C)
      → ((a : A) → x.0 ≡ Answer.ok a → IsIdle x.1)
      → (continue {B = B} (λ a. pure b) x).0 ≡ Answer.ok c
      → IsIdle (continue {B = B} (λ a. pure b) x).1
  continue-pure b c (Answer.ok a, w) h e = h a refl
  continue-pure b c (Answer.err x, w) h e = absurd (cc e)
  continue-pure b c (Answer.panicked, w) h e = absurd (cc e)

  -- another answer behind an operation
  pub Ends-forget : {A B : Type 0} (m : M S C A) (b : B) → Ends m → Ends (m >>= λ a. pure b)
  unfolding ◌>>=◌
  Ends-forget m b h = record { ends = λ w c e. continue-pure b c (m w) (h.ends w) e }

  pub Ends-pure : {B : Type 0} (m : M S C (Unit {0})) (b : B) → Ends m → Ends (m >> pure b)
  unfolding ◌>>◌
  Ends-pure m b h = Ends-forget m b h

module _ {S C : Type 0} (lru : LruCache CachedPage C) (storage log : Storage S) where
  commit-active :
      (tm : TransactionManager) (s : S) (pc : PageCache C) (journal : Option LogManager)
      → (Transaction.commit lru storage log tm s pc journal).1.active ≡ none
  unfolding Transaction.commit
  commit-active tm s pc journal = elim (Option-cases tm.active) [
    | inl e ↦ rw (e, Transaction.commit) e
    | inr (a, e) ↦ rw (e, Transaction.commit) (ground arith)
  ]

  module _ (dmap_start : ℕ) where
    commit_bmap-tx_mgr :
        (s : S) (v : Volume C)
        → (Volume.commit_bmap lru storage log dmap_start s v).2.tx_mgr ≡ v.tx_mgr
    unfolding Volume.commit_bmap
    commit_bmap-tx_mgr s v = ground arith

    volume_commit-active :
        (s : S) (v : Volume C)
        → (Volume.commit_transaction lru storage log dmap_start s v).2.tx_mgr.active ≡ none
    unfolding Volume.commit_transaction
    volume_commit-active s v = ground (arith, commit-active v.tx_mgr s v.page_cache v.log)

module _ {S C : Type 0} (dev : Device S C) where
  pub commit_transaction-IsIdle : (w : World S C) → IsIdle (Step.commit_transaction dev w).1
  unfolding Step.commit_transaction
  commit_transaction-IsIdle w =
      volume_commit-active dev.lru dev.storage dev.log_storage dev.dmap_start w.store w.volume

  abort_transaction-IsIdle : (w : World S C) → IsIdle (Step.abort_transaction dev w).1
  unfolding Step.abort_transaction Volume.abort_transaction Transaction.abort
  abort_transaction-IsIdle w = ground arith

  pub abort_with-IsIdle :
      {A : Type 0} (a : Answer A) (w : World S C) → IsIdle (Step.abort_with dev a w).1
  unfolding Step.abort_with Step.abort_transaction ◌>>◌
  abort_with-IsIdle a w = abort_transaction-IsIdle w
