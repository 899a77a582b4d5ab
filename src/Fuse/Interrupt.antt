-- ===== src/Fuse/Interrupt.antt =====
-- src/fuse/interrupt.rs: the requests in flight and their interrupt flags. A flag is shared by the
-- table and the token of its request, so it is a cell of a heap, and both hold its address.
mod Tests
pub mod Isolation
use jfsfuse.Prelude.{
  ℕ, ◌+◌, ◌-◌, ◌/◌, ◌%◌, ◌^◌, ap, Bool, true, false, not, Option, none, some, List, [], ◌∷◌, ◌++◌,
  map, ◌==◌, if◌then◌else◌, length, get_or, set, retain,
}

pub record InterruptToken : Type 0 where
  pub id : ℕ
  pub flag : ℕ

-- `flags` is a hash map: a list of pairs without repeated keys. `heap` has every flag made so far.
pub record InterruptManager : Type 0 where
  pub next_id : ℕ
  pub flags : List (ℕ × ℕ)
  pub heap : List Bool

abbrev pub new : InterruptManager
new = record { next_id = 1; flags = []; heap = [] }

-- `HashMap::get`, `remove` and `insert`
unfoldable pub find_flag : ℕ → List (ℕ × ℕ) → Option ℕ
find_flag id [] = none
find_flag id ((k, f) ∷ fs) = if k == id then some f else find_flag id fs

abbrev pub remove_flag : ℕ → List (ℕ × ℕ) → List (ℕ × ℕ)
remove_flag id fs = retain (λ e. not (e.0 == id)) fs

abbrev pub insert_flag : ℕ → ℕ → List (ℕ × ℕ) → List (ℕ × ℕ)
insert_flag id f fs = (id, f) ∷ remove_flag id fs

-- `InterruptFlag::is_set`, for the flag of a token
abbrev pub is_interrupted : InterruptManager → InterruptToken → Bool
is_interrupted m t = get_or m.heap t.flag false

unfoldable pub register_at : ℕ → InterruptManager → (ℕ × InterruptToken) × InterruptManager
register_at id m =
    let flag = length m.heap in
    (
      (id, record { id = id; flag = flag }),
      record m { flags = insert_flag id flag m.flags; heap = m.heap ++ (false ∷ []) },
    )

-- the counter wraps
unfoldable pub register : InterruptManager → (ℕ × InterruptToken) × InterruptManager
unfolding register_at
register m = register_at m.next_id (record m { next_id = (m.next_id + 1) % 2 ^ 64 })

unfoldable pub interrupt : ℕ → InterruptManager → Bool × InterruptManager
interrupt id m = elim (find_flag id m.flags) [
  | some f ↦ (true, record m { heap = set m.heap f true })
  | none ↦ (false, m)
]

unfoldable pub deregister : ℕ → InterruptManager → InterruptManager
deregister id m = record m { flags = remove_flag id m.flags }

abbrev pub pending_count : InterruptManager → ℕ
pending_count m = length m.flags
