-- ===== src/Fuse/Interrupt/Isolation.antt =====
-- An interrupt reaches the request that is in flight under its id, and no other.
use jfsfuse.Prelude.{
  ℕ, ◌+◌, ◌%◌, ◌^◌, ◌<◌, ◌≡◌, refl, sym, ap, ◌∙◌, ◌⊎◌, inl, inr, true, false, none, some, List, [],
  ◌∷◌, ◌++◌, arith, ◌==◌, if◌then◌else◌, ==→≡, ==→≢, ==_refl, Bool-cases, Option-cases,
  some_injective, length, length-append, length-set, get_or-set_self, get_or-set_ne, ◌≢◌, ≢→==,
}
use jfsfuse.Fuse.Interrupt.{
  InterruptToken, InterruptManager, new, find_flag, remove_flag, insert_flag, is_interrupted,
  register_at, register, interrupt, deregister,
}

find_flag-remove_flag :
    (j id : ℕ) (fs : List (ℕ × ℕ))
    → find_flag j (remove_flag id fs) ≡ (if j == id then none else find_flag j fs)
unfolding find_flag
find_flag-remove_flag j id [] = ground arith
find_flag-remove_flag j id ((k, f) ∷ fs) = elim (Bool-cases (k == id)) [
  | inl e ↦ rw (e, find_flag-remove_flag j id fs) (ground (arith, e))
  | inr e ↦ rw (e, find_flag-remove_flag j id fs) (ground (arith, e))
]

find_flag-insert_flag :
    (j id f : ℕ) (fs : List (ℕ × ℕ))
    → find_flag j (insert_flag id f fs) ≡ (if j == id then some f else find_flag j fs)
unfolding find_flag
find_flag-insert_flag j id f fs = rw (find_flag-remove_flag j id fs) (ground arith)

-- Each entry has a flag of its own on the heap.
pub record IsSeparate (m : InterruptManager) : Type 0 where
  pub made : (j f : ℕ) → find_flag j m.flags ≡ some f → f < length m.heap
  pub own : (j k f : ℕ) → find_flag j m.flags ≡ some f → find_flag k m.flags ≡ some f → j ≡ k

-- The calls of the manager, in any order.
pub data Reached : InterruptManager → Type 0 where
  started : Reached new
  registers : {m : InterruptManager} → Reached m → Reached (register m).1
  registers_at : {m : InterruptManager} (id : ℕ) → Reached m → Reached (register_at id m).1
  interrupts : {m : InterruptManager} (id : ℕ) → Reached m → Reached (interrupt id m).1
  deregisters : {m : InterruptManager} (id : ℕ) → Reached m → Reached (deregister id m)

inserted :
    (j id f g : ℕ) (fs : List (ℕ × ℕ))
    → find_flag j (insert_flag id f fs) ≡ some g
    → ((j ≡ id) × (g ≡ f)) ⊎ (find_flag j fs ≡ some g)
inserted j id f g fs h = elim (Bool-cases (j == id)) [
  | inl e ↦ inl (==→≡ j id e, some_injective (rw (find_flag-insert_flag j id f fs, e) at (sym h)))
  | inr e ↦ inr (rw (find_flag-insert_flag j id f fs, e) at h)
]

removed :
    (j id g : ℕ) (fs : List (ℕ × ℕ))
    → find_flag j (remove_flag id fs) ≡ some g
    → find_flag j fs ≡ some g
removed j id g fs h = elim (Bool-cases (j == id)) [
  | inl e ↦ absurd (ground (arith, rw (find_flag-remove_flag j id fs, e) at h))
  | inr e ↦ rw (find_flag-remove_flag j id fs, e) at h
]

added :
    (m : InterruptManager) (id n : ℕ)
    → IsSeparate m
    → IsSeparate (record m {
      next_id = n;
      flags = insert_flag id (length m.heap) m.flags;
      heap = m.heap ++ (false ∷ []);
    })
added m id n s = record {
  made = λ j f h. elim (inserted j id (length m.heap) f m.flags h) [
    | inl q ↦ omega (arith, q.1, length-append m.heap (false ∷ []))
    | inr q ↦ omega (arith, s.made j f q, length-append m.heap (false ∷ []))
  ];
  own = λ j k f h g. elim (inserted j id (length m.heap) f m.flags h) [
    | inl q ↦ elim (inserted k id (length m.heap) f m.flags g) [
      | inl r ↦ q.0 ∙ sym (r.0)
      | inr r ↦ absurd (omega (arith, s.made k f r, q.1))
    ]
    | inr q ↦ elim (inserted k id (length m.heap) f m.flags g) [
      | inl r ↦ absurd (omega (arith, s.made j f q, r.1))
      | inr r ↦ s.own j k f q r
    ]
  ];
}

interrupted : (m : InterruptManager) (id : ℕ) → IsSeparate m → IsSeparate (interrupt id m).1
unfolding interrupt
interrupted m id s = elim (Option-cases (find_flag id m.flags)) [
  | inl e ↦ rw (e, interrupt) s
  | inr (f, e) ↦
      rw (e, interrupt)
        (record {
          made = λ j g h. omega (arith, s.made j g h, length-set m.heap f true);
          own = s.own;
        })
]

pub Reached-IsSeparate : (m : InterruptManager) → Reached m → IsSeparate m
unfolding register register_at deregister find_flag
Reached-IsSeparate m Reached.started = record {
  made = λ j f h. absurd (ground (arith, h));
  own = λ j k f h g. absurd (ground (arith, h));
}
Reached-IsSeparate m (Reached.registers {m = n} r) =
    added n n.next_id ((n.next_id + 1) % 2 ^ 64) (Reached-IsSeparate n r)
Reached-IsSeparate m (Reached.registers_at {m = n} id r) =
    added n id n.next_id (Reached-IsSeparate n r)
Reached-IsSeparate m (Reached.interrupts {m = n} id r) = interrupted n id (Reached-IsSeparate n r)
Reached-IsSeparate m (Reached.deregisters {m = n} id r) =
    let s = Reached-IsSeparate n r in
    record {
      made = λ j f h. s.made j f (removed j id f n.flags h);
      own = λ j k f h g. s.own j k f (removed j id f n.flags h) (removed k id f n.flags g);
    }

-- `Held m t`: a call of `register` or `register_at` handed out the token `t`, and on the way from
-- there to `m` its request was neither deregistered nor registered again.
pub data Held : InterruptManager → InterruptToken → Type 0 where
  registered : {m : InterruptManager} → Reached m → Held (register m).1 (register m).0.1
  registered_at :
      {m : InterruptManager} (id : ℕ) → Reached m → Held (register_at id m).1 (register_at id m).0.1
  over_register :
      {m : InterruptManager} {t : InterruptToken}
      → Held m t
      → t.id ≢ (register m).0.0
      → Held (register m).1 t
  over_register_at :
      {m : InterruptManager} {t : InterruptToken} (id : ℕ)
      → Held m t
      → t.id ≢ id
      → Held (register_at id m).1 t
  over_interrupt :
      {m : InterruptManager} {t : InterruptToken} (id : ℕ) → Held m t → Held (interrupt id m).1 t
  over_deregister :
      {m : InterruptManager} {t : InterruptToken} (id : ℕ)
      → Held m t
      → t.id ≢ id
      → Held (deregister id m) t

Held-Reached : (m : InterruptManager) (t : InterruptToken) → Held m t → Reached m
Held-Reached m t (Held.registered r) = Reached.registers r
Held-Reached m t (Held.registered_at id r) = Reached.registers_at id r
Held-Reached m t (Held.over_register {m = n} {t = u} h d) = Reached.registers (Held-Reached n u h)
Held-Reached m t (Held.over_register_at {m = n} {t = u} id h d) =
    Reached.registers_at id (Held-Reached n u h)
Held-Reached m t (Held.over_interrupt {m = n} {t = u} id h) =
    Reached.interrupts id (Held-Reached n u h)
Held-Reached m t (Held.over_deregister {m = n} {t = u} id h d) =
    Reached.deregisters id (Held-Reached n u h)

find_flag-same : (id f : ℕ) (fs : List (ℕ × ℕ)) → find_flag id (insert_flag id f fs) ≡ some f
find_flag-same id f fs = find_flag-insert_flag id id f fs ∙ rw (==_refl id) refl

find_flag-other :
    (j id f : ℕ) (fs : List (ℕ × ℕ)) → j ≢ id → find_flag j (insert_flag id f fs) ≡ find_flag j fs
find_flag-other j id f fs d = find_flag-insert_flag j id f fs ∙ rw (≢→== j id d) refl

flags-interrupt : (id : ℕ) (m : InterruptManager) → (interrupt id m).1.flags ≡ m.flags
unfolding interrupt
flags-interrupt id m = elim (Option-cases (find_flag id m.flags)) [
  | inl e ↦ rw (e, interrupt) refl
  | inr (f, e) ↦ rw (e, interrupt) refl
]

-- The table and the token of a request in flight share a flag.
find_flag-Held :
    (m : InterruptManager) (t : InterruptToken) → Held m t → find_flag t.id m.flags ≡ some t.flag
unfolding register register_at deregister
find_flag-Held m t (Held.registered {m = n} r) = find_flag-same n.next_id (length n.heap) n.flags
find_flag-Held m t (Held.registered_at {m = n} id r) = find_flag-same id (length n.heap) n.flags
find_flag-Held m t (Held.over_register {m = n} {t = u} h d) =
    find_flag-other u.id n.next_id (length n.heap) n.flags d ∙ find_flag-Held n u h
find_flag-Held m t (Held.over_register_at {m = n} {t = u} id h d) =
    find_flag-other u.id id (length n.heap) n.flags d ∙ find_flag-Held n u h
find_flag-Held m t (Held.over_interrupt {m = n} {t = u} id h) =
    ap (find_flag u.id) (flags-interrupt id n) ∙ find_flag-Held n u h
find_flag-Held m t (Held.over_deregister {m = n} {t = u} id h d) =
    find_flag-remove_flag u.id id n.flags ∙ rw (≢→== u.id id d) refl ∙ find_flag-Held n u h

interrupt-found :
    (m : InterruptManager) (id j f : ℕ)
    → IsSeparate m
    → find_flag j m.flags ≡ some f
    → let t : InterruptToken = record { id = j; flag = f } in
      is_interrupted (interrupt id m).1 t ≡ (if j == id then true else is_interrupted m t)
unfolding interrupt
interrupt-found m id j f s h = elim (Option-cases (find_flag id m.flags)) [
  | inl e ↦ elim (Bool-cases (j == id)) [
    | inl q ↦
        let same : find_flag j m.flags ≡ none = ap (λ k. find_flag k m.flags) (==→≡ j id q) ∙ e in
        absurd (ground (arith, same, h))
    | inr q ↦ rw (e, interrupt, q) refl
  ]
  | inr (g, e) ↦ elim (Bool-cases (j == id)) [
    | inl q ↦
        let same : f ≡ g =
          some_injective (sym h ∙ ap (λ k. find_flag k m.flags) (==→≡ j id q) ∙ e) in
        rw (e, interrupt, q, same) (get_or-set_self m.heap g true false (s.made id g e))
    | inr q ↦
        rw (e, interrupt, q)
          (get_or-set_ne m.heap g f true false
            (λ same. ==→≢ j id q (s.own j id g (h ∙ ap some (sym same)) e)))
  ]
]

-- In every state that the manager's calls lead to, an interrupt of `id` sets the flag that the token
-- handed out for the request in flight under `id` reads, and leaves what the token of every other
-- request in flight reads as it was.
pub interrupt-is_interrupted :
    (m : InterruptManager) (id : ℕ) (t : InterruptToken)
    → Held m t
    → is_interrupted (interrupt id m).1 t ≡ (if t.id == id then true else is_interrupted m t)
interrupt-is_interrupted m id t h =
    interrupt-found m id t.id t.flag (Reached-IsSeparate m (Held-Reached m t h))
      (find_flag-Held m t h)

-- Once a request is deregistered, an interrupt of its id finds nothing and changes nothing.
interrupt-deregister :
    (m : InterruptManager) (id : ℕ) → interrupt id (deregister id m) ≡ (false, deregister id m)
unfolding interrupt deregister
interrupt-deregister m id =
    let gone : find_flag id (remove_flag id m.flags) ≡ none =
      find_flag-remove_flag id id m.flags ∙ rw (==_refl id) refl in
    rw (gone, interrupt) refl
