-- ===== src/Log/Pool/Owned.antt =====
-- log.go: who holds a buffer.
use open_blocklist.Base.{
  ℕ, zero, suc, ◌+◌, ◌≤◌, ◌==◌, ==_iff, Bytes, List, [], ◌∷◌, length, length-append, ltb, ◌≡◌, refl,
  ap, arith, Bool-cases, inl, inr,
}
use open_blocklist.Log.Pool.{
  Memory, store, allocate, get_from, get, put, copy_out, fill, new_memory,
}
use open_blocklist.Log.Pool.Counts.{one_if, count, count-append}

-- With `held p` the places at which a pointer is held outside of the pool: each pointer stands once
-- at most in the pool and there, and only one that was allocated; the pool holds what its channel
-- can.
pub record IsOwned (m : Memory) (held : ℕ → ℕ) : Type 0 where
  pub once : (p : ℕ) → count p m.pool + held p ≤ 1
  pub allocated : (p : ℕ) → m.next ≤ p → count p m.pool + held p ≡ 0
  pub small : length m.pool ≤ 256

abbrev pub also : ℕ → (ℕ → ℕ) → ℕ → ℕ
also b held p = one_if (p == b) + held p

pub IsOwned-held :
    (m : Memory) (held held' : ℕ → ℕ)
    → ((p : ℕ) → held' p ≡ held p)
    → IsOwned m held
    → IsOwned m held'
IsOwned-held m held held' same o = record {
  once = λ p. omega (arith, same p, o.once p);
  allocated = λ p h. omega (arith, same p, o.allocated p h);
  small = o.small;
}

pub not_held : (m : Memory) (b : ℕ) (held : ℕ → ℕ) → IsOwned m (also b held) → held b ≡ 0
not_held m b held o = ground (arith, o.once b)

pub store-IsOwned :
    (b : ℕ) (bytes : Bytes) (m : Memory) (held : ℕ → ℕ)
    → IsOwned m held
    → IsOwned (store b bytes m) held
unfolding store
store-IsOwned b bytes m held o = record { once = o.once; allocated = o.allocated; small = o.small }

pub allocate-IsOwned :
    (bytes : Bytes) (m : Memory) (held : ℕ → ℕ)
    → IsOwned m held
    → IsOwned (allocate bytes m).1 (also m.next held)
unfolding allocate store
allocate-IsOwned bytes m held o = record {
  once = λ p. elim (Bool-cases (p == m.next)) [
    | inl same ↦ rw same (omega (arith, o.allocated p (omega (arith, (==_iff p m.next).0 same))))
    | inr other ↦ rw other (omega (arith, o.once p))
  ];
  allocated = λ p h. ground (arith, h, o.allocated p (omega (arith, h)));
  small = o.small;
}

get_from-IsOwned :
    (pool : List ℕ) (m : Memory) (held : ℕ → ℕ)
    → m.pool ≡ pool
    → IsOwned m held
    → IsOwned (get_from pool m).1 (also (get_from pool m).0 held)
unfolding get_from
get_from-IsOwned [] m held e o = allocate-IsOwned [] m held o
get_from-IsOwned (b ∷ rest) m held e o =
    store-IsOwned b [] (record m { pool = rest }) (also b held)
      record {
        once = λ p. omega (arith, o.once p, ap (count p) e);
        allocated = λ p h. omega (arith, o.allocated p h, ap (count p) e);
        small = omega (arith, o.small, ap length e);
      }

pub get-IsOwned :
    (m : Memory) (held : ℕ → ℕ) → IsOwned m held → IsOwned (get m).1 (also (get m).0 held)
unfolding get
get-IsOwned m held o = get_from-IsOwned m.pool m held refl o

pub put-IsOwned :
    (b : ℕ) (m : Memory) (held : ℕ → ℕ) → IsOwned m (also b held) → IsOwned (put b m) held
unfolding put store
put-IsOwned b m held o = elim (Bool-cases (ltb (length m.pool) 256)) [
  | inl room ↦ rw room record {
    once = λ p. omega (arith, count-append p m.pool (b ∷ []), o.once p);
    allocated = λ p h. omega (arith, count-append p m.pool (b ∷ []), o.allocated p h);
    small = ground (arith, room, length-append m.pool (b ∷ []));
  }
  | inr full ↦ rw full record {
    once = λ p. omega (arith, o.once p);
    allocated = λ p h. omega (arith, o.allocated p h);
    small = o.small;
  }
]

pub copy_out-IsOwned :
    (b : ℕ) (m : Memory) (held : ℕ → ℕ)
    → IsOwned m (also b held)
    → IsOwned (copy_out b m).1 (also (copy_out b m).0 held)
unfolding copy_out
copy_out-IsOwned b m held o = put-IsOwned b (allocate (m.cell b) m).1 (also m.next held) (
    IsOwned-held (allocate (m.cell b) m).1 (also m.next (also b held)) (also b (also m.next held))
      (λ p. omega arith) (allocate-IsOwned (m.cell b) m (also b held) o))

fill-IsOwned :
    (n : ℕ) (m : Memory)
    → length m.pool + n ≤ 256
    → IsOwned m (λ _. 0)
    → IsOwned (fill n m) (λ _. 0)
unfolding fill
fill-IsOwned zero m h o = o
fill-IsOwned (suc n) m h o =
    fill-IsOwned n _ (omega (arith, h, length-append m.pool (m.next ∷ []))) (
      let a = allocate-IsOwned [] m (λ _. 0) o in
      unfold allocate store in
      record {
        once = λ p. omega (arith, count-append p m.pool (m.next ∷ []), a.once p);
        allocated = λ p k. omega (arith, count-append p m.pool (m.next ∷ []), a.allocated p k);
        small = omega (arith, h, length-append m.pool (m.next ∷ []));
      })

pub new_memory-IsOwned : IsOwned new_memory (λ _. 0)
unfolding new_memory
new_memory-IsOwned =
    fill-IsOwned 64 (record { next = 0; cell = λ _. []; pool = [] }) (omega arith)
      record { once = λ p. omega arith; allocated = λ p h. refl; small = omega arith }
