-- ===== src/InFlightQueue.antt =====
-- nsqd/in_flight_pqueue.go: the messages in flight, ordered by the time at which they time out.
-- A queue is a slice of pointers to messages. A pointer is a number; the field `pri` of the
-- messages is a parameter, since no operation here writes it, and the field `index`, which all of
-- them write, is a map from pointers, with `none` for -1. `none` as a result is a panic.
pub mod Array
pub mod Swap
pub mod Up
pub mod Down
pub mod Push
pub mod Cut
pub mod Remove
pub mod Peek
mod Tests
use nsq.Base.{
  ℕ, zero, suc, ◌+◌, ◌-◌, ◌*◌, ◌/◌, Bool, true, false, ◌&&◌, Option, none, some, List, [], ◌∷◌,
  ◌++◌, length, get_elem?, set, take, ltb, leb, ◌==◌, if◌then◌else◌,
}

infixl 5 ◌>>=◌
abbrev pub ◌>>=◌ {ℓ κ} : {A : Type ℓ} {B : Type κ} → Option A → (A → Option B) → Option B
none >>= f = none
some a >>= f = f a

abbrev pub update : (ℕ → Option ℕ) → ℕ → Option ℕ → ℕ → Option ℕ
update f p v q = if p == q then v else f q

pub record Pqueue : Type 0 where
  pub items : List ℕ
  pub cap : ℕ
  pub index : ℕ → Option ℕ

abbrev pub parent : ℕ → ℕ
parent j = (j - 1) / 2

-- Swap: both reads, both writes, and the two indices.
unfoldable pub swap : ℕ → ℕ → Pqueue → Option Pqueue
swap i j s = do
  x ← get_elem? s.items i
  y ← get_elem? s.items j
  some (record s {
    items = set (set s.items i y) j x;
    index = update (update s.index y (some i)) x (some j);
  })

-- The last message leaves the slice, with its index cleared.
unfoldable pub drop_last : ℕ → Pqueue → Option (ℕ × Pqueue)
drop_last n s = do
  x ← get_elem? s.items (n - 1)
  some (x, record s { items = take (n - 1) s.items; index = update s.index x none })

module _ (pri : ℕ → ℕ) where
  unfoldable pub pri_at : ℕ → Pqueue → Option ℕ
  pri_at i s = get_elem? s.items i >>= λ p. some (pri p)

  -- The loop of `up`, on fuel.
  unfoldable pub up_loop : ℕ → ℕ → Pqueue → Option Pqueue
  up_loop zero j s = none
  up_loop (suc fuel) j s =
      let i = parent j in
      let rise : Option Pqueue = swap i j s >>= up_loop fuel i in
      let test : Option Pqueue = do
        pj ← pri_at j s
        pi ← pri_at i s
        if leb pi pj then some s else rise
      in if i == j then some s else test

  unfoldable pub up : ℕ → Pqueue → Option Pqueue
  up j s = up_loop (j + 1) j s

  -- The child that `down` compares with: the right one if there is one and it is no larger.
  unfoldable pub smaller_child : ℕ → ℕ → Pqueue → Option ℕ
  smaller_child j1 n s =
      let compare_children : Option ℕ = do
        p1 ← pri_at j1 s
        p2 ← pri_at (j1 + 1) s
        some (if leb p2 p1 then j1 + 1 else j1)
      in if ltb (j1 + 1) n then compare_children else some j1

  -- The loop of `down`, on fuel. `j1 < 0`, after an overflow, does not arise for an index in memory.
  unfoldable pub down_loop : ℕ → ℕ → ℕ → Pqueue → Option Pqueue
  down_loop zero i n s = none
  down_loop (suc fuel) i n s =
      let step : Option Pqueue = do
        j ← smaller_child (2 * i + 1) n s
        pj ← pri_at j s
        pi ← pri_at i s
        let sink : Option Pqueue = swap i j s >>= down_loop fuel j n
        if leb pi pj then some s else sink
      in if leb n (2 * i + 1) then some s else step

  unfoldable pub down : ℕ → ℕ → Pqueue → Option Pqueue
  down i n s = down_loop (n + 1) i n s

  -- A full slice is copied into one of twice the capacity; reslicing past that would panic.
  unfoldable pub push : ℕ → Pqueue → Option Pqueue
  push x s =
      let n = length s.items in
      let cap = if ltb s.cap (n + 1) then s.cap * 2 else s.cap in
      let placed =
        up n
          (record { items = s.items ++ (x ∷ []); cap = cap; index = update s.index x (some n) }) in
      if ltb cap (n + 1) then none else placed

  unfoldable pub pop : Pqueue → Option (ℕ × Pqueue)
  pop s =
      let n = length s.items in
      let work : Option (ℕ × Pqueue) = do
        s1 ← swap 0 (n - 1) s
        s2 ← down 0 (n - 1) s1
        drop_last n
            (record s2 { cap = if ltb n (s.cap / 2) && ltb 25 s.cap then s.cap / 2 else s.cap })
      in if n == 0 then none else work

  unfoldable pub remove : ℕ → Pqueue → Option (ℕ × Pqueue)
  remove i s =
      let n = length s.items in
      let moved : Option Pqueue = do s1 ← swap i (n - 1) s; s2 ← down i (n - 1) s1; up i s2
      in let work = (if n - 1 == i then some s else moved) >>= drop_last n in
        if n == 0 then none else work

  -- The message that is due, if there is one, and else the time that is left.
  unfoldable pub peek_and_shift : ℕ → Pqueue → Option (Option ℕ × ℕ × Pqueue)
  peek_and_shift max s =
      let head : Option (Option ℕ × ℕ × Pqueue) = do
        x ← get_elem? s.items 0
        let shifted : Option (Option ℕ × ℕ × Pqueue) = pop s >>= λ r. some (some x, 0, r.1)
        if ltb max (pri x) then some (none, pri x - max, s) else shifted
      in if length s.items == 0 then some (none, 0, s) else head
