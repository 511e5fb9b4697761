-- ===== src/Sbuf/Ring.antt =====
-- The ring of the store buffer, or1ksim/cpu/or32/execute.c, stays in order.
use openrisc_tools.Prelude.{
  ℕ, zero, suc, ◌+◌, ◌-◌, ◌%◌, ◌≤◌, ◌<◌, ◌≡◌, refl, arith, ◌==◌, leb, if◌then◌else◌, Bool-cases,
  inl, inr,
}
use openrisc_tools.Prelude.Int.{ℤ, ◌+ℤ◌, ◌-ℤ◌, leb_ℤ}
use openrisc_tools.Prelude.Update.{update_self}
use openrisc_tools.Sbuf.Defs.{
  max_sbuf_len, Sbuf, take_out, take_committed, catch_up, wait_one, put_newest, sbuf_store,
  wait_all, sbuf_load,
}

-- `count` places from `tail` on lead to `head`, and there are at most `n` stores.
pub record IsRing (n : ℕ) (s : Sbuf) : Type 0 where
  pub first : s.tail < max_sbuf_len
  pub last : s.head ≡ (s.tail + s.count) % max_sbuf_len
  pub few : s.count ≤ n

take_out-IsRing : (n : ℕ) (s : Sbuf) → IsRing (suc n) s → 0 < s.count → IsRing n (take_out s)
take_out-IsRing n s r h = record {
  first = omega arith;
  last = omega (arith, r.last, r.first, h);
  few = omega (arith, r.few);
}

looser : (n k : ℕ) (s : Sbuf) → n ≤ k → IsRing n s → IsRing k s
looser n k s h r = record { first = r.first; last = r.last; few = omega (arith, h, r.few) }

take_committed-IsRing :
    (n left : ℕ) (delta : ℤ) (s : Sbuf)
    → s.count ≡ left
    → IsRing n s
    → IsRing n (take_committed left delta s).1
unfolding take_committed
take_committed-IsRing n zero delta s e r = r
take_committed-IsRing n (suc left) delta s e r = elim (Bool-cases (leb_ℤ (s.buf s.tail) delta)) [
  | inl done ↦
      let out = looser n (suc n) s (omega arith) r in
      rw (take_committed, done)
        (take_committed-IsRing n left (delta -ℤ s.buf s.tail) (take_out s) (omega (arith, e))
          (take_out-IsRing n s out (omega (arith, e))))
  | inr pending ↦ rw (take_committed, pending) r
]

catch_up-IsRing : (n : ℕ) (cycles : ℤ) (s : Sbuf) → IsRing n s → IsRing n (catch_up cycles s)
unfolding catch_up
catch_up-IsRing n cycles s r =
    let s1 = record s { prev_cycles = cycles } in
    let r1 : IsRing n s1 = record { first = r.first; last = r.last; few = r.few } in
    let taken = take_committed-IsRing n s.count (cycles -ℤ s.prev_cycles) s1 refl r1 in
    elim (Bool-cases ((take_committed s.count (cycles -ℤ s.prev_cycles) s1).1.count == 0)) [
      | inl empty ↦ rw empty taken
      | inr some_left ↦
          rw some_left record { first = taken.first; last = taken.last; few = taken.few }
    ]

wait_all-empty : (n left : ℕ) (s : Sbuf) → s.count ≡ left → IsRing n s → IsRing 0 (wait_all left s)
unfolding wait_all
wait_all-empty n zero s e r = record { first = r.first; last = r.last; few = omega (arith, e) }
wait_all-empty n (suc left) s e r =
    let out = looser n (suc n) s (omega arith) r in
    let next = take_out-IsRing n s out (omega (arith, e)) in
    wait_all-empty n left (wait_one s) (omega (arith, e))
      record { first = next.first; last = next.last; few = next.few }

put_newest-IsRing : (n : ℕ) (cyc : ℤ) (s : Sbuf) → IsRing n s → IsRing (suc n) (put_newest cyc s)
put_newest-IsRing n cyc s r = record {
  first = r.first;
  last = omega (arith, r.last);
  few = omega (arith, r.few);
}

put_newest-newest :
    (n : ℕ) (cyc : ℤ) (s : Sbuf)
    → IsRing n s
    → let out = put_newest cyc s in out.buf ((out.tail + out.count - 1) % max_sbuf_len) ≡ cyc
put_newest-newest n cyc s r =
    let place : (s.tail + (s.count + 1) - 1) % max_sbuf_len ≡ s.head = omega (arith, r.last) in
    rw place (update_self s.buf s.head cyc)

-- A full buffer waits for its oldest store.
abbrev make_room : ℕ → Sbuf → Sbuf
make_room n s = if leb n s.count then wait_one s else s

make_room-IsRing : (n : ℕ) (s : Sbuf) → IsRing (suc n) s → IsRing n (make_room (suc n) s)
make_room-IsRing n s r = elim (Bool-cases (leb (suc n) s.count)) [
  | inl full ↦
      let out = take_out-IsRing n s r (ground (arith, full)) in
      rw full record { first = out.first; last = out.last; few = out.few }
  | inr spare ↦ rw spare record { first = r.first; last = r.last; few = ground (arith, spare) }
]

-- Where the buffer has room for at least one store, and its ring is in order with at most so many:
-- a store keeps the ring in order, with at most so many, and is its newest entry; a load leaves it
-- in order and empty.
pub sbuf_store-IsRing :
    (room : ℕ) (cycles cyc : ℤ) (s : Sbuf)
    → IsRing (suc room) s
    → let out = sbuf_store (suc room) cycles cyc s in
      IsRing (suc room) out
      × (out.buf ((out.tail + out.count - 1) % max_sbuf_len) ≡ cyc)
      × IsRing 0 (sbuf_load cycles s)
unfolding sbuf_store sbuf_load
sbuf_store-IsRing room cycles cyc s r =
    let s1 = record s { total_cyc = s.total_cyc +ℤ cyc } in
    let r1 : IsRing (suc room) s1 = record { first = r.first; last = r.last; few = r.few } in
    let s2 = make_room (suc room) (catch_up cycles s1) in
    let r2 = make_room-IsRing room (catch_up cycles s1) (catch_up-IsRing (suc room) cycles s1 r1) in
    (
      put_newest-IsRing room cyc s2 r2,
      put_newest-newest room cyc s2 r2,
      wait_all-empty (suc room) (catch_up cycles s).count (catch_up cycles s) refl
          (catch_up-IsRing (suc room) cycles s r),
    )
