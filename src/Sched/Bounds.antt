-- ===== src/Sched/Bounds.antt =====
-- The lists behind `Sched.Pool`: order, range and length under an insertion and a removal.
use openrisc_tools.Prelude.{
  All, ℕ, suc, ◌+◌, ◌≡◌, List, [], ◌∷◌, ◌&&◌, Bool-cases, inl, inr, arith, length, ◌==◌, refl,
}
use openrisc_tools.Prelude.Int.{ℤ, pos, ◌+ℤ◌, ◌≤ℤ◌, ltb_ℤ, leb_ℤ, int_laws, ltb_ℤ→le}
use openrisc_tools.Sched.Defs.{
  Entry, advance, insert_after, insert, remove, freed, is_job, pass_time,
}
use openrisc_tools.Sched.Deadlines.{Due, schedule, cancel, IsOrdered}

abbrev NonNeg : Entry → Type 0
NonNeg e = pos 0 ≤ℤ e.time

insert_after-NonNeg :
    (f p : ℕ) (t before : ℤ) (es : List Entry)
    → before ≤ℤ t
    → All NonNeg es
    → All NonNeg (insert_after f p t (advance before es) es)
unfolding insert_after
insert_after-NonNeg f p t before [] h a = omega int_laws
insert_after-NonNeg f p t before (cur ∷ rest) h a =
    elim (Bool-cases (ltb_ℤ (before +ℤ cur.time) t)) [
      | inl later ↦
          rw later (a.0, insert_after-NonNeg f p t (before +ℤ cur.time) rest (ground arith) a.1)
      | inr here ↦
          let due = ltb_ℤ→le (before +ℤ cur.time) t here in
          rw here (omega int_laws, (omega int_laws, a.1))
    ]

pub insert-IsOrdered :
    (f p : ℕ) (t : ℤ) (cur : Entry) (rest : List Entry)
    → IsOrdered (cur ∷ rest)
    → IsOrdered (insert f p t cur rest)
unfolding insert
insert-IsOrdered f p t cur rest a = elim (Bool-cases (ltb_ℤ cur.time t)) [
  | inl later ↦ rw later (insert_after-NonNeg f p t cur.time rest (ground arith) a)
  | inr here ↦
      let due = ltb_ℤ→le cur.time t here in
      elim (Bool-cases (leb_ℤ (pos 0) t)) [
        | inl now ↦ rw (here, now) (omega int_laws, a)
        | inr past ↦ rw (here, past) (omega int_laws, a)
      ]
]

length-insert_after :
    (f p : ℕ) (t all : ℤ) (es : List Entry) → length (insert_after f p t all es) ≡ suc (length es)
unfolding insert_after
length-insert_after f p t all [] = refl
length-insert_after f p t all (cur ∷ rest) =
    ground (arith, length-insert_after f p t (advance all rest) rest)

pub length-insert :
    (f p : ℕ) (t : ℤ) (cur : Entry) (rest : List Entry)
    → length (insert f p t cur rest) ≡ suc (length (cur ∷ rest))
unfolding insert
length-insert f p t cur rest =
    ground (arith, length-insert_after f p t (advance cur.time rest) rest)

module _ {ℓ} (P : Due → Type ℓ) where
  pub All-schedule : (new : Due) (ds : List Due) → P new → All P ds → All P (schedule new ds)
  unfolding schedule
  All-schedule new [] h a = (h, tt)
  All-schedule new (d ∷ ds) h a = elim (Bool-cases (ltb_ℤ d.due new.due)) [
    | inl later ↦ rw later (a.0, All-schedule new ds h a.1)
    | inr here ↦ rw here (h, a)
  ]

  pub All-cancel : (f p : ℕ) (ds : List Due) → All P ds → All P (cancel f p ds)
  unfolding cancel
  All-cancel f p [] a = tt
  All-cancel f p (d ∷ ds) a = elim (Bool-cases (d.job == f && d.arg == p)) [
    | inl hit ↦ rw hit (a.1)
    | inr miss ↦ rw miss (a.0, All-cancel f p ds a.1)
  ]

pass_time-NonNeg :
    (cur : Entry) (rest : List Entry)
    → NonNeg cur
    → All NonNeg rest
    → All NonNeg (pass_time cur rest)
pass_time-NonNeg cur [] h a = tt
pass_time-NonNeg cur (next ∷ rest) h a = (omega int_laws, a.1)

remove-NonNeg : (f p : ℕ) (es : List Entry) → All NonNeg es → All NonNeg (remove f p es)
unfolding remove
remove-NonNeg f p [] a = tt
remove-NonNeg f p (cur ∷ rest) a = elim (Bool-cases (is_job f p cur)) [
  | inl hit ↦ rw hit (pass_time-NonNeg cur rest a.0 a.1)
  | inr miss ↦ rw miss (a.0, remove-NonNeg f p rest a.1)
]

pass_time-IsOrdered :
    (cur : Entry) (rest : List Entry) → All NonNeg rest → IsOrdered (pass_time cur rest)
pass_time-IsOrdered cur [] a = tt
pass_time-IsOrdered cur (next ∷ rest) a = a.1

pub remove-IsOrdered : (f p : ℕ) (es : List Entry) → IsOrdered es → IsOrdered (remove f p es)
unfolding remove
remove-IsOrdered f p [] a = tt
remove-IsOrdered f p (cur ∷ rest) a = elim (Bool-cases (is_job f p cur)) [
  | inl hit ↦ rw hit (pass_time-IsOrdered cur rest a)
  | inr miss ↦ rw miss (remove-NonNeg f p rest a)
]

length-pass_time : (cur : Entry) (rest : List Entry) → length (pass_time cur rest) ≡ length rest
length-pass_time cur [] = refl
length-pass_time cur (next ∷ rest) = refl

-- The structure that leaves the queue is the one that enters the free list.
pub length-freed :
    (f p : ℕ) (es free : List Entry)
    → length (freed f p es free) + length (remove f p es) ≡ length free + length es
unfolding remove freed
length-freed f p [] free = refl
length-freed f p (cur ∷ rest) free = elim (Bool-cases (is_job f p cur)) [
  | inl hit ↦ rw hit (omega (arith, length-pass_time cur rest))
  | inr miss ↦ rw miss (omega (arith, length-freed f p rest free))
]
