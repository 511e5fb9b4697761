-- ===== src/Sched/Range.antt =====
-- The stored times of or1ksim/support/sched.c as values of an `int32_t`.
use openrisc_tools.Prelude.{All, ℕ, ◌-◌, ◌^◌, List, [], ◌∷◌, Bool-cases, inl, inr, if◌then◌else◌}
use openrisc_tools.Prelude.Int.{
  ℤ, pos, negsuc, ◌+ℤ◌, ◌-ℤ◌, ◌≤ℤ◌, ltb_ℤ, leb_ℤ, int_laws, ltb_ℤ→le, ltb_ℤ→lt, leb_ℤ→le,
}
use openrisc_tools.Sched.Defs.{Entry, advance, insert_after, insert, sched_time_max}
use openrisc_tools.Sched.Deadlines.{IsOrdered}

abbrev pub IsInt32 : ℤ → Type 0
IsInt32 x = (negsuc (2 ^ 31 - 1) ≤ℤ x) × (x ≤ℤ sched_time_max)

-- The time of the entry fits in its field.
abbrev pub Stored : Entry → Type 0
Stored e = IsInt32 e.time

-- How far the first job is overdue, as a number up to 0.
unfoldable pub overdue : List Entry → ℤ
overdue [] = pos 0
overdue (cur ∷ rest) = if ltb_ℤ cur.time (pos 0) then cur.time else pos 0

insert_after-Stored :
    (f p : ℕ) (t before : ℤ) (es : List Entry)
    → before ≤ℤ t
    → t -ℤ before ≤ℤ sched_time_max
    → All (λ e. pos 0 ≤ℤ e.time) es
    → All Stored es
    → All Stored (insert_after f p t (advance before es) es)
unfolding insert_after
insert_after-Stored f p t before [] h k a b = ((omega int_laws, omega int_laws), tt)
insert_after-Stored f p t before (cur ∷ rest) h k a b =
    elim (Bool-cases (ltb_ℤ (before +ℤ cur.time) t)) [
      | inl later ↦
          let due = ltb_ℤ→lt (before +ℤ cur.time) t later in
          let first = a.0 in
          rw later (
            b.0,
            insert_after-Stored f p t (before +ℤ cur.time) rest (omega int_laws) (omega int_laws)
                a.1 b.1,
          )
      | inr here ↦
          let due = ltb_ℤ→le (before +ℤ cur.time) t here in
          let first = a.0 in
          let (low, high) = b.0 in
          rw here ((omega int_laws, omega int_laws), ((omega int_laws, omega int_laws), b.1))
    ]

pub insert-Stored :
    (f p : ℕ) (t : ℤ) (cur : Entry) (rest : List Entry)
    → t ≤ℤ sched_time_max
    → t -ℤ overdue (cur ∷ rest) ≤ℤ sched_time_max
    → IsOrdered (cur ∷ rest)
    → All Stored (cur ∷ rest)
    → All Stored (insert f p t cur rest)
unfolding insert overdue
insert-Stored f p t cur rest h k a b = elim (Bool-cases (ltb_ℤ cur.time t)) [
  | inl later ↦
      let due = ltb_ℤ→lt cur.time t later in
      rw later (b.0, insert_after-Stored f p t cur.time rest (omega int_laws) behind a b.1)
  | inr here ↦
      let due = ltb_ℤ→le cur.time t here in
      let (low, high) = b.0 in
      elim (Bool-cases (leb_ℤ (pos 0) t)) [
        | inl now ↦
            let sign = leb_ℤ→le (pos 0) t now in
            rw (here, now)
              ((omega int_laws, omega int_laws), ((omega int_laws, omega int_laws), b.1))
        | inr past ↦ rw (here, past) (b.0, ((omega int_laws, omega int_laws), b.1))
      ]
]
  where
    behind : t -ℤ cur.time ≤ℤ sched_time_max
    behind = elim (Bool-cases (ltb_ℤ cur.time (pos 0))) [
      | inl late ↦ rw late at k
      | inr fine ↦ let sign = ltb_ℤ→le cur.time (pos 0) fine in omega int_laws
    ]
