-- ===== src/Prelude/Update.antt =====
-- Arrays of registers as functions, with a write at one index.
use Prim.Native.Nat.{ℕ}
use mathlib.Core.Path.{◌≡◌, refl, subst}
use mathlib.Core.Logic.{◌≢◌, inl, inr}
use mathlib.Core.Bool.{Bool, true, false, ◌||◌}
use mathlib.Core.List.{List, [], ◌∷◌}
use native.Mathlib.Omega.{arith}
use openrisc_tools.Prelude.Tests.{◌==◌, Bool-cases, if◌then◌else◌}

abbrev pub update {ℓ} : {A : Type ℓ} → (ℕ → A) → ℕ → A → ℕ → A
update f k v j = if j == k then v else f j

pub update_self {ℓ} : {A : Type ℓ} (f : ℕ → A) (k : ℕ) (v : A) → update f k v k ≡ v
update_self f k v = ground arith

pub update_ne {ℓ} : {A : Type ℓ} (f : ℕ → A) (k j : ℕ) (v : A) → j ≢ k → update f k v j ≡ f j
update_ne f k j v h = ground arith

abbrev pub one_of : ℕ → List ℕ → Bool
one_of n [] = false
one_of n (k ∷ ks) = n == k || one_of n ks

-- The registers `after` are those `before`, but for the ones whose numbers are listed.
abbrev pub Frame {ℓ} : {A : Type ℓ} → List ℕ → (ℕ → A) → (ℕ → A) → Type ℓ
Frame ks before after = (n : ℕ) → (if one_of n ks then before n else after n) ≡ before n

-- A register that is not listed is as it was.
pub Frame-at {ℓ} :
    {A : Type ℓ} (ks : List ℕ) (before after : ℕ → A) (n : ℕ)
    → Frame ks before after
    → one_of n ks ≡ false
    → after n ≡ before n
Frame-at ks before after n f h = subst (λ b. (if b then before n else after n) ≡ before n) h (f n)

pub Frame-intro {ℓ} :
    {A : Type ℓ} (ks : List ℕ) (before after : ℕ → A)
    → ((n : ℕ) → one_of n ks ≡ false → after n ≡ before n)
    → Frame ks before after
Frame-intro ks before after h n = elim (Bool-cases (one_of n ks)) [
  | inl listed ↦ rw listed
  | inr free ↦ rw free (h n free)
]

-- A write to a listed register keeps the others.
pub Frame-update {ℓ} :
    {A : Type ℓ} (ks : List ℕ) (before after : ℕ → A) (k : ℕ) (v : A)
    → one_of k ks ≡ true
    → Frame ks before after
    → Frame ks before (update after k v)
Frame-update ks before after k v h f n = elim (Bool-cases (n == k)) [
  | inl here ↦
      let same : n ≡ k = ground (arith, here) in
      let listed : one_of n ks ≡ true = rw same h in rw listed refl
  | inr away ↦ rw away (f n)
]
