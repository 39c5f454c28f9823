-- ===== src/Base/Tests.antt =====
-- Boolean tests on the native numbers, and the conditional.
use Prim.Native.Nat.{ℕ, zero, suc, ◌<◌, compare, Ordering}
use mathlib.Core.Path.{◌≡◌, refl, sym, subst}
use mathlib.Core.Logic.{◌⊎◌, inl, inr, ◌↔◌}
use mathlib.Core.Bool.{Bool, true, false}
use native.Mathlib.Omega.{arith}
use native.Mathlib.Decide.{ℕ_discrete}

abbrev pub ltb : ℕ → ℕ → Bool
ltb a b = elim (compare a b) [ Ordering.lt ↦ true | _ ↦ false ]

abbrev pub leb : ℕ → ℕ → Bool
leb a b = elim (compare a b) [ Ordering.gt ↦ false | _ ↦ true ]

infix 50 ◌==◌
abbrev pub ◌==◌ : ℕ → ℕ → Bool
a == b = elim (compare a b) [ Ordering.eq ↦ true | _ ↦ false ]

infix 1 if◌then◌else◌
abbrev pub if◌then◌else◌ {ℓ} : {A : Type ℓ} → Bool → A → A → A
if true then x else y = x
if false then x else y = y

-- Two Boolean tests are equal when each follows from the other.
pub Bool_ext : (a b : Bool) → ((a ≡ true) ↔ (b ≡ true)) → a ≡ b
Bool_ext true b h = ground (arith, h.0 refl)
Bool_ext false b h = ground (arith, h.1)

pub ltb_of_lt : {a b : ℕ} → a < b → ltb a b ≡ true
ltb_of_lt h = ground arith

pub ltb_of_not_lt : {a b : ℕ} → ¬ (a < b) → ltb a b ≡ false
ltb_of_not_lt h = ground arith

-- To split on a computed value and keep the equation.
pub Bool-cases : (b : Bool) → (b ≡ true) ⊎ (b ≡ false)
Bool-cases true = inl refl
Bool-cases false = inr refl

-- A statement about each number below `k`, as a tuple from `k - 1` down.
abbrev pub Each {ℓ} : ℕ → (ℕ → Type ℓ) → Type ℓ
Each zero P = Unit
Each (suc k) P = P k × Each k P

pub each_below {ℓ} : (k : ℕ) (P : ℕ → Type ℓ) → Each k P → (n : ℕ) → n < k → P n
each_below zero P all n h = elim h [ ]
each_below (suc k) P all n h = elim (ℕ_discrete n k) [
  | yes e ↦ subst P (sym e) all.0
  | no ne ↦ each_below k P all.1 n (omega arith)
]
