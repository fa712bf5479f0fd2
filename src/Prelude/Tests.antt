-- ===== src/Prelude/Tests.antt =====
-- Boolean tests on the native numbers, and the conditional.
use Prim.Native.Nat.{◌+◌, ℕ, zero, suc, ◌≤◌, ◌<◌, compare, Ordering}
use mathlib.Core.Path.{◌≡◌, refl}
use mathlib.Core.Logic.{◌↔◌, ◌⊎◌, inl, inr}
use mathlib.Core.Bool.{Bool, true, false}
use mathlib.Core.Option.{Option, none, some}
use native.Mathlib.Omega.{arith}

abbrev pub ltb : ℕ → ℕ → Bool
ltb a b = elim (compare a b) [ Ordering.lt ↦ true | _ ↦ false ]

abbrev pub leb : ℕ → ℕ → Bool
leb a b = elim (compare a b) [ Ordering.gt ↦ false | _ ↦ true ]

infix 50 ◌==◌
abbrev pub ◌==◌ : ℕ → ℕ → Bool
a == b = elim (compare a b) [ Ordering.eq ↦ true | _ ↦ false ]

infix 1 if◌then◌else◌
abbrev pub if◌then◌else◌ {ℓ} : {A : Type ℓ} → Bool → A → A → A
if true then x else y = x
if false then x else y = y

pub ==_iff : (a b : ℕ) → ((a == b) ≡ true) ↔ (a ≡ b)
==_iff a b = ground arith

abbrev pub update {ℓ} : {A : Type ℓ} → ℕ → A → (ℕ → A) → ℕ → A
update i a f j = if i == j then a else f j

pub update_self {ℓ} : {A : Type ℓ} (i : ℕ) (a : A) (f : ℕ → A) → update i a f i ≡ a
update_self i a f = rw ((==_iff i i).1 refl) refl

-- Two functions that a predicate holds of at each number, changed at one.
pub update_both {ℓ m} :
    {A B : Type ℓ} (P : A → B → Type m) (i : ℕ) (a : A) (b : B) (f : ℕ → A) (g : ℕ → B)
    → P a b
    → ((j : ℕ) → P (f j) (g j))
    → (j : ℕ) → P (update i a f j) (update i b g j)
update_both P i a b f g new old j =
    elim (i == j) as (λ t. P (if t then a else f j) (if t then b else g j)) [
      | true ↦ new
      | false ↦ old j
    ]

pub leb→le : (a b : ℕ) → leb a b ≡ true → a ≤ b
leb→le a b h = ground arith

pub le→leb : (a b : ℕ) → a ≤ b → leb a b ≡ true
le→leb a b h = ground arith

pub lt→leb : (a b : ℕ) → b < a → leb a b ≡ false
lt→leb a b h = ground arith

-- To split on a computed value and keep the equation.
pub Bool-cases : (b : Bool) → (b ≡ true) ⊎ (b ≡ false)
Bool-cases true = inl refl
Bool-cases false = inr refl

pub Option-cases {ℓ} : {A : Type ℓ} (o : Option A) → (o ≡ none) ⊎ ((a : A) × (o ≡ some a))
Option-cases none = inl refl
Option-cases (some a) = inr (a, refl)

-- A test passes for the numbers from `from` on, `count` of them: decided by running it.
unfoldable pub passes : (ℕ → Bool) → (from count : ℕ) → Bool
passes test from zero = true
passes test from (suc count) =
    let later = passes test (suc from) count in if test from then later else false

pub passes_each :
    (test : ℕ → Bool) (from count c : ℕ)
    → from ≤ c
    → c < from + count
    → passes test from count ≡ true
    → test c ≡ true
unfolding passes
passes_each test from zero c low high run = absurd (omega arith)
passes_each test from (suc count) c low high run = elim (Bool-cases (c == from)) [
  | inl here ↦ ground (arith, ==_iff c from)
  | inr later ↦ passes_each test (suc from) count c (ground arith) (omega arith) (ground arith)
]
