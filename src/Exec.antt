-- ===== src/Exec.antt =====
-- Functions that change a state and may `goto` an error label: `none` is the jump. What was changed
-- before the jump stays changed.
pub mod Keeps
use fine_db.Prelude.{Bool, true, false, Option, none, some, ◌≡◌, refl, if◌then◌else◌}

abbrev pub Exec : Type 0 → Type 0 → Type 0
Exec S A = S → Option A × S

module _ {S : Type 0} where
  pub pure : {A : Type 0} → A → Exec S A
  pure a s = (some a, s)

  pub jump : {A : Type 0} → Exec S A
  jump s = (none, s)

  -- A call of a function that returns.
  pub call : {A : Type 0} → (S → A × S) → Exec S A
  call m s = let r = m s in (some r.0, r.1)

  pub gets : {A : Type 0} → (S → A) → Exec S A
  gets f s = (some (f s), s)

  pub modify : (S → S) → Exec S (Unit {0})
  modify f s = (some tt, f s)

  pub continue : {A B : Type 0} → Option A → (A → Exec S B) → Exec S B
  continue none f s = (none, s)
  continue (some a) f s = f a s

  infixl 10 ◌>>=◌ ◌>>◌
  -- Opening this opens the other actions too.
  unfoldable pub ◌>>=◌ : {A B : Type 0} → Exec S A → (A → Exec S B) → Exec S B
  unfolding pure jump call gets modify continue
  ◌>>=◌ m f s = let r = m s in continue r.0 f r.1

  abbrev pub ◌>>◌ : {A B : Type 0} → Exec S A → Exec S B → Exec S B
  m >> k = m >>= λ _. k

  pub ended : {A : Type 0} → (S → A × S) → Option A → S → A × S
  ended handler none s = handler s
  ended handler (some a) s = (a, s)

  -- The label, behind the body: what is run when the body has jumped.
  unfoldable pub label : {A : Type 0} → Exec S A → (S → A × S) → S → A × S
  unfolding ended
  label m handler s = let r = m s in ended handler r.0 r.1
