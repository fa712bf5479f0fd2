-- ===== src/Exec/Keeps.antt =====
-- A reflexive and transitive relation between the states before and after, through each way to build
-- an action.
use fine_db.Prelude.{Bool, true, false, Option, none, some, if◌then◌else◌}
use fine_db.Exec.{Exec, pure, jump, call, gets, modify, ◌>>=◌, label, continue, ended}

pub record IsPreorder {S : Type 0} (R : S → S → Type 0) : Type 0 where
  pub refl_at : (s : S) → R s s
  pub trans_at : (s t u : S) → R s t → R t u → R s u

-- The action, or the function, leads from each state to one that is related to it.
pub record Keeps {S A : Type 0} (R : S → S → Type 0) (m : S → A × S) : Type 0 where
  pub at : (s : S) → R s (m s).1

module _ {S : Type 0} {R : S → S → Type 0} (order : IsPreorder R) where
  pub Keeps-pure : {A : Type 0} (a : A) → Keeps R (pure {S = S} a)
  unfolding ◌>>=◌
  Keeps-pure a = record { at = order.refl_at }

  pub Keeps-jump : {A : Type 0} → Keeps R (jump {S = S} {A = A})
  unfolding ◌>>=◌
  Keeps-jump = record { at = order.refl_at }

  pub Keeps-gets : {A : Type 0} (f : S → A) → Keeps R (gets f)
  unfolding ◌>>=◌
  Keeps-gets f = record { at = order.refl_at }

  pub Keeps-bind :
      {A B : Type 0} (m : Exec S A) (f : A → Exec S B)
      → Keeps R m
      → ((a : A) → Keeps R (f a))
      → Keeps R (m >>= f)
  unfolding ◌>>=◌
  Keeps-bind {A} {B} m f km kf = record { at = λ s. go s (m s).0 (m s).1 (km.at s) }
    where
      go : (s : S) (a : Option A) (t : S) → R s t → R s (continue a f t).1
      go s none t h = h
      go s (some a) t h = order.trans_at s t (f a t).1 h ((kf a).at t)

  pub Keeps-label :
      {A : Type 0} (m : Exec S A) (handler : S → A × S)
      → Keeps R m
      → Keeps R handler
      → Keeps R (label m handler)
  unfolding label
  Keeps-label {A} m handler km kh = record { at = λ s. go s (m s).0 (m s).1 (km.at s) }
    where
      go : (s : S) (a : Option A) (t : S) → R s t → R s (ended handler a t).1
      go s none t h = order.trans_at s t (handler t).1 h (kh.at t)
      go s (some a) t h = h

module _ {S : Type 0} {R : S → S → Type 0} where
  pub Keeps-call : {A : Type 0} (m : S → A × S) → Keeps R m → Keeps R (call m)
  unfolding ◌>>=◌
  Keeps-call m k = record { at = k.at }

  pub Keeps-modify : (f : S → S) → ((s : S) → R s (f s)) → Keeps R (modify f)
  unfolding ◌>>=◌
  Keeps-modify f k = record { at = k }

  pub Keeps-if :
      {A : Type 0} (b : Bool) (m n : S → A × S)
      → Keeps R m
      → Keeps R n
      → Keeps R (if b then m else n)
  Keeps-if true m n km kn = km
  Keeps-if false m n km kn = kn

pub ruleset keeps_rules = (
  Keeps-pure, Keeps-jump, Keeps-gets, Keeps-bind, Keeps-label, Keeps-call, Keeps-modify, Keeps-if,
)
