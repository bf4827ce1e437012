-- ===== src/Effects.antt =====
-- Stateful code that may throw: the state that a call leaves stands also beside an exception.
use cs564_project.Exceptions.{Exception, Result, ok, err}

abbrev pub M : Type 0 → Type 0 → Type 0
M S A = S → Result A × S

module _ {S : Type 0} where
  abbrev pub bind_result : {A B : Type 0} → Result A × S → (A → M S B) → Result B × S
  bind_result (ok a, s) f = f a s
  bind_result (err e, s) f = (err e, s)

  infixl 5 ◌>>=◌ ◌>>◌
  abbrev pub ◌>>=◌ : {A B : Type 0} → M S A → (A → M S B) → M S B
  ◌>>=◌ m f s = bind_result (m s) f

  abbrev pub ◌>>◌ : {B : Type 0} → M S (Unit {0}) → M S B → M S B
  m >> k = m >>= λ _. k

  abbrev pub return : {A : Type 0} → A → M S A
  return a s = (ok a, s)

  abbrev pub throw : {A : Type 0} → Exception → M S A
  throw e s = (err e, s)

  abbrev pub modify : (S → S) → M S (Unit {0})
  modify f s = (ok tt, f s)

  -- `Q` holds of the value and the state after a normal return, `E` after an exception.
  abbrev pub Outcome :
      {A : Type 0} → (A → S → Type 0) → (Exception → S → Type 0) → Result A × S → Type 0
  Outcome Q E (ok a, s) = Q a s
  Outcome Q E (err e, s) = E e s

  pub bind-Outcome :
      {A B : Type 0} (Q : A → S → Type 0) (R : B → S → Type 0) (E : Exception → S → Type 0)
      (r : Result A × S) (f : A → M S B)
      → Outcome Q E r
      → ((a : A) (s : S) → Q a s → Outcome R E (f a s))
      → Outcome R E (bind_result r f)
  bind-Outcome Q R E (ok a, s) f h k = k a s h
  bind-Outcome Q R E (err e, s) f h k = h

  pub weaken-Outcome :
      {A : Type 0} (Q R : A → S → Type 0) (E F : Exception → S → Type 0) (r : Result A × S)
      → Outcome Q E r
      → ((a : A) (s : S) → Q a s → R a s)
      → ((e : Exception) (s : S) → E e s → F e s)
      → Outcome R F r
  weaken-Outcome Q R E F (ok a, s) h q x = q a s h
  weaken-Outcome Q R E F (err e, s) h q x = x e s h
