-- ===== src/Exec.antt =====
-- Methods that change a shared state and may raise: what was written before a raise stays written.
pub mod Calm
pub mod Ensures
pub mod Results
use xieyi.Errors.{Exception, Result, ok, err}

abbrev pub Exec : Type 0 → Type 0 → Type 0
Exec S A = S → Result A × S

module _ {S A : Type 0} where
  abbrev pub pure : A → Exec S A
  pure a s = (ok a, s)

  abbrev pub raise : Exception → Exec S A
  raise e s = (err e, s)

  abbrev pub lift : Result A → Exec S A
  lift r s = (r, s)

  abbrev pub gets : (S → A) → Exec S A
  gets f s = (ok (f s), s)

module _ {S A B : Type 0} where
  -- The rest of a block, after a step that ended with a result and a state.
  abbrev pub resume : Result A → (A → Exec S B) → Exec S B
  resume (ok a) f s = f a s
  resume (err e) f s = (err e, s)

  infixl 10 ◌>>=◌ ◌>>◌
  abbrev pub ◌>>=◌ : Exec S A → (A → Exec S B) → Exec S B
  ◌>>=◌ m f s = let (r, s') = m s in resume r f s'

  abbrev pub ◌>>◌ : Exec S A → Exec S B → Exec S B
  m >> n = m >>= λ _. n

abbrev pub modify : {S : Type 0} → (S → S) → Exec S (Unit {0})
modify f s = (ok tt, f s)

module _ {S A : Type 0} where
  abbrev pub caught : (Exception → Exec S A) → Result A → Exec S A
  caught handler (ok a) w = (ok a, w)
  caught handler (err e) w = handler e w

  -- `try: m except Exception as exc: handler(exc)`
  abbrev pub except : Exec S A → (Exception → Exec S A) → Exec S A
  except m handler w = let (r, w') = m w in caught handler r w'

  -- `try: m finally: cleanup`
  abbrev pub finally : Exec S A → (S → S) → Exec S A
  finally m cleanup w = let (r, w') = m w in (r, cleanup w')
