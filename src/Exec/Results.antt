-- ===== src/Exec/Results.antt =====
-- What the result of a block tells of its first step.
use xieyi.Prelude.{◌≡◌, sym, ap, arith}
use xieyi.Errors.{Result, ok, err}
use xieyi.Exec.{Exec, pure, resume, ◌>>=◌}

abbrev value_or : {B : Type 0} → B → Result B → B
value_or b (ok a) = a
value_or b (err e) = b

module _ {S A B : Type 0} where
  resumed-ok :
      (f : A → B) (r : Result A × S) (b : B) (w' : S)
      → resume r.0 (λ a. pure (f a)) r.1 ≡ (ok b, w')
      → (a : A) × (r ≡ (ok a, w')) × (b ≡ f a)
  resumed-ok f (ok a, s) b w' e = (
    a,
    ap (λ (t : S). (ok a, t)) (ap (λ (p : Result B × S). p.1) e),
    sym (ap (λ (p : Result B × S). value_or b p.0) e),
  )
  resumed-ok f (err x, s) b w' e = absurd (ground (arith, e))

  -- A block that ends in a pure function of the result of its first step.
  pub map-ok :
      (m : Exec S A) (f : A → B) (w w' : S) (b : B)
      → (m >>= λ a. pure (f a)) w ≡ (ok b, w')
      → (a : A) × (m w ≡ (ok a, w')) × (b ≡ f a)
  map-ok m f w w' b e = resumed-ok f (m w) b w' e
