-- ===== src/Exec/Calm.antt =====
-- What an action leaves alone: a view of the state that is as before, however the action ends.
use xieyi.Prelude.{◌≡◌, refl, ◌∙◌, Bool, true, false, if◌then◌else◌}
use xieyi.Errors.{Exception, Result, ok, err}
use xieyi.Exec.{Exec, lift, ◌>>=◌, except, caught}

-- However the action ends, the view is as before.
pub record Calm {S V A : Type 0} (view : S → V) (m : Exec S A) : Type 0 where
  pub same : (w : S) → view (m w).1 ≡ view w

Calm-rest :
    {S V A B : Type 0} (view : S → V) (r : Result A) (f : A → Exec S B) (w : S)
    → ((a : A) → Calm view (f a))
    → view ((lift r >>= f) w).1 ≡ view w
Calm-rest view (ok a) f w k = (k a).same w
Calm-rest view (err e) f w k = refl

pub Calm-bind :
    {S V A B : Type 0} {view : S → V} {m : Exec S A} {f : A → Exec S B}
    → Calm view m
    → ((a : A) → Calm view (f a))
    → Calm view (m >>= f)
Calm-bind {view = view} {m = m} {f = f} h k = record {
  same = λ w. Calm-rest view (m w).0 f (m w).1 k ∙ h.same w;
}

pub Calm-lift : {S V A : Type 0} {view : S → V} (r : Result A) → Calm view (lift r)
Calm-lift r = record { same = λ w. refl }

pub if-Calm :
    {S V A : Type 0} {view : S → V} (b : Bool) {m n : Exec S A}
    → Calm view m
    → Calm view n
    → Calm view (if b then m else n)
if-Calm true c d = c
if-Calm false c d = d

caught_same :
    {S V A : Type 0} (view : S → V) (handler : Exception → Exec S A) (r : Result A) (w : S)
    → ((e : Exception) → Calm view (handler e))
    → view (caught handler r w).1 ≡ view w
caught_same view handler (ok a) w h = refl
caught_same view handler (err e) w h = (h e).same w

pub except-Calm :
    {S V A : Type 0} {view : S → V} {m : Exec S A} {handler : Exception → Exec S A}
    → Calm view m
    → ((e : Exception) → Calm view (handler e))
    → Calm view (except m handler)
except-Calm {view = view} {m = m} {handler = handler} c h = record {
  same = λ w. caught_same view handler (m w).0 (m w).1 h ∙ c.same w;
}
