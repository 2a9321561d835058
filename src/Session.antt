-- ===== src/Session.antt =====
-- backend/app/db/session.py: the session of a request.
use xieyi.Prelude.{◌≡◌, sym, ap}
use xieyi.Errors.{Result, ok}
use xieyi.Exec.{Exec, finally}
use xieyi.World.{World}

-- A new session sees what is committed.
abbrev pub opened : World → World
opened w = record w { current = w.committed }

-- `session.close()` gives up what was not committed.
abbrev pub closed : World → World
closed w = record w { current = w.committed }

-- `get_session`: the dependants of the session run at the `yield`.
unfoldable pub get_session : {A : Type 0} → Exec World A → Exec World A
get_session m w = finally m closed (opened w)

-- What a request in a session returned, its session returned too.
pub get_session-ok :
    {A : Type 0} (m : Exec World A) (w w' : World) (a : A)
    → get_session m w ≡ (ok a, w')
    → (m (opened w) ≡ (ok a, (m (opened w)).1)) × (w'.committed ≡ (m (opened w)).1.committed)
unfolding get_session
get_session-ok {A} m w w' a e = (
  ap (λ (r : Result A × World). (r.0, (m (opened w)).1)) e,
  sym (ap (λ (r : Result A × World). r.1.committed) e),
)
