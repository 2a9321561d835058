-- ===== src/Audit/Frame.antt =====
-- The database as a call leaves it, and what the calls of the services do to it.
use xieyi.Prelude.{ℕ, ◌≡◌, refl, sym, ap, subst, ◌∙◌, Bool, true, false, arith}
use xieyi.Errors.{Result, ok, err}
use xieyi.Models.{Uuid, AuditEvent, Tables}
use xieyi.Exec.Calm.{Calm}
use xieyi.Exec.Ensures.{Post, Ensures, modify-Ensures, gets-Ensures, calmly}
use xieyi.World.{Environment, World, call, uuid4, now, query, flush, commit}
use xieyi.Audit.Hashing.{Platform}
use xieyi.Audit.Service.{Entry, add_event, build_event, append}
use xieyi.Audit.Extension.{previous_of}
use xieyi.Audit.Growth.{append-ok, append-clock}

pub record Db : Type 0 where
  pub committed : Tables
  pub current : Tables
  pub sequence : ℕ

abbrev pub db : World → Db
db w = record { committed = w.committed; current = w.current; sequence = w.sequence }

-- What is behind a raise before the commit: nothing is committed.
abbrev pub Uncommitted : Db → Db → Type 0
Uncommitted b k = k.committed ≡ b.committed

-- The event that `append` has added to the tables, with a time that the clock has shown.
pub record Appended (env : Environment) (platform : Platform) (chain_enabled : Bool)
    (case_id : Uuid) (entry : Entry) (before : Tables) (event : AuditEvent) : Type 0 where
  pub event_eq :
      event
      ≡ build_event platform event.id event.created_at
          (previous_of platform chain_enabled case_id before)
          case_id
          entry
  pub clock : (n : ℕ) × (event.created_at ≡ env.clock n)

module _ (env : Environment) where
  pub call-Calm : Calm db (call env)
  call-Calm = record { same = λ w. refl }

  pub uuid4-Calm : Calm db (uuid4 env)
  uuid4-Calm = record { same = λ w. refl }

  pub now-Calm : Calm db (now env)
  now-Calm = record { same = λ w. refl }

  pub query-Calm : {A : Type 0} (f : Tables → A) → Calm db (query env f)
  query-Calm f = record { same = λ w. ground arith }

  pub query-Ensures :
      {A : Type 0} {G : Db → Type 0} (l : Db) (f : Tables → A)
      → G l
      → Ensures db l (query env f) (λ a k. (a ≡ f l.current) × (k ≡ l)) G
  query-Ensures l f g = calmly call-Calm g (λ _. gets-Ensures (λ (k : Db). f k.current) (λ w. refl))

  pub commit-Ensures :
      {G : Db → Type 0} (l : Db)
      → G l
      → Ensures db l (commit env) (λ _ k. k ≡ record l { committed = l.current }) G
  commit-Ensures l g =
      calmly call-Calm g (λ _. modify-Ensures (λ k. record k { committed = k.current }) (λ w. refl))

  pub flush-Ensures :
      {G : Db → Type 0} (l : Db) (f : Tables → Tables)
      → G l
      → Ensures db l (flush env f) (λ _ k. k ≡ record l { current = f l.current }) G
  flush-Ensures l f g =
      calmly call-Calm g (λ _. modify-Ensures (λ k. record k { current = f k.current }) (λ w. refl))

  module _ (platform : Platform) (chain_enabled : Bool) (case_id : Uuid) (entry : Entry) where
    append-Calm :
        Calm {V = Tables × ℕ}
          (λ w. (w.committed, w.sequence))
          (append platform env chain_enabled case_id entry)
    append-Calm = record { same = λ w. go chain_enabled w }
      where
        go :
            (c : Bool) (w : World)
            → ◌≡◌ {A = Tables × ℕ}
                (
                  (append platform env c case_id entry w).1.committed,
                  (append platform env c case_id entry w).1.sequence,
                )
                (w.committed, w.sequence)
        go true w = unfold append in ground arith
        go false w = unfold append in ground arith

    abbrev IsAppended : Db → AuditEvent → Db → Type 0
    IsAppended l event k =
        Appended env platform chain_enabled case_id entry l.current event
        × (k ≡ record l { current = add_event event l.current })

    appended :
        (b : Db) (w : World)
        → Uncommitted b (db w)
        → (r : Result AuditEvent × World) → append platform env chain_enabled case_id entry w ≡ r
        → Post (IsAppended (db w)) (Uncommitted b) r.0 (db r.1)
    appended b w g (err x, w') h =
        ap (λ (r : Result AuditEvent × World). r.1.committed) (sym h)
        ∙ ap (λ (p : Tables × ℕ). p.0) (append-Calm.same w)
        ∙ g
    appended b w g (ok event, w') h =
        let a = append-ok platform env chain_enabled case_id entry w w' event h in
        let s : w'.sequence ≡ w.sequence =
          ap (λ (r : Result AuditEvent × World). r.1.sequence) (sym h)
          ∙ ap (λ (p : Tables × ℕ). p.1) (append-Calm.same w) in
        (
          record {
            event_eq = a.2;
            clock = append-clock platform env chain_enabled case_id entry w w' event h;
          },
          cc,
        )

    -- `append` has added its event to the tables of the session, or raised and committed nothing.
    pub append-Ensures :
        (b l : Db)
        → Uncommitted b l
        → Ensures db l
            (append platform env chain_enabled case_id entry)
            (IsAppended l)
            (Uncommitted b)
    append-Ensures b l g = record {
      at = λ w e.
          let r = append platform env chain_enabled case_id entry w in
          subst (λ x. Post (IsAppended x) (Uncommitted b) r.0 (db r.1)) e
            (appended b w (subst (Uncommitted b) (sym e) g) r refl);
    }
