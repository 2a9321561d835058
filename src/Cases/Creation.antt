-- ===== src/Cases/Creation.antt =====
-- What `create_case` leaves behind: the case and its event in one transaction, or nothing committed.
use xieyi.Prelude.{ℕ, suc, ◌≡◌, refl, sym, ap, subst, Bool, true, false, codes, ◌∙◌, if◌then◌else◌}
use xieyi.Types.{CaseStatus, case_created}
use xieyi.Errors.{Exception, integrity_error, Result, ok, err}
use xieyi.Json.{string, empty, member}
use xieyi.Models.{Case, AuditEvent}
use xieyi.Exec.{Exec, pure, raise, modify, ◌>>=◌, ◌>>◌}
use xieyi.Exec.Ensures.{
  Post, Ensures, Ensures-bind, calmly, moving, at_view, modify-Ensures, gets-Ensures, pure-Ensures,
  raise-Ensures, lift-Ensures, weaken,
}
use xieyi.World.{World, commit}
use xieyi.Repositories.CaseRepository.{conflicts, add_case}
use xieyi.Audit.Service.{Entry, add_event, append}
use xieyi.Cases.Number.{format_case_no}
use xieyi.Cases.Service.{
  CaseCreate, CaseService, next_sequence_value, create, new_case, audit, create_case,
}
use xieyi.Audit.Frame.{
  Db, db, Uncommitted, Appended, call-Calm, uuid4-Calm, now-Calm, query-Ensures, commit-Ensures,
  append-Ensures,
}

module _ (self : CaseService) (data' : CaseCreate) where
  open self use {env, platform, chain_enabled}

  abbrev pub created_entry : Case → Entry
  created_entry case =
      audit self case case_created "create" data'.created_by
        (member "case_no" (string (codes case.case_no)) empty)

  module _ (b : Db) where
    -- After a success: the next number is used, the case is as requested, and the tables have it and
    -- its event more.
    pub record Created (case : Case) (k : Db) : Type 0 where
      pub sequence : k.sequence ≡ suc b.sequence
      pub year : ℕ
      pub case_no : format_case_no (suc b.sequence) year ≡ ok case.case_no
      pub unique : conflicts case b.current.cases ≡ false
      pub name : case.name ≡ data'.name
      pub description : case.description ≡ data'.description
      pub created_by : case.created_by ≡ data'.created_by
      pub status : case.status ≡ CaseStatus.created
      pub event : AuditEvent
      pub appended :
          Appended env platform chain_enabled case.id
            (created_entry case)
            (add_case case b.current)
            event
      pub committed : k.committed ≡ add_event event (add_case case b.current)
      pub current : k.current ≡ add_event event (add_case case b.current)

    abbrev counted : Db
    counted = record b { sequence = suc b.sequence }

    next_sequence_value-Ensures :
        Ensures db b
          (next_sequence_value self)
          (λ n k. (n ≡ suc b.sequence) × (k ≡ counted))
          (Uncommitted b)
    unfolding next_sequence_value
    next_sequence_value-Ensures = calmly (call-Calm env) refl (λ _.
        moving {l' = counted}
          (modify-Ensures (λ k. record k { sequence = suc k.sequence }) (λ w. refl))
          (λ _. gets-Ensures (λ (k : Db). k.sequence) (λ w. refl)))

    abbrev with_case : Case → Db
    with_case case = record counted { current = add_case case b.current }

    abbrev IsInserted : Case → Case → Db → Type 0
    IsInserted row a k = (a ≡ row) × (conflicts row b.current.cases ≡ false) × (k ≡ with_case row)

    insert-Ensures :
        (row : Case) (taken : Bool)
        → taken ≡ conflicts row b.current.cases
        → Ensures db counted
            (if taken
              then raise integrity_error
              else modify (λ w. record w { current = add_case row w.current }))
            (λ _ k. (conflicts row b.current.cases ≡ false) × (k ≡ with_case row))
            (Uncommitted b)
    insert-Ensures row true e = raise-Ensures integrity_error refl
    insert-Ensures row false e =
        weaken
          (modify-Ensures {G = Uncommitted b} (λ k. record k { current = add_case row k.current })
            (λ w. refl))
          (λ _ k h. (sym e, h)) (λ k g. g)

    create-Ensures :
        (row : Case) → Ensures db counted (create self row) (IsInserted row) (Uncommitted b)
    unfolding create
    create-Ensures row =
        Ensures-bind (query-Ensures env counted (λ t. conflicts row t.cases) refl) (λ taken k q.
          at_view q.1 (
            Ensures-bind (insert-Ensures row taken q.0) (λ _ k' i. at_view i.1 (
              calmly (call-Calm env) refl (λ _.
                weaken (pure-Ensures {G = Uncommitted b} row) (λ a k'' p. (p.0, i.0, p.1))
                  (λ k'' g. g))))))

    -- The columns of a new case that the request gives.
    record IsRequested (case : Case) : Type 0 where
      pub name : case.name ≡ data'.name
      pub description : case.description ≡ data'.description
      pub created_by : case.created_by ≡ data'.created_by
      pub status : case.status ≡ CaseStatus.created

    record_case : Case → Exec World Case
    record_case row = do
      case ← create self row
      append platform env chain_enabled case.id (created_entry case)
      commit env
      pure case

    recorded :
        (row : Case) (year : ℕ)
        → format_case_no (suc b.sequence) year ≡ ok row.case_no
        → IsRequested row
        → Ensures db counted (record_case row) Created (Uncommitted b)
    unfolding record_case
    recorded row year n r = Ensures-bind (create-Ensures row) (λ case k i.
        subst
          (λ c.
            Ensures db k
              (do append platform env chain_enabled c.id (created_entry c); commit env; pure c)
              Created (Uncommitted b))
          (sym i.0)
          (at_view i.2 (
            Ensures-bind
              (append-Ensures env platform chain_enabled row.id (created_entry row) b
                (with_case row) refl)
              (λ event k1 a. at_view a.1 (
                moving
                  (commit-Ensures env
                    (record (with_case row) { current = add_event event (add_case row b.current) })
                    refl)
                  (λ _.
                    weaken (pure-Ensures {G = Uncommitted b} row)
                      (λ c k2 p.
                        subst (λ c. Created c k2) (sym p.0)
                          (subst (Created row) (sym p.1) (record {
                            sequence = refl;
                            year = year;
                            case_no = n;
                            unique = i.1;
                            name = r.name;
                            description = r.description;
                            created_by = r.created_by;
                            status = r.status;
                            event = event;
                            appended = a.0;
                            committed = refl;
                            current = refl;
                          })))
                      (λ k2 g. g)))))))

    pub create_case-Ensures : Ensures db b (create_case self data') Created (Uncommitted b)
    unfolding create_case record_case
    create_case-Ensures = Ensures-bind next_sequence_value-Ensures (λ n k q. at_view q.1 (
        calmly (now-Calm env) refl (λ today.
          Ensures-bind (lift-Ensures (format_case_no n (self.year today)) refl) (λ case_no k1 f.
            at_view f.1 (
              calmly (uuid4-Calm env) refl (λ id. calmly (now-Calm env) refl (λ created_at.
                calmly (now-Calm env) refl (λ updated_at.
                  recorded (new_case self id case_no data' created_at updated_at) (self.year today)
                    (ap (λ m. format_case_no m (self.year today)) (sym q.0) ∙ f.0)
                    (record {
                      name = refl;
                      description = refl;
                      created_by = refl;
                      status = refl;
                    })))))))))

  module _ (w w' : World) where
    abbrev Ended : Result Case × World → Type 0
    Ended r = Post (Created (db w)) (Uncommitted (db w)) r.0 (db r.1)

    -- If `create_case` returns a case, whatever the environment does, then the sequence has moved on
    -- by one and its new value is the number of the case; the case has the requested columns and the
    -- status CREATED and met the constraints; and the committed tables are the session's with the
    -- case and its creation event, built on the chain of the case, added.
    pub create_case-Created :
        (case : Case) → create_case self data' w ≡ (ok case, w') → Created (db w) case (db w')
    create_case-Created case e = subst Ended e ((create_case-Ensures (db w)).at w refl)

    pub create_case-Uncommitted :
        (x : Exception) → create_case self data' w ≡ (err x, w') → w'.committed ≡ w.committed
    create_case-Uncommitted x e = subst Ended e ((create_case-Ensures (db w)).at w refl)
