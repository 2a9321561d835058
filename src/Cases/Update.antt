-- ===== src/Cases/Update.antt =====
-- What `update_case` leaves behind.
use xieyi.Prelude.{
  ℕ, ◌≡◌, refl, sym, subst, ◌∙◌, ◌⊎◌, inl, inr, Bool, true, false, Option, none, some, arith,
  if◌then◌else◌,
}
use xieyi.Types.{case_updated}
use xieyi.Errors.{Exception, integrity_error, Result, ok, err}
use xieyi.Json.{array, empty, member}
use xieyi.Models.{Uuid, Case, AuditEvent, Tables}
use xieyi.Exec.{pure, ◌>>=◌, ◌>>◌}
use xieyi.Exec.Ensures.{
  Post, Ensures, Ensures-bind, calmly, moving, at_view, pure-Ensures, raise-Ensures, weaken,
}
use xieyi.World.{World, now, flush, call}
use xieyi.Repositories.CaseRepository
use xieyi.Repositories.CaseRepository.{replace_case}
use xieyi.Audit.Service.{Entry, add_event}
use xieyi.Cases.Service.{
  CaseUpdate, CaseService, changed, changed_fields, string_items, is_same, or_not_found, audit,
  get_case, flush_case, update_case,
}
use xieyi.Audit.Frame.{
  Db, db, Uncommitted, Appended, call-Calm, now-Calm, query-Ensures, flush-Ensures, commit-Ensures,
  append-Ensures,
}
use xieyi.Cases.Applied.{IsRow, IsApplied, changed-IsApplied, same-IsApplied, row-IsApplied}

module _ (self : CaseService) (case_id : Uuid) (changes : CaseUpdate) where
  open self use {env, platform, chain_enabled}

  abbrev pub updated_entry : Case → Entry
  updated_entry case =
      audit self case case_updated "update" none
        (member "changed_fields" (array (string_items (changed_fields changes))) empty)

  module _ (b : Db) where
    -- How the flush ends: nothing differs and nothing is written, or the row is replaced.
    pub record Flushed (old new case : Case) (t : Tables) : Type 0 where
      pub written :
          ((is_same old new ≡ true) × (case ≡ old) × (t ≡ b.current))
          ⊎ ((is_same old new ≡ false) × IsRow case new × (t ≡ replace_case case b.current))

    Flushed-IsApplied :
        (old new case : Case) (t : Tables)
        → Flushed old new case t
        → changed old changes ≡ some new
        → IsApplied changes old case
    Flushed-IsApplied old new case t f c =
        let new_row = changed-IsApplied changes old new c in
        elim f.written [
          | inl (same, e, _) ↦
              subst (IsApplied changes old) (sym e) (same-IsApplied changes old new same new_row)
          | inr (_, row, _) ↦ row-IsApplied changes old new case row new_row
        ]

    -- After a success: the case was there, every change was accepted, the row has the changed
    -- columns, and its event is added in the same transaction.
    pub record Updated (case : Case) (k : Db) : Type 0 where
      pub old : Case
      pub found : CaseRepository.get case_id b.current ≡ some old
      pub new : Case
      pub accepted : changed old changes ≡ some new
      pub applied : IsApplied changes old case
      pub rows : Tables
      pub flushed : Flushed old new case rows
      pub event : AuditEvent
      pub appended : Appended env platform chain_enabled case.id (updated_entry case) rows event
      pub committed : k.committed ≡ add_event event rows

    abbrev IsFlushed : Case → Case → Db → Type 0
    IsFlushed old case k =
        (new : Case) × (changed old changes ≡ some new)
        × (rows : Tables) × Flushed old new case rows
        × (k ≡ record b { current = rows })

    or_not_found-Ensures :
        (found : Option Case)
        → Ensures db b (or_not_found found) (λ row k. (found ≡ some row) × (k ≡ b)) (Uncommitted b)
    or_not_found-Ensures none = raise-Ensures _ refl
    or_not_found-Ensures (some row) = record { at = λ w e. (refl, e) }

    get_case-Ensures :
        Ensures db b
          (get_case self case_id)
          (λ row k. (CaseRepository.get case_id b.current ≡ some row) × (k ≡ b))
          (Uncommitted b)
    unfolding get_case
    get_case-Ensures =
        Ensures-bind (query-Ensures env b (CaseRepository.get case_id) refl) (λ found k q.
          at_view q.1
            (weaken (or_not_found-Ensures found) (λ row k' p. (sym q.0 ∙ p.0, p.1)) (λ k' g. g)))

    replaced_row : Case → ℕ → Case
    replaced_row new at = record new { updated_at = at }

    write-Ensures :
        (old new : Case)
        → changed old changes ≡ some new
        → (same : Bool) → is_same old new ≡ same
        → Ensures db b
            (if same then (do call env; pure old) else (do
              updated_at ← now env
              let row = record new { updated_at = updated_at }
              flush env (replace_case row)
              call env
              pure row))
            (IsFlushed old)
            (Uncommitted b)
    write-Ensures old new c true s = calmly (call-Calm env) refl (λ _.
        weaken (pure-Ensures {G = Uncommitted b} old)
          (λ a k p. (new, c, b.current, record { written = inl (s, p.0, refl) }, p.1)) (λ k g. g))
    write-Ensures old new c false s = calmly (now-Calm env) refl (λ at.
        moving (flush-Ensures env b (replace_case (record new { updated_at = at })) refl) (λ _.
          calmly (call-Calm env) refl (λ _.
            weaken (pure-Ensures {G = Uncommitted b} (record new { updated_at = at }))
              (λ a k p.
                subst (λ x. IsFlushed old x k) (sym p.0)
                  (
                    new,
                    c,
                    replace_case (record new { updated_at = at }) b.current,
                    record {
                      written = inr (
                        s,
                        record {
                          id = refl;
                          case_no = refl;
                          name = refl;
                          description = refl;
                          status = refl;
                          created_by = refl;
                          created_at = refl;
                        },
                        refl,
                      );
                    },
                    p.1,
                  ))
              (λ k g. g))))

    flush_case-Ensures :
        (old : Case) (new : Option Case)
        → changed old changes ≡ new
        → Ensures db b (flush_case self old new) (IsFlushed old) (Uncommitted b)
    flush_case-Ensures old none c =
        calmly (call-Calm env) refl (λ _. raise-Ensures integrity_error refl)
    flush_case-Ensures old (some new) c = write-Ensures old new c (is_same old new) refl

    update_case-Ensures : Ensures db b (update_case self case_id changes) Updated (Uncommitted b)
    unfolding update_case
    update_case-Ensures = Ensures-bind get_case-Ensures (λ old k q. at_view q.1 (
        Ensures-bind (flush_case-Ensures old (changed old changes) refl) (λ case k1 f.
          let (new, accepted, rows, flushed, here) = f in
          at_view here (
            Ensures-bind
              (append-Ensures env platform chain_enabled case.id (updated_entry case) b
                (record b { current = rows }) refl)
              (λ event k2 a. at_view a.1 (
                moving (commit-Ensures env (record b { current = add_event event rows }) refl) (λ _.
                  weaken (pure-Ensures {G = Uncommitted b} case)
                    (λ c k3 p.
                      subst (λ c. Updated c k3) (sym p.0)
                        (subst (Updated case) (sym p.1) (record {
                          old = old;
                          found = q.0;
                          new = new;
                          accepted = accepted;
                          applied = Flushed-IsApplied old new case rows flushed accepted;
                          rows = rows;
                          flushed = flushed;
                          event = event;
                          appended = a.0;
                          committed = refl;
                        })))
                    (λ k3 g. g))))))))

  module _ (w w' : World) where
    abbrev Ended : Result Case × World → Type 0
    Ended r = Post (Updated (db w)) (Uncommitted (db w)) r.0 (db r.1)

    -- If `update_case` returns a case, whatever the environment does, then the session had a case with
    -- this id, and no column that must not be null was set to null; the returned row has the name, the
    -- description and the status that the request sets, and is otherwise the row that was there, but
    -- for the time of the update; and the committed tables are the session's with the event of the
    -- update added, in which the rows with this id are replaced by the returned row, unless it is the
    -- row that was there.
    pub update_case-Updated :
        (case : Case)
        → update_case self case_id changes w ≡ (ok case, w')
        → Updated (db w) case (db w')
    update_case-Updated case e = subst Ended e ((update_case-Ensures (db w)).at w refl)

    pub update_case-Uncommitted :
        (x : Exception)
        → update_case self case_id changes w ≡ (err x, w')
        → w'.committed ≡ w.committed
    update_case-Uncommitted x e = subst Ended e ((update_case-Ensures (db w)).at w refl)

  -- A column that must not be null is set to null.
  abbrev pub SetsNull : Type 0
  SetsNull = (changes.name ≡ some none) ⊎ (changes.status ≡ some none)

  null-none : SetsNull → (old : Case) → changed old changes ≡ none
  unfolding changed
  null-none (inl h) old = ground (arith, h)
  null-none (inr h) old = ground (arith, h)

  raised :
      (w : World) (r : Result Case) (k : Db)
      → SetsNull
      → Post (Updated (db w)) (Uncommitted (db w)) r k
      → (x : Exception) × (r ≡ err x) × (k.committed ≡ w.committed)
  raised w (err x) k s h = (x, refl, h)
  raised w (ok case) k s h = ground (arith, sym (null-none s h.old) ∙ h.accepted)

  -- An update that sets the name or the status to null, which the request model lets through, raises
  -- and commits nothing.
  pub update_case-refuses_null :
      (w : World)
      → SetsNull
      → (x : Exception) × ((update_case self case_id changes w).0 ≡ err x)
        × ((update_case self case_id changes w).1.committed ≡ w.committed)
  update_case-refuses_null w s =
      raised w (update_case self case_id changes w).0 (db (update_case self case_id changes w).1) s
        ((update_case-Ensures (db w)).at w refl)
