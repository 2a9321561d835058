-- ===== src/Evidence/Deletion.antt =====
-- What `delete_evidence` leaves behind. The object goes first: a raise behind it leaves the row.
use xieyi.Prelude.{◌≡◌, refl, sym, ap, ◌∙◌, subst, ◌⊎◌, inl, inr, Option, none, some, List, [], All}
use xieyi.Errors.{Exception, Result, ok, err}
use xieyi.Json.{empty}
use xieyi.Types.{evidence_deleted}
use xieyi.Models.{Uuid, Evidence}
use xieyi.World.{World, query, flush}
use xieyi.Repositories.CaseRepository
use xieyi.Repositories.EvidenceRepository
use xieyi.Evidence.Parts.{EvidenceService, without_key, without_id, or_not_found}
use xieyi.Evidence.Distinct.{IsApart, without_id-IsApart}
use xieyi.Evidence.Service.{audit, get_evidence, delete_evidence}
use xieyi.Evidence.Frame.{Ledger, ledger, call-Calm, query-Calm, commit-Ensures}
use xieyi.Exec.Ensures.{
  Post, Ensures, Ensures-bind, calmly, moving, at_view, weaken, modify-Ensures, raise-Ensures,
}
use xieyi.Evidence.Attempt.{append_audit-Calm, require_case-Calm}
use xieyi.Evidence.Undo.{storage_delete-Ensures}

module _ (self : EvidenceService) (case_id evidence_id : Uuid) where
  open self use {env}

  -- The row that the repository finds among the evidence that the session sees.
  abbrev pub Found : List Evidence → Evidence → Type 0
  Found rows row =
      EvidenceRepository.get case_id evidence_id
        (record { cases = []; evidence = rows; audit_events = [] })
      ≡ some row

  module _ (b : Ledger) where
    -- After a success: neither the row nor its object is left, and no row has it as its parent.
    pub record Deleted (l : Ledger) : Type 0 where
      pub row : Evidence
      pub found : Found b.current row
      pub committed : l.committed ≡ without_id row.id b.current
      pub apart : All (IsApart row.id) l.committed
      pub objects : l.objects ≡ without_key row.object_key b.objects

    -- After a raise: no committed row is lost, and at most the object of the row is gone.
    pub record Kept (l : Ledger) : Type 0 where
      pub committed : l.committed ≡ b.committed
      pub objects :
          (l.objects ≡ b.objects)
          ⊎ ((row : Evidence) × Found b.current row
              × (l.objects ≡ without_key row.object_key b.objects))

    query-Ensures :
        {G : Ledger → Type 0}
        → G b
        → Ensures ledger b
            (query env (EvidenceRepository.get case_id evidence_id))
            (λ found k.
              (found
                ≡ EvidenceRepository.get case_id evidence_id
                    (record { cases = []; evidence = b.current; audit_events = [] }))
              × (k ≡ b))
            G
    unfolding EvidenceRepository.get
    query-Ensures g = calmly (call-Calm env) g (λ _. record {
      at = λ w e. (
        ap
            (λ (l : Ledger).
              EvidenceRepository.get case_id evidence_id
                (record { cases = []; evidence = l.current; audit_events = [] }))
            e,
        e,
      );
    })

    or_not_found-Ensures :
        {G : Ledger → Type 0} (found : Option Evidence)
        → G b
        → Ensures ledger b (or_not_found found) (λ row k. (found ≡ some row) × (k ≡ b)) G
    or_not_found-Ensures none g = raise-Ensures _ g
    or_not_found-Ensures (some row) g = record { at = λ w e. (refl, e) }

    get_evidence-Ensures :
        {G : Ledger → Type 0}
        → G b
        → Ensures ledger b
            (get_evidence self case_id evidence_id)
            (λ row k. Found b.current row × (k ≡ b))
            G
    unfolding get_evidence
    get_evidence-Ensures {G = G} g =
        calmly (require_case-Calm self case_id (query-Calm env (CaseRepository.get case_id))) g
          (λ _. Ensures-bind (query-Ensures {G = G} g) (λ found k q.
            at_view q.1 (
              weaken (or_not_found-Ensures found g) (λ row k' p. (sym q.0 ∙ p.0, p.1))
                (λ k' h. h))))

    untouched : Kept b
    untouched = record { committed = refl; objects = inl refl }

    module _ (row : Evidence) (found : Found b.current row) where
      abbrev gone : Ledger
      gone = record b { objects = without_key row.object_key b.objects }

      abbrev removed : Ledger
      removed = record gone { current = without_id row.id b.current }

      gone-Kept : Kept gone
      gone-Kept = record { committed = refl; objects = inr (row, found, refl) }

      removed-Kept : Kept removed
      removed-Kept = record { committed = refl; objects = inr (row, found, refl) }

      removed-Deleted :
          (k : Ledger) → k ≡ record removed { committed = removed.current } → Deleted k
      removed-Deleted k e = subst Deleted (sym e) (record {
        row = row;
        found = found;
        committed = refl;
        apart = without_id-IsApart row.id b.current;
        objects = refl;
      })

      flush-Ensures :
          Ensures ledger gone
            (flush env (λ db. record db { evidence = without_id row.id db.evidence }))
            (λ _ k. k ≡ removed)
            Kept
      flush-Ensures = calmly (call-Calm env) gone-Kept (λ _.
          modify-Ensures (λ k. record k { current = without_id row.id k.current }) (λ w. refl))

    delete_evidence-Ensures :
        Ensures ledger b (delete_evidence self case_id evidence_id) (λ _. Deleted) Kept
    unfolding delete_evidence
    delete_evidence-Ensures = Ensures-bind (get_evidence-Ensures untouched) (λ row k q.
        at_view q.1 (
          moving {l' = gone row q.0}
            (weaken (storage_delete-Ensures self b row.object_key b) (λ _ k' e. e)
              (λ k' e. subst Kept (sym e) untouched))
            (λ _. moving (flush-Ensures row q.0) (λ _.
              calmly (call-Calm env) (removed-Kept row q.0) (λ _.
                calmly
                  (append_audit-Calm self case_id (
                    audit self case_id evidence_id evidence_deleted "delete" none (some row.sha256)
                      none empty))
                  (removed-Kept row q.0)
                  (λ _.
                    weaken (commit-Ensures env (removed row q.0) (removed-Kept row q.0))
                      (λ _ k' e. removed-Deleted row q.0 k' e) (λ k' g. g)))))))

  module _ (w w' : World) where
    abbrev Ended : Result (Unit {0}) × World → Type 0
    Ended r = Post (λ _. Deleted (ledger w)) (Kept (ledger w)) r.0 (ledger r.1)

    delete-Ended : Ended (delete_evidence self case_id evidence_id w)
    delete-Ended = (delete_evidence-Ensures (ledger w)).at w refl

    -- If `delete_evidence` returns, whatever the environment does, then the session had found a row,
    -- the bucket is without its object, and the committed evidence is without the row: no row has
    -- its id or has it as its parent, the rows whose parent it was have none, and the others
    -- are as they were.
    pub delete_evidence-Deleted :
        delete_evidence self case_id evidence_id w ≡ (ok tt, w') → Deleted (ledger w) (ledger w')
    delete_evidence-Deleted e = subst Ended e delete-Ended

    -- If `delete_evidence` raises, at whichever call, then the committed evidence is as before, and
    -- the bucket is as before or has lost the object of the row that the session had found.
    pub delete_evidence-Kept :
        (x : Exception)
        → delete_evidence self case_id evidence_id w ≡ (err x, w')
        → Kept (ledger w) (ledger w')
    delete_evidence-Kept x e = subst Ended e delete-Ended
