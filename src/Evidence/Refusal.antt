-- ===== src/Evidence/Refusal.antt =====
-- The `try` statement of an upload whose bytes the case already has: it raises, and the handlers leave
-- the bucket alone.
use mathlib.Core.List.{append-nil, append_assoc}
use xieyi.Prelude.{
  ℕ, ◌+◌, ◌≡◌, refl, sym, ap, ◌∙◌, String, Bool, true, false, Option, none, some, List, [], ◌∷◌,
  ◌++◌, Text, concat, codes, length, is_some, ltb, str_eq, ◌&&◌, eq_iff, arith, if◌then◌else◌,
}
use xieyi.Errors.{Exception, Result, ok, err}
use xieyi.Json.{empty, member, string}
use xieyi.Types.{evidence_upload_failed, evidence_hashed}
use xieyi.Models.{Uuid, Evidence}
use xieyi.Exec.{Exec, raise, pure, lift, modify, ◌>>=◌, ◌>>◌, except}
use xieyi.Exec.Calm.{Calm, Calm-bind, Calm-lift, except-Calm, if-Calm}
use xieyi.Exec.Ensures.{
  Post, Ensures, Ensures-bind, calmly, weaken, at_view, pure-Ensures, gets-Ensures, raise-Ensures,
  except-Ensures,
}
use xieyi.World.{World, Locals, call, query, commit, rollback}
use xieyi.Repositories.Order.{where_rows, first}
use xieyi.Repositories.EvidenceRepository
use xieyi.Security.FileValidator.{validate_size}
use xieyi.Evidence.Parts.{EvidenceService, UploadFile, duplicate_evidence, is_sqlalchemy_error}
use xieyi.Evidence.Service.{
  audit, append_audit, receive, receive_and_hash, compensate, record_failure, on_error, reason_of,
  raised_for,
}
use xieyi.Evidence.Frame.{Ledger, ledger}
use xieyi.Evidence.Attempt.{append_audit-Calm}

-- What the session sees of the evidence, the bucket, and whether the object of the upload is stored.
pub record Seen : Type 0 where
  pub rows : List Evidence
  pub objects : List Text
  pub stored : Bool

abbrev pub part : Ledger → Seen
part l = record { rows = l.current; objects = l.objects; stored = l.locals.stored }

abbrev pub seen : World → Seen
seen w = part (ledger w)

abbrev bucket : World → List Text
bucket w = w.objects

-- What leaves the ledger alone leaves a part of it alone.
pub Calm-part :
    {V A : Type 0} {m : Exec World A} (f : Ledger → V) → Calm ledger m → Calm (λ w. f (ledger w)) m
Calm-part f c = record { same = λ w. ap f (c.same w) }

-- The body of the `try` statement raises, and its handlers leave the bucket alone.
module _ (self : EvidenceService) (case_id evidence_id : Uuid) (created_by : Option String) where
  open self use {env, validator, sha256_bytes}

  call-bucket : Calm bucket (call env)
  call-bucket = record { same = λ w. refl }

  rollback-bucket : Calm bucket (rollback env)
  rollback-bucket =
      Calm-bind
        (except-Calm call-bucket
          (λ e. Calm-bind {m = modify _} (record { same = λ w. refl }) (λ _. Calm-lift (err e))))
        (λ _. record { same = λ w. refl })

  commit-bucket : Calm bucket (commit env)
  commit-bucket = Calm-bind call-bucket (λ _. record { same = λ w. refl })

  record_failure-bucket :
      (reason : String) → Calm bucket (record_failure self case_id evidence_id created_by reason)
  unfolding record_failure
  record_failure-bucket reason =
      except-Calm
        (Calm-bind
          (Calm-part (λ l. l.objects)
            (append_audit-Calm self case_id (
              audit self case_id evidence_id evidence_upload_failed "upload" created_by none none
                (member "reason" (string (codes reason)) empty))))
          (λ _. commit-bucket))
        (λ e.
          if-Calm (is_sqlalchemy_error e)
            (Calm-bind rollback-bucket (λ _. record { same = λ w. refl })) (Calm-lift (err e)))

  compensate-bucket :
      (stored : Bool) (key : Option Text)
      → stored ≡ false
      → Calm bucket (compensate self stored key)
  unfolding compensate
  compensate-bucket false key h = Calm-lift (ok tt)
  compensate-bucket true key h = absurd (ground (arith, h))

  abbrev pub Raises : {V A : Type 0} → (World → V) → V → Exec World A → (V → Type 0) → Type 0
  Raises view l m G = Ensures view l m (λ _ _. ⊥) G

  handled :
      (e : Exception) (locals : Locals) (objects : List Text)
      → locals.stored ≡ false
      → Raises {A = Evidence} bucket objects
          (do
            rollback env
            compensate self locals.stored locals.object_key
            record_failure self case_id evidence_id created_by (reason_of self e)
            raise (raised_for self e))
          (λ o. o ≡ objects)
  handled e locals objects h = calmly rollback-bucket refl (λ _.
      calmly (compensate-bucket locals.stored locals.object_key h) refl (λ _.
        calmly (record_failure-bucket (reason_of self e)) refl
          (λ _. raise-Ensures (raised_for self e) refl)))

  abbrev Refused : List Text → Result Evidence → World → Type 0
  Refused objects r w = Post (λ _ _. ⊥) (λ (k : Seen). k.objects ≡ objects) r (seen w)

  Refused-from :
      (objects : List Text) (r : Result Evidence) (w : World)
      → Post (λ _ _. ⊥) (λ o. o ≡ objects) r (bucket w)
      → Refused objects r w
  Refused-from objects (ok row) w h = h
  Refused-from objects (err e) w h = h

  on_error-Raises :
      (e : Exception) (l : Seen)
      → l.stored ≡ false
      → Raises seen l (on_error self case_id evidence_id created_by e) (λ k. k.objects ≡ l.objects)
  unfolding on_error
  on_error-Raises e l h = record {
    at = λ w same.
        let m = on_error self case_id evidence_id created_by e w in
        Refused-from l.objects m.0 m.1 (
          (handled e w.locals l.objects (ap (λ (k : Seen). k.stored) same ∙ h)).at w
            (ap (λ (k : Seen). k.objects) same));
  }

  call-Seen : Calm seen (call env)
  call-Seen = record { same = λ w. refl }

  -- The content of the temporary file.
  receive-Seen :
      (l : Seen) (chunks : List (List ℕ)) (size : ℕ) (content : List ℕ)
      → Ensures seen l
          (receive self chunks size content)
          (λ r k. (r.1 ≡ content ++ concat chunks) × (k ≡ l))
          (λ k. k ≡ l)
  unfolding receive
  receive-Seen l [] size content = calmly call-Seen refl (λ _.
      weaken (pure-Ensures {G = λ k. k ≡ l} (size, content))
        (λ r k h. (ap (λ (x : ℕ × List ℕ). x.1) h.0 ∙ sym (append-nil content), h.1)) (λ k g. g))
  receive-Seen l (chunk ∷ chunks) size content = calmly call-Seen refl (λ _.
      calmly
        (Calm-lift (
          if ltb validator.max_size_bytes (size + length chunk)
          then validate_size validator (size + length chunk)
          else ok tt))
        refl
        (λ _. calmly call-Seen refl (λ _.
          weaken (receive-Seen l chunks (size + length chunk) (content ++ chunk))
            (λ r k h. (h.0 ∙ append_assoc content chunk (concat chunks), h.1)) (λ k g. g))))

  abbrev matches : String → Evidence → Bool
  matches digest e = str_eq e.case_id case_id && str_eq e.sha256 digest

  found :
      (digest : String) (before after : List Evidence) (old : Evidence)
      → old.case_id ≡ case_id
      → old.sha256 ≡ digest
      → is_some (first (where_rows (matches digest) (before ++ old ∷ after))) ≡ true
  unfolding where_rows
  found digest [] after old c h =
      ground (arith, (eq_iff old.case_id case_id).1 c, (eq_iff old.sha256 digest).1 h)
  found digest (e ∷ before) after old c h = ground (arith, found digest before after old c h)

  module _ (upload : UploadFile) (l : Seen) (before after : List Evidence) (old : Evidence)
      (there : l.rows ≡ before ++ old ∷ after) (same_case : old.case_id ≡ case_id)
      (same_hash : old.sha256 ≡ sha256_bytes (concat upload.chunks)) where
    abbrev hashed_event : String → Exec World (Unit {0})
    hashed_event digest =
        append_audit self case_id (
          audit self case_id evidence_id evidence_hashed "hash" created_by none (some digest) empty)

    lookup :
        (digest : String)
        → digest ≡ sha256_bytes (concat upload.chunks)
        → Ensures seen l
            (query env (EvidenceRepository.get_by_hash case_id digest))
            (λ row k. (is_some row ≡ true) × (k ≡ l))
            (λ k. k ≡ l)
    unfolding EvidenceRepository.get_by_hash
    lookup digest d = calmly call-Seen refl (λ _.
        weaken
          (gets-Ensures {G = λ k. k ≡ l} (λ (k : Seen). first (where_rows (matches digest) k.rows))
            (λ w. refl))
          (λ row k h. (
            ap is_some h.0
                ∙ ap (λ rows. is_some (first (where_rows (matches digest) rows))) there
                ∙ found digest before after old same_case (same_hash ∙ sym d),
            h.1,
          ))
          (λ k g. g))

    refuse :
        {B : Type 0} (duplicate : Bool) (rest : Unit {0} → Exec World B)
        → duplicate ≡ true
        → Raises seen l
            ((if duplicate then raise duplicate_evidence else pure tt) >>= rest)
            (λ k. k ≡ l)
    refuse true rest h =
        Ensures-bind {A = Unit {0}} {m = raise duplicate_evidence} {f = rest}
          (raise-Ensures {Q = λ _ _. ⊥} duplicate_evidence refl) (λ _ _ never. absurd never)
    refuse false rest h = absurd (ground (arith, h))

    -- From the second size check on.
    checked : ℕ × List ℕ → Exec World (ℕ × String)
    checked received = do
      lift (validate_size validator received.0)
      duplicate ← query env (EvidenceRepository.get_by_hash case_id (sha256_bytes received.1))
      if is_some duplicate then raise duplicate_evidence else pure tt
      hashed_event (sha256_bytes received.1)
      commit env
      pure (received.0, sha256_bytes received.1)

    checked-Raises :
        (received : ℕ × List ℕ)
        → received.1 ≡ concat upload.chunks
        → Raises seen l (checked received) (λ k. k ≡ l)
    unfolding checked
    checked-Raises received r = calmly (Calm-lift (validate_size validator received.0)) refl (λ _.
        Ensures-bind (lookup (sha256_bytes received.1) (ap sha256_bytes r)) (λ duplicate k q.
          at_view q.1 (
            refuse (is_some duplicate)
              (λ _. do
                hashed_event (sha256_bytes received.1)
                commit env
                pure (received.0, sha256_bytes received.1))
              q.0)))

    receive_and_hash-Raises :
        Raises seen l (receive_and_hash self case_id evidence_id upload created_by) (λ k. k ≡ l)
    unfolding receive_and_hash checked
    receive_and_hash-Raises = calmly call-Seen refl (λ _.
        calmly
          {m = modify
            (λ w. record w { files = w.files + 1; locals = record w.locals { temp_path = true } })}
          (record { same = λ w. refl }) refl
          (λ _.
            Ensures-bind {f = checked} (receive-Seen l upload.chunks 0 [])
              (λ received k r. at_view r.1 (checked-Raises received r.0))))

    -- The `try` statement with its handlers.
    pub attempt-Raises :
        (record_row : ℕ × String → Exec World Evidence)
        → l.stored ≡ false
        → Raises seen l
            (except
              (do
                hashed ← receive_and_hash self case_id evidence_id upload created_by
                record_row hashed)
              (on_error self case_id evidence_id created_by))
            (λ k. k.objects ≡ l.objects)
    attempt-Raises record_row h =
        except-Ensures
          (Ensures-bind {f = record_row} receive_and_hash-Raises (λ _ _ never. absurd never))
          (λ e k same. at_view same (on_error-Raises e l h))
