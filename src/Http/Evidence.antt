-- ===== src/Http/Evidence.antt =====
-- backend/app/api/v1/evidence.py
use xieyi.Prelude.{String, Option, List, map}
use xieyi.Types.{EvidenceSourceType}
use xieyi.Models.{Uuid}
use xieyi.Exec.{Exec, pure, ◌>>=◌}
use xieyi.World.{World}
use xieyi.Evidence.Parts.{EvidenceService, UploadFile}
use xieyi.Evidence.Service
use xieyi.Http.Schemas.{Reply, http_200, http_201, EvidenceResponse, evidence_response}

module _ (service : EvidenceService) where
  unfoldable pub upload_evidence :
      Uuid
      → UploadFile
      → EvidenceSourceType
      → Option String
      → Option Uuid
      → Exec World (Reply EvidenceResponse)
  unfolding Service.upload_evidence
  upload_evidence case_id file source_type created_by parent_evidence_id = do
    evidence ←
        Service.upload_evidence service case_id file source_type created_by parent_evidence_id
    pure (http_201 (evidence_response evidence))

  unfoldable pub list_evidence : Uuid → Exec World (Reply (List EvidenceResponse))
  unfolding Service.list_evidence
  list_evidence case_id = do
    items ← Service.list_evidence service case_id
    pure (http_200 (map evidence_response items))

  unfoldable pub get_evidence : Uuid → Uuid → Exec World (Reply EvidenceResponse)
  unfolding Service.get_evidence
  get_evidence case_id evidence_id = do
    evidence ← Service.get_evidence service case_id evidence_id
    pure (http_200 (evidence_response evidence))

  -- `HTTP_204_NO_CONTENT`
  unfoldable pub delete_evidence : Uuid → Uuid → Exec World (Reply (Unit {0}))
  unfolding Service.delete_evidence
  delete_evidence case_id evidence_id = do
    done ← Service.delete_evidence service case_id evidence_id
    pure (record { status_code = 204; body = tt })
