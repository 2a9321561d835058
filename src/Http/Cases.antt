-- ===== src/Http/Cases.antt =====
-- backend/app/api/v1/cases.py
use xieyi.Prelude.{ℕ, List, ◌&&◌, leb, map}
use xieyi.Models.{Uuid}
use xieyi.Exec.{Exec, pure, ◌>>=◌}
use xieyi.World.{World}
use xieyi.Cases.Service
use xieyi.Cases.Service.{CaseService, CaseCreate, CaseUpdate}
use xieyi.Http.Schemas.{
  Reply, http_200, http_201, validated, CaseResponse, case_response, case_create_valid,
  case_update_valid,
}

module _ (service : CaseService) where
  unfoldable pub create_case : CaseCreate → Exec World (Reply CaseResponse)
  unfolding case_create_valid Service.create_case
  create_case data' =
      validated (case_create_valid data')
        (do case ← Service.create_case service data'; pure (http_201 (case_response case)))

  -- `Query(ge=0)` holds of every number; `Query(ge=1, le=500)`.
  unfoldable pub list_cases : ℕ → ℕ → Exec World (Reply (List CaseResponse))
  unfolding Service.list_cases
  list_cases offset limit = validated (leb 1 limit && leb limit 500) (do
    cases ← Service.list_cases service offset limit
    pure (http_200 (map case_response cases)))

  unfoldable pub get_case : Uuid → Exec World (Reply CaseResponse)
  unfolding Service.get_case
  get_case case_id = do
    case ← Service.get_case service case_id
    pure (http_200 (case_response case))

  unfoldable pub update_case : Uuid → CaseUpdate → Exec World (Reply CaseResponse)
  unfolding case_update_valid Service.update_case
  update_case case_id data' =
      validated (case_update_valid data')
        (do case ← Service.update_case service case_id data'; pure (http_200 (case_response case)))
