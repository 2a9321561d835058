-- ===== src/Http/Workflows.antt =====
-- backend/app/api/v1/workflows.py, without the event stream.
use xieyi.Prelude.{String}
use xieyi.Models.{Uuid, Tables}
use xieyi.Exec.{Exec, pure, ◌>>=◌}
use xieyi.Graph.Workflow.{StateGraph}
use xieyi.Graph.Engine.{Engine}
use xieyi.Workflow
use xieyi.Workflow.{WorkflowResume, WorkflowResponse}
use xieyi.Http.Schemas.{
  Reply, http_200, http_201, validated, workflow_start_valid, workflow_resume_valid,
}

module _ {graph : StateGraph} (engine : Engine graph) (db : Tables) where
  open engine use {Checkpoints}

  -- `thread_id` is the new UUID that the service draws.
  unfoldable pub start_workflow : Uuid → Uuid → String → Exec Checkpoints (Reply WorkflowResponse)
  unfolding workflow_start_valid Workflow.start
  start_workflow thread_id case_id analysis_scope =
      validated (workflow_start_valid analysis_scope) (do
        response ← Workflow.start engine db thread_id case_id analysis_scope
        pure (http_201 response))

  unfoldable pub get_workflow : Uuid → Exec Checkpoints (Reply WorkflowResponse)
  unfolding Workflow.get
  get_workflow thread_id = do response ← Workflow.get engine db thread_id; pure (http_200 response)

  unfoldable pub resume_workflow :
      Uuid → WorkflowResume → String → Exec Checkpoints (Reply WorkflowResponse)
  unfolding workflow_resume_valid Workflow.resume
  resume_workflow thread_id data' now =
      validated (workflow_resume_valid data')
        (do response ← Workflow.resume engine db thread_id data' now; pure (http_200 response))
