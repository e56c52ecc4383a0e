-- ===== src/Handler/Value.antt =====
-- The handlers that read.
use study_project_metrics_an.Base.{◌≡◌, arith}
use study_project_metrics_an.Http.{Request, Response}
use study_project_metrics_an.Handler.{
  World, Handlers, ping_handler, value_metric_json_handler, value_handler, root_handler,
}

-- No reading request changes the storage or the audit queue, whatever it asks for and whatever it
-- is answered.
pub readers-unchanged :
    {S : Type 0} (h : Handlers S) (r : Request) (world : World S) (w : Response)
    → ((ping_handler h r world w).0 ≡ world)
      × ((value_metric_json_handler h r world w).0 ≡ world)
      × ((value_handler h r world w).0 ≡ world)
      × ((root_handler h r world w).0 ≡ world)
unfolding ping_handler value_metric_json_handler value_handler root_handler
readers-unchanged h r world w = (ground arith, ground arith, ground arith, ground arith)
