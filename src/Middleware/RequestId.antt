-- ===== src/Middleware/RequestId.antt =====
-- app/middleware/request_id.py: time.perf_counter is the clock of the model.
use api_gateway_with_abuse_d.Prelude.{◌-◌, some, str}
use api_gateway_with_abuse_d.Platform.{Platform}
use api_gateway_with_abuse_d.World.{Exec, request_duration, request_total}
use api_gateway_with_abuse_d.World.Http.{Request, Response, with_header}
use api_gateway_with_abuse_d.World.Exec.{pure, draw, inc, now_ms, ◌>>=◌, ◌>>◌}

-- RequestIDMiddleware.dispatch
unfoldable pub request_id_dispatch :
    (p : Platform) → (Request → Exec p Response) → Request → Exec p Response
request_id_dispatch p call_next request = do
  n ← draw p
  start ← now_ms p
  let request_id = p.uuid4 n
  response ←
      call_next (record request { state = record request.state { request_id = some request_id } })
  stop ← now_ms p
  inc p (request_duration (stop - start))
  inc p (request_total (str response.status) request.path)
  pure (with_header "X-Request-ID" request_id response)
