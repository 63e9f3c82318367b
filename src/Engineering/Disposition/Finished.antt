-- ===== src/Engineering/Disposition/Finished.antt =====
-- A work product is touched only after a finished execution of the canonical route.
use velox_server.Prelude.Result.{Result}
