-- ===== src/Planner/Safe.antt =====
-- Every decision of Plan is justified by the observation.
use distributed_kv_data_stor.Planner.{Planner}
use distributed_kv_data_stor.Planner.Justified.{Justified}
