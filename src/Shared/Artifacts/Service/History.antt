-- ===== src/Shared/Artifacts/Service/History.antt =====
-- What a saved version goes through while the service answers other calls.
use adk_a2a_gke.Prelude.{Bool, true, false}
use adk_a2a_gke.Shared.Artifacts.Storage.{Storage}
use adk_a2a_gke.Shared.Artifacts.Write
use adk_a2a_gke.Shared.Artifacts.Read
use adk_a2a_gke.Shared.Artifacts.Service.{Call, delete_artifact}

abbrev pub deletes : {N B : Type 0} → Call N B → Bool
deletes (delete_artifact _) = true
deletes _ = false
