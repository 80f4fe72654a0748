-- ===== src/Tests/Requests.antt =====
-- The theorem on Maven requests, at the path that a comment of the source gives.
use pyrsia.Base.{Bytes, codes}
use pyrsia.Handlers.Maven.{Coordinates}

abbrev full_path : Bytes
full_path = codes "/maven2/com/company/test/1.0/test-1.0.jar"

abbrev artifact_url : Bytes
artifact_url = codes "/build/b/artifacts/test-1.0.jar"

abbrev coordinates : Coordinates
coordinates = record {
  group_id = codes "com.company";
  version = codes "1.0";
  artifact_id = codes "test";
  file_name = codes "test-1.0.jar";
}
