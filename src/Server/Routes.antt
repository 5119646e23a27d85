-- ===== src/Server/Routes.antt =====
-- src/server/routes.rs, and `archive_router` of src/server/handler.rs: the table of routes. Each
-- has the method GET.
use raas.Prelude.{List, [], ◌∷◌, ◌++◌}
use raas.Io.Text.{Text, codes}

pub data Endpoint : Type 0 where
  health download_random_access_archive : Endpoint

unfoldable pub archive_router : List (Text × Endpoint)
archive_router = (codes "/download", download_random_access_archive) ∷ []

-- `Router::nest`
unfoldable pub nest : Text → List (Text × Endpoint) → List (Text × Endpoint)
nest prefix [] = []
nest prefix ((path, endpoint) ∷ routes) = (prefix ++ path, endpoint) ∷ nest prefix routes

unfoldable pub create_app_routes : List (Text × Endpoint)
create_app_routes = (codes "/health", health) ∷ nest (codes "/api/archive") archive_router
