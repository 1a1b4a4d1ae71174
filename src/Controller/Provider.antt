-- ===== src/Controller/Provider.antt =====
-- `MongoDBProvider`, the `DatabaseProvider` that main.go installs.
use k8sgrowthbook_controller.Prelude.{◌&&◌, Option, none, some, [], ◌∷◌}
use k8sgrowthbook_controller.Prelude.{GoString, str, is_empty, ◌==◌, number_eq, if◌then◌else◌}
use k8sgrowthbook_controller.Api.Instance.{GrowthbookInstance}
use k8sgrowthbook_controller.Effects.{
  Error, wrapped, Prog, ret, call, ◌>>=◌, from_result, failing_as,
}
use k8sgrowthbook_controller.Effects.{MongoClient, Database, Credential, mongo_connect}
use k8sgrowthbook_controller.Storage.{new}
use k8sgrowthbook_controller.Controller.Externals.{Externals}

-- The `DatabaseProvider` field: a disconnector and a database, for an instance, a user name and a
-- password.
abbrev pub DatabaseProvider : Type 0
DatabaseProvider = GrowthbookInstance → GoString → GoString → Prog Error (MongoClient × Database)

-- `strings.TrimLeft(s, "/")`
unfoldable pub trim_slashes : GoString → GoString
trim_slashes [] = []
trim_slashes (c ∷ s) = let rest = trim_slashes s in if c == b'/' then rest else c ∷ s

unfoldable pub credential : GoString → GoString → Option Credential
credential username password =
    if is_empty username && is_empty password
    then none
    else some (record { username = username; password = password })

unfoldable pub mongo_db_provider : Externals → DatabaseProvider
unfolding credential trim_slashes
mongo_db_provider x i username password = do
  client ←
      failing_as (wrapped (str "failed connecting to mongodb"))
        (call (mongo_connect i.spec.mongo_db.uri (credential username password)) from_result)
  path ← from_result (x.parse_url_path i.spec.mongo_db.uri)
  ret (client, new client (trim_slashes path))
