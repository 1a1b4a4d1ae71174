-- ===== src/Safety/Order.antt =====
-- The order of the calls for a resource that goes: its document and its finalizer.
use k8sgrowthbook_controller.Prelude.{true, ◌≡◌, refl, Option, none, some, GoString, ℕ}
use k8sgrowthbook_controller.Api.Meta.{Object}
use k8sgrowthbook_controller.Api.Instance.{GrowthbookInstance}
use k8sgrowthbook_controller.Documents.User.{User}
use k8sgrowthbook_controller.Documents.Organization.{Organization}
use k8sgrowthbook_controller.Documents.Feature.{Feature}
use k8sgrowthbook_controller.Documents.SdkConnection.{SdkConnection}
use k8sgrowthbook_controller.Effects.{Error, Result, ok, err, Prog, Call, Reply, Collection, Filter}
use k8sgrowthbook_controller.Effects.{Database, patch_object, mongo_delete_one, mongo_insert_one}
use k8sgrowthbook_controller.Effects.{mongo_update_one, ◌>>=◌, from_result, done}
use k8sgrowthbook_controller.Effects.Monitors.{Monitor, Obeys}
use k8sgrowthbook_controller.Storage.{delete_one, by_id}
use k8sgrowthbook_controller.Growthbook.User.{delete_user, users}
use k8sgrowthbook_controller.Growthbook.Organization.{delete_organization, organizations}
use k8sgrowthbook_controller.Growthbook.Feature.{delete_feature, features}
use k8sgrowthbook_controller.Growthbook.SdkConnection.{delete_sdk_connection, sdk_connections}
use k8sgrowthbook_controller.Controller.Externals.{Externals}
use k8sgrowthbook_controller.Controller.Objects.{remove_finalizer}
use k8sgrowthbook_controller.Controller.Resources.{retire}

-- The last deletion that the driver confirmed.
abbrev Deleted : Type 0
Deleted = Option (Collection × Filter)

abbrev confirm : Collection → Filter → Result Error ℕ → Deleted → Deleted
confirm c f (ok n) s = some (c, f)
confirm c f (err e) s = s

abbrev note_deletion : Deleted → (c : Call) → Reply c → Deleted
note_deletion s (mongo_delete_one c f) r = confirm c f r s
note_deletion s _ r = s

-- A resource's metadata are patched only after its document was deleted by its ID; that deletion
-- is the only one, and nothing is inserted or updated.
abbrev AllowedRetirement : Collection → GoString → Deleted → Call → Type 0
AllowedRetirement col id s (patch_object _ _) = s ≡ some (col, by_id id)
AllowedRetirement col id s (mongo_delete_one c f) = (c ≡ col) × (f ≡ by_id id) × (s ≡ none)
AllowedRetirement col id s (mongo_insert_one _ _) = ⊥
AllowedRetirement col id s (mongo_update_one _ _ _) = ⊥
AllowedRetirement col id s _ = Unit

abbrev pub retirement : Collection → GoString → Monitor Deleted
retirement col id = record { step = note_deletion; allowed = AllowedRetirement col id }

-- The program retires the document `id` of the collection.
abbrev pub Retires : Collection → GoString → Prog Error Unit → Type 0
Retires col id m = Obeys (retirement col id) (λ s. Unit) none m

retire-Retires :
    (x : Externals) (i : GrowthbookInstance) (obj : Object) (col : Collection) (id : GoString)
    → i.spec.prune ≡ true
    → Retires col id (retire x i obj (delete_one col (by_id id)))
unfolding retire remove_finalizer delete_one ◌>>=◌ from_result done
retire-Retires x i obj col id h = rw h (
  (refl, refl, refl),
  elim [
    | err e ↦ tt
    | ok n ↦ (tt, elim [ err e ↦ tt | ok latest ↦ (refl, elim [ err e ↦ tt | ok u ↦ tt ]) ])
  ],
)

-- Of an instance that prunes, whatever the replies: a user, an organization, a feature and a
-- connection are retired by deleting the document with the ID from the kind's collection, once,
-- and the finalizer is taken off only after the driver confirmed that.
pub retire_order :
    (x : Externals) (i : GrowthbookInstance) (obj : Object) (db : Database) (u : User)
    (o : Organization) (f : Feature) (s : SdkConnection)
    → i.spec.prune ≡ true
    → Retires (users db) u.id (retire x i obj (delete_user u db))
      × Retires (organizations db) o.id (retire x i obj (delete_organization o db))
      × Retires (features db) f.id (retire x i obj (delete_feature f db))
      × Retires (sdk_connections db) s.id (retire x i obj (delete_sdk_connection s db))
unfolding delete_user delete_organization delete_feature delete_sdk_connection
retire_order x i obj db u o f s h = (
  retire-Retires x i obj _ _ h,
  retire-Retires x i obj _ _ h,
  retire-Retires x i obj _ _ h,
  retire-Retires x i obj _ _ h,
)
