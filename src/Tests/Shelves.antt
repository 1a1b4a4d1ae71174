-- ===== src/Tests/Shelves.antt =====
-- Tests of the updates of internal/growthbook on stores in memory.
use k8sgrowthbook_controller.Prelude.{◌≡◌, some, none, [], ◌∷◌, str}
use k8sgrowthbook_controller.Prelude.Dict.{Dict, lookup}
use k8sgrowthbook_controller.Documents.User.{User}
use k8sgrowthbook_controller.Documents.Organization.{Organization}
use k8sgrowthbook_controller.Documents.Feature.{empty_feature}
use k8sgrowthbook_controller.Documents.SdkConnection.{SdkConnection}
use k8sgrowthbook_controller.Effects.Runs.{run, returned}
use k8sgrowthbook_controller.Growthbook.User.{users, update_user}
use k8sgrowthbook_controller.Growthbook.Organization.{organizations, update_organization}
use k8sgrowthbook_controller.Growthbook.Feature.{features, update_feature}
use k8sgrowthbook_controller.Growthbook.SdkConnection.{sdk_connections, update_sdk_connection}
use k8sgrowthbook_controller.Refinement.Shelf.{Lands}
use k8sgrowthbook_controller.Refinement.Users.{
  update_user_refines, update_user_settles, upserted_user,
}
use k8sgrowthbook_controller.Refinement.Organizations.{
  update_organization_refines, update_organization_settles, AfterOrganization,
}
use k8sgrowthbook_controller.Refinement.Features.{update_feature_refines, AfterFeature}
use k8sgrowthbook_controller.Refinement.Connections.{update_sdk_connection_settles}
use k8sgrowthbook_controller.Tests.Writing.{converted}
use k8sgrowthbook_controller.Tests.Encodings.{user_codec, organization_codec, connection_codec}
use k8sgrowthbook_controller.Tests.Memory.{
  refused, encode_by, user_memory, organization_memory, connection_memory, user_memory-IsShelf,
  organization_memory-IsShelf, read_back, connection_memory-IsShelf,
  connection_memory-IsPayloadCache,
}
use k8sgrowthbook_controller.Prelude.{true}
use k8sgrowthbook_controller.Tests.Shuffling.{
  Shuffled, shuffling, shuffled_of, shuffling-IsFeatureShelf,
}
use k8sgrowthbook_controller.Tests.Fixtures.{externals, db, user_ann, organization_acme}
use k8sgrowthbook_controller.Tests.Fixtures.{connection_web, dark_mode, existing_dark_mode}
use k8sgrowthbook_controller.Tests.Fixtures.{feature_dark_mode}

-- The store holds Ann under another name.
abbrev ann_renamed : Dict User
ann_renamed = (str "ann", record user_ann { name = str "Ann" }) ∷ []

update_user_refines_example :
    Lands lookup
      (str "ann")
      (λ v. v ≡ upserted_user user_ann (lookup (str "ann") ann_renamed))
      ann_renamed
      (run user_memory (update_user user_ann db) ann_renamed)
update_user_refines_example =
    update_user_refines db user_memory refused (encode_by user_codec) lookup
      (user_memory-IsShelf (users db)) user_ann ann_renamed

update_user_settles_example :
    let t = (run user_memory (update_user user_ann db) ann_renamed).1 in
    run user_memory (update_user user_ann db) t ≡ (returned tt, t)
update_user_settles_example =
    update_user_settles db user_memory refused (encode_by user_codec) lookup
      (user_memory-IsShelf (users db)) user_ann ann_renamed

-- The store holds the organization with a member, of an earlier date.
abbrev acme_with_member : Dict Organization
acme_with_member =
    (
      str "acme",
      record organization_acme {
        name = str "Acme";
        date_created = 3;
        members = some (record { id = str "u1"; role = str "admin" } ∷ []);
      },
    )
    ∷ []

update_organization_refines_example :
    Lands lookup
      (str "acme")
      (AfterOrganization organization_acme (lookup (str "acme") acme_with_member))
      acme_with_member
      (run organization_memory (update_organization organization_acme db) acme_with_member)
update_organization_refines_example =
    update_organization_refines db organization_memory refused (encode_by organization_codec) lookup
      (organization_memory-IsShelf (organizations db)) organization_acme acme_with_member

update_organization_settles_example :
    let t =
      (run organization_memory (update_organization organization_acme db) acme_with_member).1 in
    run organization_memory (update_organization organization_acme db) t ≡ (returned tt, t)
update_organization_settles_example =
    update_organization_settles db organization_memory refused (encode_by organization_codec) lookup
      (organization_memory-IsShelf (organizations db)) organization_acme acme_with_member

-- The store holds the connection with another name.
abbrev web_renamed : Dict SdkConnection
web_renamed = (str "web", record connection_web { name = str "Web"; date_created = 3 }) ∷ []

update_sdk_connection_settles_example :
    let t = (run connection_memory (update_sdk_connection connection_web db) web_renamed).1 in
    run connection_memory (update_sdk_connection connection_web db) t ≡ (returned tt, t)
update_sdk_connection_settles_example =
    update_sdk_connection_settles db connection_memory refused (encode_by connection_codec) lookup
      (connection_memory-IsShelf (sdk_connections db)) connection_memory-IsPayloadCache
      connection_web web_renamed

-- The store holds the feature as GrowthBook has changed it, and marshals it in another order next.
abbrev dark_mode_changed : Shuffled
dark_mode_changed = ((str "dark-mode", existing_dark_mode) ∷ [], true)

update_feature_refines_example :
    Lands shuffled_of
      (str "dark-mode")
      (AfterFeature feature_dark_mode (shuffled_of (str "dark-mode") dark_mode_changed))
      dark_mode_changed
      (run shuffling (update_feature feature_dark_mode db) dark_mode_changed)
update_feature_refines_example =
    update_feature_refines db shuffling refused read_back shuffled_of
      (shuffling-IsFeatureShelf (features db)) externals.parse_float empty_feature feature_dark_mode
      (dark_mode none) converted dark_mode_changed
