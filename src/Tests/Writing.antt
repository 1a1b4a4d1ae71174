-- ===== src/Tests/Writing.antt =====
-- Tests of internal/growthbook: what is written, and what is merged.
use k8sgrowthbook_controller.Prelude.{true, not, ◌≡◌, refl, none, some, str}
use k8sgrowthbook_controller.Prelude.{text_eq}
use k8sgrowthbook_controller.Prelude.Dict.{Dict, lookup, insert, lookup-nil}
use k8sgrowthbook_controller.Prelude.Options.{is_some}
use k8sgrowthbook_controller.Api
use k8sgrowthbook_controller.Documents.Feature.{EnvironmentSetting, empty_feature}
use k8sgrowthbook_controller.Effects.Monitors.{Obeys}
use k8sgrowthbook_controller.Effects.Traces.{Ensures, Always}
use k8sgrowthbook_controller.Growthbook.User.{update_user, set_password}
use k8sgrowthbook_controller.Growthbook.Feature.{update_feature, merge_environments}
use k8sgrowthbook_controller.Growthbook.Feature.{entries, overlay, from_v1beta1}
use k8sgrowthbook_controller.Growthbook.Feature.{convert_rule, convert_rules, convert_environments}
use k8sgrowthbook_controller.Growthbook.Feature.{convert_environment}
use k8sgrowthbook_controller.Growthbook.SdkConnection.{update_sdk_connection}
use k8sgrowthbook_controller.Updates.Upserts.{nothing_yet, AnyEnd}
use k8sgrowthbook_controller.Updates.Connections.{Cleared}
use k8sgrowthbook_controller.Updates.Users.{user_writes, update_user_writes}
use k8sgrowthbook_controller.Updates.Features.{feature_writes, update_feature_writes}
use k8sgrowthbook_controller.Updates.Connections.{connection_writes, update_sdk_connection_writes}
use k8sgrowthbook_controller.Merging.Environments.{merged_over, lookup-merge_environments}
use k8sgrowthbook_controller.Merging.Settling.{overlay_settles}
use k8sgrowthbook_controller.Merging.Conversion.{is_some-from_v1beta1, has_dangling}
use k8sgrowthbook_controller.Keys.Passwords.{Anything, HasPassword, set_password-HasPassword}
use k8sgrowthbook_controller.Tests.Fixtures.{externals, db, user_ann}
use k8sgrowthbook_controller.Tests.Fixtures.{connection_web, feature_dark_mode, existing_dark_mode}
use k8sgrowthbook_controller.Tests.Fixtures.{dark_mode}

update_user_writes_example :
    Obeys (user_writes user_ann db) AnyEnd nothing_yet (update_user user_ann db)
update_user_writes_example = update_user_writes user_ann db

update_feature_writes_example :
    Obeys
      (feature_writes feature_dark_mode db)
      AnyEnd
      nothing_yet
      (update_feature feature_dark_mode db)
update_feature_writes_example =
    update_feature_writes feature_dark_mode db (lookup-nil (str "dev"), tt)

update_sdk_connection_writes_example :
    Obeys
      (connection_writes connection_web db)
      Cleared
      nothing_yet
      (update_sdk_connection connection_web db)
update_sdk_connection_writes_example = update_sdk_connection_writes connection_web db

set_password-HasPassword_example :
    Ensures Anything
      (HasPassword externals.scrypt_key user_ann (str "secret"))
      Always
      (set_password externals.scrypt_key user_ann db (str "secret"))
set_password-HasPassword_example =
    set_password-HasPassword externals.scrypt_key user_ann (str "secret") db

abbrev before : Dict EnvironmentSetting
before = entries existing_dark_mode.environment_settings

abbrev wanted : Dict EnvironmentSetting
wanted = entries feature_dark_mode.environment_settings

lookup-merge_environments_example :
    lookup (str "prod") (merge_environments before wanted)
    ≡ merged_over (lookup (str "prod") before) (lookup (str "prod") wanted)
lookup-merge_environments_example =
    lookup-merge_environments (str "prod") before wanted (lookup-nil (str "dev"), tt)

-- The specification's settings, converted.
pub converted :
    from_v1beta1 externals.parse_float empty_feature (dark_mode none) ≡ some feature_dark_mode
unfolding from_v1beta1 convert_environments convert_environment convert_rules convert_rule
    Api.Feature.get_id Api.Meta.or_name insert
converted = refl

overlay_settles_example :
    overlay (overlay existing_dark_mode feature_dark_mode) feature_dark_mode
    ≡ overlay existing_dark_mode feature_dark_mode
overlay_settles_example =
    overlay_settles externals.parse_float empty_feature feature_dark_mode existing_dark_mode
      (dark_mode none) converted

is_some-from_v1beta1_example :
    is_some (from_v1beta1 externals.parse_float empty_feature (dark_mode (some (str "2"))))
    ≡ not (has_dangling (dark_mode (some (str "2"))).spec.environments)
is_some-from_v1beta1_example =
    is_some-from_v1beta1 externals.parse_float empty_feature (dark_mode (some (str "2")))

-- A bucket version without a minimal one does panic.
bucket_version_panics : has_dangling (dark_mode (some (str "2"))).spec.environments ≡ true
unfolding has_dangling
bucket_version_panics = refl
