-- ===== src/Tests/Values.antt =====
-- Tests of keys and tokens.
use k8sgrowthbook_controller.Prelude.{true, ◌≡◌, refl, some, [], ◌∷◌, str, ◌++◌}
use k8sgrowthbook_controller.Prelude.{◌↔◌, ◌⊎◌, ◌≤◌, text_eq}
use k8sgrowthbook_controller.Prelude.Options.{is_some}
use k8sgrowthbook_controller.Controller.Tokens.{slice_to, sdk_key}
use k8sgrowthbook_controller.Growthbook.SdkConnection.{key_text}
use k8sgrowthbook_controller.Keys.Tokens.{length, is_some-sdk_key, sdk_key_lem}
use k8sgrowthbook_controller.Keys.Random.{all_alphanumeric, all_alphanumeric-key_text}

is_some-sdk_key_example : (is_some (sdk_key (str "abc")) ≡ true) ↔ (4 ≤ length (str "abc"))
is_some-sdk_key_example = is_some-sdk_key (str "abc")

keyed : sdk_key (str "abcd") ≡ some (str "sdk-abcd")
unfolding sdk_key slice_to str text_eq
keyed = refl

sdk_key_lem_example :
    (slice_to 4 (str "sdk-abcd") ≡ some (str "sdk-"))
    × (sdk_key (str "sdk-abcd") ≡ some (str "sdk-abcd"))
    × (((str "sdk-abcd" ≡ str "abcd") × (slice_to 4 (str "abcd") ≡ some (str "sdk-")))
        ⊎ ((str "sdk-abcd" ≡ str "sdk-" ++ str "abcd")
            × ¬ (slice_to 4 (str "abcd") ≡ some (str "sdk-"))))
sdk_key_lem_example = sdk_key_lem (str "abcd") (str "sdk-abcd") keyed

all_alphanumeric-key_text_example : all_alphanumeric (key_text [] (251 ∷ 255 ∷ [])) ≡ true
all_alphanumeric-key_text_example = all_alphanumeric-key_text [] (251 ∷ 255 ∷ []) refl
