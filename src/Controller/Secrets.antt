-- ===== src/Controller/Secrets.antt =====
-- `getSecret`, `getClientToken`, `getUsernamePassword` and `getOptionalUsernamePassword`.
use k8sgrowthbook_controller.Prelude.{Option, none, some}
use k8sgrowthbook_controller.Prelude.{[], GoString, str, is_empty}
use k8sgrowthbook_controller.Prelude.{text_eq, if◌then◌else◌}
use k8sgrowthbook_controller.Prelude.Dict.{lookup}
use k8sgrowthbook_controller.Api.Meta.{ObjectKey, SecretReference}
use k8sgrowthbook_controller.Api.Client.{GrowthbookClient, TokenSecretReference}
use k8sgrowthbook_controller.Api.Instance.{GrowthbookInstance}
use k8sgrowthbook_controller.Effects.{Error, errors_new, wrapped, Prog, ret, fail, call, ◌>>=◌}
use k8sgrowthbook_controller.Effects.{
  from_result, failing_as, Secret, get_secret as get_secret_call,
}

unfoldable pub get_secret : ObjectKey → Prog Error Secret
get_secret ref =
    failing_as (wrapped (str "referencing secret was not found"))
      (call (get_secret_call ref) from_result)

-- `if val, ok := ...; !ok { return "", errors.New(message) }`
unfoldable pub or_fail : GoString → Option GoString → Prog Error GoString
or_fail message none = fail (errors_new message)
or_fail message (some val) = ret val

-- `secret.Data[field]`, or an error.
unfoldable pub field_or : GoString → Secret → GoString → Prog Error GoString
unfolding or_fail
field_or message secret field = or_fail message (lookup field secret.values)

-- `secret.Data[field]`, or "".
unfoldable pub field_or_empty : Secret → GoString → GoString
field_or_empty secret field = elim (lookup field secret.values) [ none ↦ [] | some val ↦ val ]

abbrev pub token_field_name : TokenSecretReference → GoString
token_field_name ref = if is_empty ref.token_field then str "token" else ref.token_field

unfoldable pub client_token_from : GoString → Option TokenSecretReference → Prog Error GoString
client_token_from namespace none = fail (errors_new (str "no secret reference provided"))
client_token_from namespace (some ref) = do
  secret ← get_secret (record { namespace = namespace; name = ref.name })
  field_or (str "defined token field not found in secret") secret (token_field_name ref)

unfoldable pub get_client_token : GrowthbookClient → Prog Error GoString
unfolding client_token_from
get_client_token client =
    client_token_from client.object.object_meta.namespace client.spec.token_secret

-- Both fields have to be there.
unfoldable pub get_username_password :
    GrowthbookInstance → Option SecretReference → Prog Error (GoString × GoString)
unfolding get_secret field_or
get_username_password i none = fail (errors_new (str "no secret reference provided"))
get_username_password i (some ref) = do
  secret ← get_secret (record { namespace = i.object.object_meta.namespace; name = ref.name })
  user ← field_or (str "defined username field not found in secret") secret ref.user_field
  pw ← field_or (str "defined password field not found in secret") secret ref.password_field
  ret (user, pw)

-- The user name may be missing, and is "" then.
unfoldable pub get_optional_username_password :
    GrowthbookInstance → Option SecretReference → Prog Error (GoString × GoString)
unfolding get_secret field_or field_or_empty
get_optional_username_password i none = fail (errors_new (str "no secret reference provided"))
get_optional_username_password i (some ref) = do
  secret ← get_secret (record { namespace = i.object.object_meta.namespace; name = ref.name })
  pw ← field_or (str "defined password field not found in secret") secret ref.password_field
  ret (field_or_empty secret ref.user_field, pw)
