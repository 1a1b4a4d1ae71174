-- ===== src/Growthbook/User.antt =====
-- internal/growthbook/user.go
use k8sgrowthbook_controller.Prelude.{ℕ, Bool, true, false, ◌||◌, ◌++◌, GoString, Bytes, str}
use k8sgrowthbook_controller.Prelude.{is_empty, ◌==◌, text_eq, if◌then◌else◌}
use k8sgrowthbook_controller.Api.User.{GrowthbookUser, get_id, get_name}
use k8sgrowthbook_controller.Documents.User.{User, empty_user}
use k8sgrowthbook_controller.Effects.{Error, Result, ok, err, Prog, ret, call, ◌>>=◌, attempt}
use k8sgrowthbook_controller.Effects.{from_result, Database, Collection, Filter, user_document}
use k8sgrowthbook_controller.Effects.{decode_user, marshal, rand_read}
use k8sgrowthbook_controller.Storage.{collection, find_one, insert_one, update_one, delete_one}
use k8sgrowthbook_controller.Storage.{by_id, set_document}
use k8sgrowthbook_controller.Growthbook.Encoding.{hex_encode, split, first}

abbrev pub salt_len : ℕ
salt_len = 16

abbrev pub hash_len : ℕ
hash_len = 64

-- `db.Collection("users")`
unfoldable pub users : Database → Collection
unfolding collection
users db = collection db (str "users")

unfoldable pub from_v1beta1 : User → GrowthbookUser → User
from_v1beta1 u user = record u { name = get_name user; id = get_id user; email = user.spec.email }

-- `scrypt.Key(password, salt, N, r, p, keyLen)` of golang.org/x/crypto.
abbrev pub ScryptKey : Type 0
ScryptKey = Bytes → Bytes → ℕ → ℕ → ℕ → ℕ → Result Error Bytes

-- `existing` of `SetPassword`: the document if one was found, and the zero value if not.
unfoldable pub decode_existing : Result Error Bytes → Prog Error User
decode_existing (err _) = ret empty_user
decode_existing (ok found) = call (decode_user found) from_result

-- A new random salt.
unfoldable pub new_salt : Prog Error GoString
new_salt = do buf ← call (rand_read salt_len) from_result; ret (hex_encode buf)

abbrev pub is_error : Result Error Bytes → Bool
is_error (ok _) = false
is_error (err _) = true

-- The salt in use, if there is one, and a new one if not.
unfoldable pub choose_salt : Result Error Bytes → User → Prog Error GoString
unfolding new_salt
choose_salt found existing =
    let stored = first (split b':' existing.password_hash) in
    if is_error found || is_empty stored then new_salt else ret stored

module _ (scrypt_key : ScryptKey) where
  -- The method changes `PasswordHash` of its receiver and nothing else.
  unfoldable pub set_password : User → Database → GoString → Prog Error User
  unfolding users decode_existing choose_salt
  set_password u db password = attempt (find_one (users db) (by_id u.id)) λ found. do
    existing ← decode_existing found
    salt ← choose_salt found existing
    p ← from_result (scrypt_key password salt 16384 8 1 hash_len)
    ret (record u { password_hash = salt ++ (str ":" ++ hex_encode p) })

unfoldable pub delete_user : User → Database → Prog Error Unit
unfolding users
delete_user user db = delete_one (users db) (by_id user.id)

-- The fields of an existing document that the controller sets.
unfoldable pub overlay : User → User → User
overlay existing user = record existing { id = user.id; email = user.email; name = user.name }

-- `UpdateUser` after `FindOne`.
unfoldable pub update_found : Collection → Filter → User → Result Error Bytes → Prog Error Unit
update_found col filter user (err _) = insert_one col (user_document user)
update_found col filter user (ok found) = do
  existing ← call (decode_user found) from_result
  existing_bson ← call (marshal (user_document existing)) from_result
  update_bson ← call (marshal (user_document (overlay existing user))) from_result
  if existing_bson == update_bson then ret tt else update_one col filter (set_document update_bson)

unfoldable pub update_user : User → Database → Prog Error Unit
unfolding users update_found
update_user user db =
    attempt (find_one (users db) (by_id user.id)) (update_found (users db) (by_id user.id) user)
