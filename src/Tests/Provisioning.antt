-- ===== src/Tests/Provisioning.antt =====
-- Tests of passwords, on a store in memory.
use k8sgrowthbook_controller.Prelude.{
  ◌≡◌, some, false, is_empty, arith, number_eq, refl, [], ◌∷◌, str,
}
use k8sgrowthbook_controller.Prelude.Dict.{Dict, lookup}
use k8sgrowthbook_controller.Documents.User.{User}
use k8sgrowthbook_controller.Effects.Runs.{run, returned}
use k8sgrowthbook_controller.Growthbook.Encoding.{split, hex_encode}
use k8sgrowthbook_controller.Growthbook.User.{users, set_password}
use k8sgrowthbook_controller.Keys.Passwords.{Verifies, salt_of}
use k8sgrowthbook_controller.Refinement.Passwords.{set_password_again, with_hash}
use k8sgrowthbook_controller.Tests.Encodings.{user_codec}
use k8sgrowthbook_controller.Tests.Memory.{refused, encode_by, user_memory, user_memory-IsShelf}
use k8sgrowthbook_controller.Tests.Fixtures.{externals, db, user_ann}

-- Ann with the hash that the library gives of her password.
abbrev hashed : User
hashed = record user_ann { password_hash = str "00ff:07c8" }

abbrev hashed_store : Dict User
hashed_store = (str "ann", hashed) ∷ []

verified : Verifies externals.scrypt_key (str "s3cret") hashed.password_hash
unfolding str split hex_encode number_eq
verified = record { digest = 7 ∷ 200 ∷ []; computed = refl; stored = refl }

hashed_is_there : lookup (str "ann") hashed_store ≡ some hashed
unfolding lookup
hashed_is_there = ground arith

has_salt : is_empty (salt_of hashed.password_hash) ≡ false
unfolding str split number_eq
has_salt = refl

set_password_again_example :
    run user_memory (set_password externals.scrypt_key user_ann db (str "s3cret")) hashed_store
    ≡ (returned (with_hash user_ann hashed.password_hash), hashed_store)
set_password_again_example =
    set_password_again db user_memory refused (encode_by user_codec) lookup
      (user_memory-IsShelf (users db)) externals.scrypt_key (str "s3cret") user_ann hashed
      hashed_store hashed_is_there verified has_salt
