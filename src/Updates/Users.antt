-- ===== src/Updates/Users.antt =====
-- `UpdateUser`.
use k8sgrowthbook_controller.Prelude.{◌≡◌, refl, some, false, Bytes, ◌==◌, text_eq, if◌then◌else◌}
use k8sgrowthbook_controller.Documents.User.{User}
use k8sgrowthbook_controller.Effects.{
  ret, ok, err, Database, Document, user_document, ◌>>=◌, attempt,
}
use k8sgrowthbook_controller.Effects.{from_result, done}
use k8sgrowthbook_controller.Effects.Monitors.{Monitor, Obeys}
use k8sgrowthbook_controller.Storage.{find_one, insert_one, update_one, by_id, set_document}
use k8sgrowthbook_controller.Growthbook.User.{users, update_user, overlay}
use k8sgrowthbook_controller.Updates.Upserts.{
  Watched, upserting, NoClears, nothing_yet, AnyEnd, Obeys-if,
}

-- The written user has the specification's identity and the document's password and revision.
pub record IsOverUser (user existing v : User) : Type 0 where
  pub id : v.id ≡ user.id
  pub email : v.email ≡ user.email
  pub name : v.name ≡ user.name
  pub password_hash : v.password_hash ≡ existing.password_hash
  pub revision : v.revision ≡ existing.revision

abbrev pub OverUser : User → Document → Document → Type 0
OverUser user (user_document existing) (user_document v) = IsOverUser user existing v
OverUser user _ _ = ⊥

overlay-IsOverUser : (existing user : User) → IsOverUser user existing (overlay existing user)
unfolding overlay
overlay-IsOverUser existing user = record {
  id = refl;
  email = refl;
  name = refl;
  password_hash = refl;
  revision = refl;
}

abbrev pub user_writes : User → Database → Monitor Watched
user_writes u db = upserting (users db) u.id (λ d. d ≡ user_document u) (OverUser u) NoClears

-- The end of an update, with the user decoded and the bytes of the outcome at hand.
finish :
    (u existing : User) (db : Database) (before after : Bytes)
    → Obeys
        (user_writes u db)
        AnyEnd
        (record {
          found = some (user_document existing);
          marshalled = some (user_document (overlay existing u), after);
          written = false;
          stale = false;
        })
        (if before == after
          then ret tt
          else update_one (users db) (by_id u.id) (set_document after))
unfolding update_one done
finish u existing db before after =
    Obeys-if (user_writes u db) AnyEnd _ (before == after) (ret tt)
      (update_one (users db) (by_id u.id) (set_document after)) tt
      ((refl, refl, refl, (refl, overlay-IsOverUser existing u)), elim [ err e ↦ tt | ok n ↦ tt ])

-- Whatever the database replies, `UpdateUser` writes once at most, to the users alone. It inserts
-- the user as given only where none was decoded. Otherwise it sets, on the document with the
-- user's ID, the bytes of a user with the ID, email and name given and the password hash and
-- revision of the user decoded.
pub update_user_writes :
    (u : User) (db : Database) → Obeys (user_writes u db) AnyEnd nothing_yet (update_user u db)
unfolding update_user find_one insert_one ◌>>=◌ attempt from_result done
update_user_writes u db = (
  tt,
  elim [
    | err e ↦ ((refl, refl, refl, refl), elim [ err e ↦ tt | ok n ↦ tt ])
    | ok found ↦ (
      tt,
      elim [
        | err e ↦ tt
        | ok existing ↦ (
          tt,
          elim [
            | err e ↦ tt
            | ok before ↦ (tt, elim [ err e ↦ tt | ok after ↦ finish u existing db before after ])
          ],
        )
      ],
    )
  ],
)
