-- ===== src/Documents/User.antt =====
-- `User` of internal/growthbook/user.go
use k8sgrowthbook_controller.Prelude.{GoString, ℤ, pos, []}

pub record User : Type 0 where
  pub id : GoString
  pub email : GoString
  pub name : GoString
  pub password_hash : GoString
  pub revision : ℤ

-- `User{}`
abbrev pub empty_user : User
empty_user = record { id = []; email = []; name = []; password_hash = []; revision = pos 0 }
