-- ===== src/Documents/Organization.antt =====
-- `Organization` of internal/growthbook/organization.go
use k8sgrowthbook_controller.Prelude.{GoString, Slice, ℤ, pos, none, []}
use k8sgrowthbook_controller.Api.Meta.{Time}

pub record OrganizationMember : Type 0 where
  pub id : GoString
  pub role : GoString

pub record Organization : Type 0 where
  pub id : GoString
  pub owner_email : GoString
  pub name : GoString
  pub date_created : Time
  pub members : Slice OrganizationMember
  pub revision : ℤ

-- `Organization{}`
abbrev pub empty_organization : Organization
empty_organization = record {
  id = [];
  owner_email = [];
  name = [];
  date_created = 0;
  members = none;
  revision = pos 0;
}
