-- ===== src/Controller/Catalog.antt =====
-- `updateResourceCatalog`: the instance's list of the resources that belong to it.
use native.Mathlib.Decide.{ℕ_discrete}
use k8sgrowthbook_controller.Prelude.{List, [], ◌∷◌, ◌++◌, GoString, str}
use k8sgrowthbook_controller.Prelude.{Eq, contains, if◌then◌else◌}
use k8sgrowthbook_controller.Api
use k8sgrowthbook_controller.Api.Meta.{Object}
use k8sgrowthbook_controller.Api.User.{GrowthbookUser}
use k8sgrowthbook_controller.Api.Organization.{GrowthbookOrganization}
use k8sgrowthbook_controller.Api.Client.{GrowthbookClient}
use k8sgrowthbook_controller.Api.Feature.{GrowthbookFeature}
use k8sgrowthbook_controller.Api.Instance.{GrowthbookInstance, ResourceReference}

-- A `client.Object` that is one of the four kinds of resources.
pub data Resource : Type 0 where
  user_resource : GrowthbookUser → Resource
  organization_resource : GrowthbookOrganization → Resource
  feature_resource : GrowthbookFeature → Resource
  client_resource : GrowthbookClient → Resource

abbrev pub object_of : Resource → Object
object_of (user_resource u) = u.object
object_of (organization_resource o) = o.object
object_of (feature_resource f) = f.object
object_of (client_resource c) = c.object

-- `resource.GetName()`: three of the kinds have a `GetName` of their own, which hides metav1's.
unfoldable pub resource_name : Resource → GoString
resource_name (user_resource u) = Api.User.get_name u
resource_name (organization_resource o) = Api.Organization.get_name o
resource_name (feature_resource f) = f.object.object_meta.name
resource_name (client_resource c) = Api.Client.get_name c

unfoldable pub resource_reference : Resource → ResourceReference
unfolding resource_name
resource_reference r =
    let meta = (object_of r).type_meta in
    record {
      kind = meta.kind;
      name = resource_name r;
      api_version = meta.group ++ (str "/" ++ meta.version);
    }

reference_dec : Discrete ResourceReference
reference_dec = hlevel ℕ_discrete

instance unfoldable pub reference_eq : Eq ResourceReference
unfolding reference_dec ℕ_discrete
reference_eq = record { dec = reference_dec }

abbrev pub set_catalog : GrowthbookInstance → List ResourceReference → GrowthbookInstance
set_catalog i catalog = record i { status = record i.status { sub_resource_catalog = catalog } }

unfoldable pub update_resource_catalog : GrowthbookInstance → Resource → GrowthbookInstance
unfolding resource_reference
update_resource_catalog i r =
    let ref = resource_reference r in
    if contains ref i.status.sub_resource_catalog
    then i
    else set_catalog i (i.status.sub_resource_catalog ++ ref ∷ [])
