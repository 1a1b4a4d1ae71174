-- ===== src/Controller/Features.antt =====
-- `reconcileFeatures`
use k8sgrowthbook_controller.Prelude.{map, str, if◌then◌else◌}
use k8sgrowthbook_controller.Api
use k8sgrowthbook_controller.Api.Organization.{GrowthbookOrganization}
use k8sgrowthbook_controller.Api.Feature.{GrowthbookFeature}
use k8sgrowthbook_controller.Api.Instance.{GrowthbookInstance}
use k8sgrowthbook_controller.Documents.Feature.{Feature, empty_feature}
use k8sgrowthbook_controller.Effects.{Error, Prog, ret, call, ◌>>=◌, ◌>>◌, from_result, or_panic}
use k8sgrowthbook_controller.Effects.{Database, Selector, list_features}
use k8sgrowthbook_controller.Growthbook.Feature.{from_v1beta1, update_feature, delete_feature}
use k8sgrowthbook_controller.Controller.Externals.{Externals, Stop}
use k8sgrowthbook_controller.Controller.Catalog.{feature_resource}
use k8sgrowthbook_controller.Controller.Resources.{stopping, for_each, both_live, selector_of}
use k8sgrowthbook_controller.Controller.Resources.{register_live, retire}

-- `growthbook.Feature{Owner: owner, Organization: org.GetID()}`
abbrev pub feature_of : GrowthbookOrganization → Feature
feature_of org = record empty_feature {
  owner = str "growthbook-controller";
  organization = Api.Organization.get_id org;
}

module _ (x : Externals) where
  -- The selector that features and clients are listed by. `selector.Add(req...)` returns a new
  -- selector, and the code drops it.
  unfoldable pub combined_selector :
      GrowthbookInstance → GrowthbookOrganization → Prog Error Selector
  combined_selector i org = do
    selector ← selector_of x org.spec.resource_selector
    instance_selector ← selector_of x i.spec.resource_selector
    let dropped = x.add selector (x.requirements instance_selector)
    ret selector

module _ (x : Externals) (db : Database) where
  -- The body of the second loop.
  unfoldable pub reconcile_feature :
      GrowthbookInstance → GrowthbookOrganization → GrowthbookFeature → Prog Error Unit
  reconcile_feature i org feature = do
    f ← or_panic (from_v1beta1 x.parse_float (feature_of org) feature)
    if both_live i feature.object
        then update_feature f db
        else retire x i feature.object (delete_feature f db)

  unfoldable pub reconcile_features :
      GrowthbookInstance → GrowthbookOrganization → Prog Stop GrowthbookInstance
  unfolding reconcile_feature combined_selector
  reconcile_features i org = do
    selector ← stopping i (combined_selector x i org)
    features ← stopping i (call (list_features i.object.object_meta.namespace selector) from_result)
    i' ← register_live x (map feature_resource features) i
    stopping i' (for_each (reconcile_feature i' org) features)
    ret i'
