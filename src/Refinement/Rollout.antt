-- ===== src/Refinement/Rollout.antt =====
-- `reconcileFeatures` on a shelf of features and in a cluster.
use mathlib.Core.Option.{some-injective}
use mathlib.Core.Path.{subst}
use k8sgrowthbook_controller.Prelude.{◌≡◌, refl, Bool, true, false, Option, some, List, []}
use k8sgrowthbook_controller.Prelude.{GoString, Bytes, if◌then◌else◌}
use k8sgrowthbook_controller.Prelude.Options.{>>=-eq-some}
use k8sgrowthbook_controller.Api.Meta.{Object, ObjectKey}
use k8sgrowthbook_controller.Api.Organization.{GrowthbookOrganization}
use k8sgrowthbook_controller.Api.Feature.{GrowthbookFeature, get_id}
use k8sgrowthbook_controller.Api.Instance.{GrowthbookInstance}
use k8sgrowthbook_controller.Documents.Feature.{Feature}
use k8sgrowthbook_controller.Effects.{Error, ok, Database, Selector, list_features}
use k8sgrowthbook_controller.Effects.{call, from_result, or_panic, ◌>>=◌, Prog}
use k8sgrowthbook_controller.Effects.Runs.{Handler, run, run-call}
use k8sgrowthbook_controller.Growthbook.Feature.{features, from_v1beta1, convert_environments}
use k8sgrowthbook_controller.Growthbook.Feature.{update_feature, delete_feature, ParseFloat}
use k8sgrowthbook_controller.Controller.Catalog.{feature_resource}
use k8sgrowthbook_controller.Controller.Externals.{Externals}
use k8sgrowthbook_controller.Controller.Resources.{both_live, retire}
use k8sgrowthbook_controller.Controller.Features.{feature_of, combined_selector, reconcile_feature}
use k8sgrowthbook_controller.Controller.Features.{reconcile_features}
use k8sgrowthbook_controller.Refinement.FeatureShelf.{IsFeatureShelf}
use k8sgrowthbook_controller.Refinement.Features.{AfterFeature, update_feature_refines}
use k8sgrowthbook_controller.Refinement.Cluster.{IsCluster}
use k8sgrowthbook_controller.Refinement.Registration.{with_status}
use k8sgrowthbook_controller.Refinement.Retirement.{retire-Retired}
use k8sgrowthbook_controller.Refinement.Loops.{Line, AllReady, Changes, Does}
use k8sgrowthbook_controller.Refinement.Handling.{Reconciles, handling-Reconciles}
use k8sgrowthbook_controller.Refinement.Selecting.{run-combined_selector}

from_v1beta1-id :
    (parse_float : ParseFloat) (start f : Feature) (feature : GrowthbookFeature)
    → from_v1beta1 parse_float start feature ≡ some f
    → f.id ≡ get_id feature
unfolding from_v1beta1
from_v1beta1-id parse_float start f feature e =
    let (m, converted, done) =
      >>=-eq-some (convert_environments parse_float feature.spec.environments []) _ e in
    subst (λ (q : Feature). q.id ≡ get_id feature) (some-injective _ _ done) refl

module _ (x : Externals) (i : GrowthbookInstance) (org : GrowthbookOrganization) where
  -- The specification can be converted, whether or not the feature stays.
  abbrev Converts : Bool → GrowthbookFeature → Type 0
  Converts live feature =
      (f : Feature) × (from_v1beta1 x.parse_float (feature_of org) feature ≡ some f)

  -- The features of an organization.
  abbrev pub feature_line : Line Feature GrowthbookFeature
  feature_line = record {
    live = λ feature. both_live i feature.object;
    prune = i.spec.prune;
    id = get_id;
    Ready = Converts;
    After = λ feature q. AfterFeature q.0;
  }

module _ {S : Type 0} (x : Externals) (db : Database) (h : Handler S) (no_documents : Error)
    (read : Bytes → Option Feature) (stored : GoString → S → Option Feature)
    (laws : IsFeatureShelf h (features db) no_documents read stored)
    (finalizers : ObjectKey → S → List GoString)
    (cluster : (obj : Object) → IsCluster h stored finalizers obj) where
  -- What is done with the feature once it is converted.
  abbrev placing : GrowthbookInstance → GrowthbookFeature → Feature → Prog Error Unit
  placing i feature f =
      if both_live i feature.object
      then update_feature f db
      else retire x i feature.object (delete_feature f db)

  placed :
      (i : GrowthbookInstance) (org : GrowthbookOrganization) (feature : GrowthbookFeature)
      (live : Bool) (q : Converts x i org live feature) (s : S)
      → both_live i feature.object ≡ live
      → Does stored
          (Changes (feature_line x i org) feature live q)
          s
          (run h (placing i feature q.0) s)
  unfolding delete_feature
  placed i org feature true (f, q) s e =
      let l =
        update_feature_refines db h no_documents read stored laws x.parse_float (feature_of org) f
          feature q s in
      let same = from_v1beta1-id x.parse_float (feature_of org) f feature q in
      rw (e, ← same) (l.ends, (l.outcome, l.holds, l.puts))
  placed i org feature false (f, q) s e =
      let r = retire-Retired laws.erasable (cluster feature.object) x i f.id s in
      let same = from_v1beta1-id x.parse_float (feature_of org) f feature q in
      rw (e, ← same) (r.ends, r.documents)

  one :
      (i : GrowthbookInstance) (org : GrowthbookOrganization) (feature : GrowthbookFeature)
      (q : Converts x i org (both_live i feature.object) feature) (s : S)
      → Does stored
          (Changes (feature_line x i org) feature (both_live i feature.object) q)
          s
          (run h (reconcile_feature x db i org feature) s)
  unfolding reconcile_feature or_panic ◌>>=◌
  one i org feature q s = rw q.1 (placed i org feature (both_live i feature.object) q s refl)

  module _ (i : GrowthbookInstance) (org : GrowthbookOrganization) (selector other : Selector)
      (fs : List GrowthbookFeature)
      (selects : x.label_selector_as_selector org.spec.resource_selector ≡ ok selector)
      (valid : x.label_selector_as_selector i.spec.resource_selector ≡ ok other)
      (listed : (s : S) → h (list_features i.object.object_meta.namespace selector) s ≡ (ok fs, s))
      (ready : AllReady (feature_line x i org) fs) where
    -- On a shelf of features, in a cluster that takes patches and lists `fs` for the selector of the
    -- organization, each of which can be converted, and with a valid selector of the instance,
    -- `reconcileFeatures` succeeds and returns the instance with at most another status. The map of
    -- features by their ID changes one listed feature after the other: one that stays, if the
    -- instance does too, is put in as `UpdateFeature` puts in the one converted for the
    -- organization; of any other the document goes if the instance prunes, and nothing changes if
    -- not.
    pub reconcile_features-Reconciles :
        (s : S)
        → Reconciles
            (feature_line x i org)
            stored
            i
            (λ j. j)
            fs
            ready
            s
            (run h (reconcile_features x db i org) s)
    unfolding reconcile_features from_result
    reconcile_features-Reconciles =
        handling-Reconciles x h stored finalizers cluster i (feature_line x i org) feature_resource
          (combined_selector x i org)
          (λ sel. call (list_features i.object.object_meta.namespace sel) from_result)
          (λ j. reconcile_feature x db j org) (λ fs j. j) selector fs
          (run-combined_selector x h i org selector other selects valid)
          (λ s.
            run-call h (list_features i.object.object_meta.namespace selector) from_result s s
              (ok fs) (listed s))
          (λ status f q s. one (with_status i status) org f q s) ready
