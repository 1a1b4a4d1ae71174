-- ===== src/Refinement/Selecting.antt =====
-- How the handlers come by their resources: a selector, and a list.
use k8sgrowthbook_controller.Prelude.{◌≡◌, refl, Option}
use k8sgrowthbook_controller.Api.Meta.{LabelSelector}
use k8sgrowthbook_controller.Api.Organization.{GrowthbookOrganization}
use k8sgrowthbook_controller.Api.Instance.{GrowthbookInstance}
use k8sgrowthbook_controller.Effects.{ok, Selector, ◌>>=◌, from_result}
use k8sgrowthbook_controller.Effects.Runs.{Handler, run, returned}
use k8sgrowthbook_controller.Controller.Externals.{Externals}
use k8sgrowthbook_controller.Controller.Features.{combined_selector}
use k8sgrowthbook_controller.Controller.Resources.{selector_of}

module _ {S : Type 0} (x : Externals) (h : Handler S) where
  pub run-selector_of :
      {l : Option LabelSelector} {selector : Selector}
      → x.label_selector_as_selector l ≡ ok selector
      → (s : S) → run h (selector_of x l) s ≡ (returned selector, s)
  unfolding selector_of from_result
  run-selector_of e s = rw e refl

  -- The organization's selector is the one that counts, if the instance's is valid too.
  pub run-combined_selector :
      (i : GrowthbookInstance) (org : GrowthbookOrganization) (selector other : Selector)
      → x.label_selector_as_selector org.spec.resource_selector ≡ ok selector
      → x.label_selector_as_selector i.spec.resource_selector ≡ ok other
      → (s : S) → run h (combined_selector x i org) s ≡ (returned selector, s)
  unfolding combined_selector selector_of from_result ◌>>=◌
  run-combined_selector i org selector other e f s = rw (e, f) refl
