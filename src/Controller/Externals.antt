-- ===== src/Controller/Externals.antt =====
-- The pure library functions that the controller calls: those of strconv and net/url, of
-- golang.org/x/crypto, of the Kubernetes API machinery and of controller-runtime.
use k8sgrowthbook_controller.Prelude.{ℕ, Option, List, GoString}
use k8sgrowthbook_controller.Api.Meta.{LabelSelector}
use k8sgrowthbook_controller.Api.Instance.{GrowthbookInstance, SetStatusCondition}
use k8sgrowthbook_controller.Effects.{Error, Result, Selector}
use k8sgrowthbook_controller.Growthbook.User.{ScryptKey}
use k8sgrowthbook_controller.Growthbook.Feature.{ParseFloat}

-- A `labels.Requirement`, of which the program sees nothing.
pub record Requirement : Type 0 where
  pub handle : ℕ

pub record Externals : Type 0 where
  pub parse_float : ParseFloat
  pub scrypt_key : ScryptKey
  -- the path of `url.Parse(uri)`
  pub parse_url_path : GoString → Result Error GoString
  -- `metav1.LabelSelectorAsSelector`; `Requirements` and `Add` of `labels.Selector`
  pub label_selector_as_selector : Option LabelSelector → Result Error Selector
  pub requirements : Selector → List Requirement
  pub add : Selector → List Requirement → Selector
  pub set_status_condition : SetStatusCondition
  -- `controllerutil.AddFinalizer` and `RemoveFinalizer`, on the list of finalizers
  pub add_finalizer : List GoString → GoString → List GoString
  pub remove_finalizer : List GoString → GoString → List GoString

-- What a method that returns the instance beside an error fails with.
abbrev pub Stop : Type 0
Stop = GrowthbookInstance × Error
