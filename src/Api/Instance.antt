-- ===== src/Api/Instance.antt =====
-- growthbookinstance_types.go, and `setResourceCondition` of meta.go.
use k8sgrowthbook_controller.Prelude.{Bool, Option, List, GoString, ℤ}
use k8sgrowthbook_controller.Api.Meta.{Object, LabelSelector, SecretReference, Duration}
use k8sgrowthbook_controller.Api.Meta.{Condition, ConditionStatus, condition_true, condition_false}
use k8sgrowthbook_controller.Api.Meta.{ready_condition}

pub record GrowthbookInstanceMongoDb : Type 0 where
  pub uri : GoString
  pub secret : Option SecretReference

pub record GrowthbookInstanceSpec : Type 0 where
  pub mongo_db : GrowthbookInstanceMongoDb
  pub interval : Option Duration
  pub prune : Bool
  pub timeout : Option Duration
  pub suspend : Bool
  pub resource_selector : Option LabelSelector

pub record ResourceReference : Type 0 where
  pub kind : GoString
  pub name : GoString
  pub api_version : GoString

pub record GrowthbookInstanceStatus : Type 0 where
  pub conditions : List Condition
  pub observed_generation : ℤ
  pub last_reconcile_duration : Duration
  pub sub_resource_catalog : List ResourceReference

pub record GrowthbookInstance : Type 0 where
  pub object : Object
  pub spec : GrowthbookInstanceSpec
  pub status : GrowthbookInstanceStatus

-- `apimeta.SetStatusCondition`, of the API machinery.
abbrev pub SetStatusCondition : Type 0
SetStatusCondition = List Condition → Condition → List Condition

module _ (set_status_condition : SetStatusCondition) where
  unfoldable pub set_resource_condition :
      GrowthbookInstance → GoString → ConditionStatus → GoString → GoString → GrowthbookInstance
  set_resource_condition i condition status reason message =
      let new_condition : Condition = record {
        type = condition;
        status = status;
        reason = reason;
        message = message;
      } in
      record i {
        status = record i.status {
          conditions = set_status_condition i.status.conditions new_condition;
        };
      }

  unfoldable pub growthbook_instance_not_ready :
      GrowthbookInstance → GoString → GoString → GrowthbookInstance
  unfolding set_resource_condition
  growthbook_instance_not_ready clone reason message =
      set_resource_condition clone ready_condition condition_false reason message

  unfoldable pub growthbook_instance_ready :
      GrowthbookInstance → GoString → GoString → GrowthbookInstance
  unfolding set_resource_condition
  growthbook_instance_ready clone reason message =
      set_resource_condition clone ready_condition condition_true reason message
