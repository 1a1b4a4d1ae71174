-- ===== src/Api/Meta.antt =====
-- meta.go, and what the resources embed of metav1: TypeMeta, ObjectMeta, LabelSelector, Condition.
use k8sgrowthbook_controller.Prelude.{ℕ, zero, Bool, true, false, Option, none, some, List}
use k8sgrowthbook_controller.Prelude.{GoString, str, ℤ, is_empty}
use k8sgrowthbook_controller.Prelude.Dict.{Dict}

-- An instant; 0 is the zero `time.Time`.
abbrev pub Time : Type 0
Time = ℕ

abbrev pub Duration : Type 0
Duration = ℤ

-- The group, version and kind that `GetObjectKind().GroupVersionKind()` returns.
pub record TypeMeta : Type 0 where
  pub group : GoString
  pub version : GoString
  pub kind : GoString

pub record ObjectMeta : Type 0 where
  pub name : GoString
  pub namespace : GoString
  pub labels : Dict GoString
  pub finalizers : List GoString
  pub deletion_timestamp : Option Time
  pub generation : ℤ

-- `metav1.PartialObjectMetadata`, and what every resource embeds.
pub record Object : Type 0 where
  pub type_meta : TypeMeta
  pub object_meta : ObjectMeta

-- `DeletionTimestamp.IsZero()`
abbrev pub is_zero : Option Time → Bool
is_zero none = true
is_zero (some zero) = true
is_zero (some _) = false

-- The object is not being deleted.
abbrev pub is_live : Object → Bool
is_live o = is_zero o.object_meta.deletion_timestamp

pub record ObjectKey : Type 0 where
  pub namespace : GoString
  pub name : GoString

pub record LabelSelectorRequirement : Type 0 where
  pub key : GoString
  pub operator : GoString
  pub values : List GoString

pub record LabelSelector : Type 0 where
  pub match_labels : Dict GoString
  pub match_expressions : List LabelSelectorRequirement

pub record SecretReference : Type 0 where
  pub name : GoString
  pub user_field : GoString
  pub password_field : GoString

pub data ConditionStatus : Type 0 where
  condition_true condition_false condition_unknown : ConditionStatus

pub record Condition : Type 0 where
  pub type : GoString
  pub status : ConditionStatus
  pub reason : GoString
  pub message : GoString

abbrev pub ready_condition : GoString
ready_condition = str "Ready"

abbrev pub synchronized_reason : GoString
synchronized_reason = str "Synchronized"

abbrev pub progressing_reason : GoString
progressing_reason = str "Progressing"

abbrev pub failed_reason : GoString
failed_reason = str "Failed"

abbrev pub finalizer : GoString
finalizer = str "finalizers.doodle.com"

-- The getters' rule: the value of the spec, or the resource's name where that is "".
unfoldable pub or_name : GoString → GoString → GoString
or_name value name = elim (is_empty value) [ true ↦ name | false ↦ value ]
