-- ===== src/Controller/Objects.antt =====
-- `patch`, `patchStatus`, `addFinalizer`, `removeFinalizer` and `objectKey`.
use k8sgrowthbook_controller.Prelude.{◌++◌, GoString, str, List, if◌then◌else◌}
use k8sgrowthbook_controller.Api.Meta.{Object, ObjectKey, is_live, finalizer}
use k8sgrowthbook_controller.Api.Instance.{GrowthbookInstance}
use k8sgrowthbook_controller.Effects.{Error, Prog, ret, call, ◌>>=◌, from_result, done}
use k8sgrowthbook_controller.Effects.{get_object, patch_object, get_instance, patch_instance_status}
use k8sgrowthbook_controller.Controller.Externals.{Externals}

unfoldable pub object_key : Object → ObjectKey
object_key o = record { namespace = o.object_meta.namespace; name = o.object_meta.name }

-- A merge patch of the object against what the server has now.
unfoldable pub patch : Object → Prog Error Unit
unfolding object_key
patch obj = do
  latest ← call (get_object obj.type_meta (object_key obj)) from_result
  call (patch_object obj latest) done

unfoldable pub patch_status : GrowthbookInstance → Prog Error Unit
unfolding object_key
patch_status i = do
  latest ← call (get_instance (object_key i.object)) from_result
  call (patch_instance_status i latest) done

-- The finalizer that an instance puts on its resources.
unfoldable pub finalizer_name : GrowthbookInstance → GoString
finalizer_name i =
    finalizer
    ++ (str "/" ++ (i.object.object_meta.name ++ (str "." ++ i.object.object_meta.namespace)))

abbrev pub with_finalizers : Object → List GoString → Object
with_finalizers obj finalizers = record obj {
  object_meta = record obj.object_meta { finalizers = finalizers };
}

module _ (x : Externals) where
  unfoldable pub add_finalizer : GoString → Object → Prog Error Unit
  unfolding patch
  add_finalizer name obj =
      if is_live obj
      then patch (with_finalizers obj (x.add_finalizer obj.object_meta.finalizers name))
      else ret tt

  unfoldable pub remove_finalizer : GoString → Object → Prog Error Unit
  unfolding patch
  remove_finalizer name obj =
      patch (with_finalizers obj (x.remove_finalizer obj.object_meta.finalizers name))
