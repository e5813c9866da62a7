-- ===== src/Chromesweep/Objects.antt =====
-- The Kubernetes objects that chromesweep handles, with the fields that its code reads or writes.
-- `rest` stands for all others, which it passes on. A nil map, slice or pointer is `none`.
use gubal.Common.{ℕ, Bool, List, [], ◌∷◌, Option, none, some, Bytes, ◌==◌, if◌then◌else◌}

abbrev pub Labels : Type 0
Labels = List (Bytes × Bytes)

-- m[key] = value
unfoldable pub set_key : Bytes → Bytes → Labels → Labels
set_key key value [] = (key, value) ∷ []
set_key key value ((k, v) ∷ m) = if k == key then (key, value) ∷ m else (k, v) ∷ set_key key value m

unfoldable pub get_key : Bytes → Labels → Option Bytes
get_key key [] = none
get_key key ((k, v) ∷ m) = if k == key then some v else get_key key m

-- a map that is nil is first made
abbrev pub made : Option Labels → Labels
made none = []
made (some m) = m

pub data SelectorOperator : Type 0 where
  op_in op_not_in op_exists op_does_not_exist : SelectorOperator

-- one of matchExpressions
pub record LabelRequirement : Type 0 where
  pub key : Bytes
  pub operator : SelectorOperator
  pub values : List Bytes

pub record LabelSelector : Type 0 where
  pub match_labels : Option Labels
  pub match_expressions : List LabelRequirement

pub record ObjectMeta : Type 0 where
  pub name : Bytes
  pub namespace : Bytes
  pub labels : Option Labels
  pub resource_version : Bytes

pub record EnvVar : Type 0 where
  pub name : Bytes
  pub value : Bytes
  pub value_from : Option Bytes

pub record VolumeMount : Type 0 where
  pub name : Bytes
  pub mount_path : Bytes
  pub read_only : Bool
  pub rest : Bytes

pub data VolumeSource : Type 0 where
  config_map claim other_source : Bytes → VolumeSource

pub record Volume : Type 0 where
  pub name : Bytes
  pub source : VolumeSource

pub record Container : Type 0 where
  pub name : Bytes
  pub image : Bytes
  pub args : List Bytes
  pub env : List EnvVar
  pub volume_mounts : List VolumeMount
  pub rest : Bytes

pub record PodTemplate : Type 0 where
  pub labels : Option Labels
  pub containers : List Container
  pub volumes : List Volume
  pub rest : Bytes

pub record Deployment : Type 0 where
  pub meta : ObjectMeta
  pub replicas : Option ℕ
  pub selector : Option LabelSelector
  pub template : PodTemplate
  pub generation : ℕ
  pub observed_generation : ℕ
  pub updated_replicas : ℕ
  pub available_replicas : ℕ
  pub unavailable_replicas : ℕ
  pub rest : Bytes

pub record Service : Type 0 where
  pub meta : ObjectMeta
  pub selector : Option Labels
  pub rest : Bytes

pub record NetworkPolicy : Type 0 where
  pub meta : ObjectMeta
  pub pod_selector : LabelSelector
  pub rest : Bytes

pub data ConditionType : Type 0 where
  job_complete job_failed other_condition : ConditionType

pub record JobCondition : Type 0 where
  pub kind : ConditionType
  -- the status is ConditionTrue
  pub is_true : Bool

pub record Job : Type 0 where
  pub meta : ObjectMeta
  pub containers : List Container
  pub conditions : List JobCondition
  pub rest : Bytes

pub record Pod : Type 0 where
  pub meta : ObjectMeta
  pub created : ℕ
  pub running : Bool
  pub containers : List Container
  pub volumes : List Volume
  pub rest : Bytes

pub record ConfigMap : Type 0 where
  pub meta : ObjectMeta
  pub content : Labels
