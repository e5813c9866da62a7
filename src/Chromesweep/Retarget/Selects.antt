-- ===== src/Chromesweep/Retarget/Selects.antt =====
-- The retargeted objects of a version still belong together, and only to that version.
use gubal.Common.{
  true, false, List, [], ◌∷◌, ◌≡◌, ◌≢◌, refl, ap, sym, arith, Option, none, some, map, member,
  Bytes, ◌==◌, ==_iff, ==_refl, if◌then◌else◌, All, Bool-cases, inl, inr,
}
use gubal.Strings.{contains}
use mathlib.Core.Path.{ap₂}
use gubal.Strings.Search.{replace_all-of_not_contains}
use gubal.Chromesweep.Objects.{
  Labels, SelectorOperator, op_in, op_not_in, op_exists, op_does_not_exist, LabelRequirement,
  LabelSelector, set_key, get_key, made, Container, Deployment, Service, NetworkPolicy, Job,
}
use gubal.Chromesweep.Retarget.{
  app, set_app, filled, select_app, set_image, retarget_deployment, retarget_service,
  retarget_network_policy, with_port, retarget_arg, retarget_containers, retarget_job,
}

-- what the match labels of a selector select: a pod that has each of them
abbrev pub Selects : Labels → Labels → Type 0
Selects selector labels = (k v : Bytes) → get_key k selector ≡ some v → get_key k labels ≡ some v

-- what an operator of matchExpressions wants of a label that a pod has, or has not
abbrev pub Holds : SelectorOperator → List Bytes → Option Bytes → Type 0
Holds op_in values found = (v : Bytes) × (found ≡ some v) × (member v values ≡ true)
Holds op_not_in values found = (v : Bytes) → found ≡ some v → member v values ≡ false
Holds op_exists values found = (v : Bytes) × (found ≡ some v)
Holds op_does_not_exist values found = found ≡ none

abbrev Meets : LabelRequirement → Labels → Type 0
Meets r labels = Holds r.operator r.values (get_key r.key labels)

-- a LabelSelector selects the pods of which its match labels and its expressions all hold
abbrev pub SelectsPod : LabelSelector → Labels → Type 0
SelectsPod s labels =
    Selects (made s.match_labels) labels × All (λ r. Meets r labels) s.match_expressions

-- no expression of a selector is on the label "app"
abbrev pub LeavesApp : LabelSelector → Type 0
LeavesApp s = All (λ r. r.key ≢ app) s.match_expressions

get_key-set_key :
    (k j v : Bytes) (m : Labels)
    → get_key j (set_key k v m) ≡ (if k == j then some v else get_key j m)
unfolding get_key set_key
get_key-set_key k j v [] = refl
get_key-set_key k j v ((i, w) ∷ m) =
    ground (arith, ==_iff k j, ==_iff i k, ==_iff i j, get_key-set_key k j v m)

set_key-Selects :
    (k v : Bytes) (s l : Labels) → Selects s l → Selects (set_key k v s) (set_key k v l)
set_key-Selects k v s l h j u e =
    let e' = rw get_key-set_key at e in
    rw get_key-set_key (elim (Bool-cases (k == j)) [
      | inl same ↦ rw same (rw same at e')
      | inr ne ↦ rw ne (h j u (rw ne at e'))
    ])

set_app-Selects :
    (name : Bytes) (s l : Option Labels)
    → Selects (made s) (made l)
    → Selects (made (set_app name s)) (made (set_app name l))
unfolding set_app
set_app-Selects name s l h = set_key-Selects app name (made s) (made l) h

get_key-set_app :
    (name : Bytes) (l : Option Labels) → get_key app (made (set_app name l)) ≡ some name
unfolding set_app
get_key-set_app name l = rw (get_key-set_key app app name (made l), ==_refl app)

get_key-set_app_ne :
    (name k : Bytes) (l : Option Labels)
    → k ≢ app
    → get_key k (made (set_app name l)) ≡ get_key k (made l)
unfolding set_app
get_key-set_app_ne name k l ne =
    rw (get_key-set_key app k name (made l)) (elim (Bool-cases (app == k)) [
      | inl same ↦ absurd (ne (sym ((==_iff app k).0 same)))
      | inr e ↦ rw e refl
    ])

expressions-set_app :
    (name : Bytes) (rs : List LabelRequirement) (l : Option Labels)
    → All (λ r. r.key ≢ app) rs
    → All (λ r. Meets r (made l)) rs
    → All (λ r. Meets r (made (set_app name l))) rs
expressions-set_app name [] l _ _ = tt
expressions-set_app name (r ∷ rs) l (ne, nes) (m, ms) =
    (rw (get_key-set_app_ne name r.key l ne) m, expressions-set_app name rs l nes ms)

select_app-SelectsPod :
    (name : Bytes) (s : LabelSelector) (l : Option Labels)
    → LeavesApp s
    → SelectsPod s (made l)
    → SelectsPod (select_app name s) (made (set_app name l))
unfolding select_app
select_app-SelectsPod name s l a (h, ms) =
    (set_app-Selects name s.match_labels l h, expressions-set_app name s.match_expressions l a ms)

-- If the selectors of a Deployment, a Service and a NetworkPolicy select the Deployment's pods, and
-- no match expression of the first and the last is on the label "app", then so they do when the three
-- are retargeted to one name. A nil selector of the Deployment is taken as one that is empty.
pub retarget-Selects :
    (dep : Deployment) (svc : Service) (np : NetworkPolicy) (name container image : Bytes)
    → LeavesApp (filled dep.selector)
    → LeavesApp np.pod_selector
    → SelectsPod (filled dep.selector) (made dep.template.labels)
    → Selects (made svc.selector) (made dep.template.labels)
    → SelectsPod np.pod_selector (made dep.template.labels)
    → SelectsPod
        (filled (retarget_deployment dep name container image).selector)
        (made (retarget_deployment dep name container image).template.labels)
      × Selects
          (made (retarget_service svc name).selector)
          (made (retarget_deployment dep name container image).template.labels)
      × SelectsPod
          (retarget_network_policy np name).pod_selector
          (made (retarget_deployment dep name container image).template.labels)
retarget-Selects dep svc np name container image a b d s n =
    unfold retarget_deployment retarget_service retarget_network_policy in
    (
      select_app-SelectsPod name (filled dep.selector) dep.template.labels a d,
      set_app-Selects name svc.selector dep.template.labels s,
      select_app-SelectsPod name np.pod_selector dep.template.labels b n,
    )

-- No retargeted selector selects the pods of a version with another name: its match labels, whatever
-- its expressions, do not.
pub retarget_separate :
    (dep other : Deployment) (svc : Service) (np : NetworkPolicy)
    (name name' container image container' image' : Bytes)
    → name ≢ name'
    → (¬ Selects
        (made (filled (retarget_deployment dep name container image).selector).match_labels)
        (made (retarget_deployment other name' container' image').template.labels))
      × (¬ Selects
          (made (retarget_service svc name).selector)
          (made (retarget_deployment other name' container' image').template.labels))
      × (¬ Selects
          (made (retarget_network_policy np name).pod_selector.match_labels)
          (made (retarget_deployment other name' container' image').template.labels))
retarget_separate dep other svc np name name' container image container' image' ne =
    unfold retarget_deployment retarget_service retarget_network_policy select_app in
    (
      λ h. ne (apart (filled dep.selector).match_labels h),
      λ h. ne (apart svc.selector h),
      λ h. ne (apart np.pod_selector.match_labels h),
    )
  where
    apart :
        (s : Option Labels)
        → Selects (made (set_app name s)) (made (set_app name' other.template.labels))
        → name ≡ name'
    apart s h =
        cc (h app name (get_key-set_app name s), get_key-set_app name' other.template.labels)

-- the container with the image that it has after the retargeting
abbrev pub imaged : Bytes → Bytes → Container → Container
imaged container image ct = if ct.name == container then record ct { image = image } else ct

set_image-map :
    (container image : Bytes) (cts : List Container)
    → set_image container image cts ≡ map (imaged container image) cts
unfolding set_image
set_image-map container image [] = refl
set_image-map container image (ct ∷ cts) =
    ap (λ r. imaged container image ct ∷ r) (set_image-map container image cts)

-- The arguments of a Job that do not name the base host with its port, such as the Host header of
-- localhost, are left as they are.
pub retarget_job_keeps :
    (job : Job) (name base_host versioned_host : Bytes)
    → All (λ c. All (λ arg. contains arg (with_port base_host) ≡ false) c.args) job.containers
    → (retarget_job job name base_host versioned_host).containers ≡ job.containers
unfolding retarget_job
retarget_job_keeps job name base_host versioned_host h = containers job.containers h
  where
    arguments :
        (args : List Bytes)
        → All (λ arg. contains arg (with_port base_host) ≡ false) args
        → map (retarget_arg base_host versioned_host) args ≡ args
    arguments [] _ = refl
    arguments (a ∷ args) (q, qs) =
        ap₂ (λ x r. x ∷ r)
          (replace_all-of_not_contains a (with_port base_host) (with_port versioned_host) q)
          (arguments args qs)

    containers :
        (cs : List Container)
        → All (λ c. All (λ arg. contains arg (with_port base_host) ≡ false) c.args) cs
        → retarget_containers base_host versioned_host cs ≡ cs
    containers [] _ = refl
    containers (c ∷ cs) (q, qs) =
        ap₂ (λ (x : List Bytes) r. record c { args = x } ∷ r) (arguments c.args q)
          (containers cs qs)
