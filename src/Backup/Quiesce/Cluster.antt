-- ===== src/Backup/Quiesce/Cluster.antt =====
-- A cluster that keeps the replicas of its workloads: what quiescing and releasing do to it.
use backrest_operator.Prelude.{
  ◌≡◌, refl, sym, ◌∙◌, ap, inl, inr, Bytes, bytes, Bool, true, false, ◌&&◌, none, [], ◌∷◌, ◌++◌,
  arith, eq_iff, ◌==◌, if◌then◌else◌, Bool-cases,
}
use backrest_operator.Prelude.Int.{ℤ, to_int32}
use backrest_operator.Api.{Key}
use backrest_operator.Effects.{Env, ok, Event, Trace, Workload, stateful_set, deployment, ask}
use backrest_operator.Backup.Quiesce.Split.{Lacks, split3, split3-join}
use backrest_operator.Backup.Quiesce.{equal_fold, scale_controller, scale_workload}

abbrev pub kind_text : Workload → Bytes
kind_text stateful_set = bytes "StatefulSet"
kind_text deployment = bytes "Deployment"

abbrev pub same_workload : Workload → Workload → Bool
same_workload stateful_set stateful_set = true
same_workload deployment deployment = true
same_workload _ _ = false

abbrev pub same : Workload → Key → Workload → Key → Bool
same w k v j = same_workload w v && ((k.namespace == j.namespace) && (k.name == j.name))

pub same_eq :
    (w : Workload) (k : Key) (v : Workload) (j : Key) → same w k v j ≡ true → (w ≡ v) × (k ≡ j)
same_eq w k v j h = ground (arith, eq_iff k.namespace j.namespace, eq_iff k.name j.name)

-- The replicas of each workload after a trace, from those before it.
unfoldable pub current : (Workload → Key → ℤ) → Trace → Workload → Key → ℤ
current init [] v j = init v j
current init (Event.scale w k n ∷ t) v j =
    let rest = current init t v j in if same w k v j then n else rest
current init (_ ∷ t) v j = current init t v j

-- Reads and writes of replicas are answered by the cluster.
pub record IsCluster (env : Env) (init : Workload → Key → ℤ) : Type 0 where
  pub reads :
      (t : Trace) (w : Workload) (k : Key)
      → env.replicas (Event.get_workload w k ∷ t) ≡ ok (current init t w k)
  pub writes :
      (t : Trace) (w : Workload) (k : Key) (n : ℤ) → env.done (Event.scale w k n ∷ t) ≡ none

abbrev pub workload_text : Workload → Key → Bytes
workload_text w k = kind_text w ++ b'/' ∷ (k.namespace ++ b'/' ∷ k.name)

kind_text-Lacks : (w : Workload) → Lacks b'/' (kind_text w)
unfolding bytes
kind_text-Lacks stateful_set = omega arith
kind_text-Lacks deployment = omega arith

pub split3-workload_text :
    (w : Workload) (k : Key)
    → Lacks b'/' k.namespace
    → split3 (workload_text w k) ≡ kind_text w ∷ k.namespace ∷ k.name ∷ []
split3-workload_text w k h = split3-join (kind_text w) k.namespace k.name (kind_text-Lacks w) h

same_kind : (w v : Workload) → (kind_text w == kind_text v) ≡ same_workload w v
unfolding bytes ◌==◌
same_kind stateful_set stateful_set = refl
same_kind stateful_set deployment = refl
same_kind deployment stateful_set = refl
same_kind deployment deployment = refl

text_parts :
    (w : Workload) (k : Key) (v : Workload) (j : Key)
    → Lacks b'/' k.namespace
    → Lacks b'/' j.namespace
    → workload_text w k ≡ workload_text v j
    → (kind_text w ≡ kind_text v) × (k.namespace ≡ j.namespace) × (k.name ≡ j.name)
text_parts w k v j hk hj e =
    let parts = sym (split3-workload_text w k hk) ∙ ap split3 e ∙ split3-workload_text v j hj in
    (cc parts, cc parts, cc parts)

-- Different workloads have different texts.
pub text_eq :
    (w : Workload) (k : Key) (v : Workload) (j : Key)
    → Lacks b'/' k.namespace
    → Lacks b'/' j.namespace
    → (workload_text w k == workload_text v j) ≡ same w k v j
text_eq w k v j hk hj = elim (Bool-cases (workload_text w k == workload_text v j)) [
  | inl e ↦
      let (p, q, r) = text_parts w k v j hk hj ((eq_iff _ _).0 e) in
      rw e (
        ground (
          arith,
          same_kind w v,
          eq_iff (kind_text w) (kind_text v),
          eq_iff k.namespace j.namespace,
          eq_iff k.name j.name,
        ))
  | inr e ↦ rw e (
      ground (
        arith,
        same_kind w v,
        eq_iff (kind_text w) (kind_text v),
        eq_iff k.namespace j.namespace,
        eq_iff k.name j.name,
        eq_iff (workload_text w k) (workload_text v j),
      ))
]

pub scale_workload_lem :
    (env : Env) (w : Workload) (k : Key) (n : ℤ)
    → scale_workload env (kind_text w) k.namespace k.name n ≡ scale_controller env w k n
unfolding scale_workload equal_fold bytes ◌==◌
scale_workload_lem env stateful_set k n = refl
scale_workload_lem env deployment k n = refl

module _ (env : Env) (init : Workload → Key → ℤ) (cluster : IsCluster env init) where
  pub scale_controller_lem :
      (w : Workload) (k : Key) (n : ℤ) (t : Trace)
      → scale_controller env w k n t
        ≡ ((to_int32 (current init t w k), none), Event.scale w k n ∷ Event.get_workload w k ∷ t)
  unfolding scale_controller ask
  scale_controller_lem w k n t = rw (cluster.reads t w k) (rw (cluster.writes _ w k n))

  pub current-scale :
      (w : Workload) (k : Key) (n : ℤ) (t : Trace) (v : Workload) (j : Key)
      → current init (Event.scale w k n ∷ Event.get_workload w k ∷ t) v j
        ≡ (if same w k v j then n else current init t v j)
  unfolding current
  current-scale w k n t v j = refl
