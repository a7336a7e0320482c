-- ===== src/Backup/Quiesce/Restores.antt =====
-- Quiescing a list of workloads, and releasing what it recorded: quiesce and unquiesce on a cluster.
use backrest_operator.Prelude.{
  ℕ, ◌<◌, ◌^◌, ◌≡◌, ◌≢◌, refl, ap, ap₂, ◌∙◌, Bool-cases, inl, inr, Bytes, Option, none, some, List,
  [], ◌∷◌, All, arith, eq_iff, eq_false_of_ne, or_text,
}
use backrest_operator.Prelude.Int.{ℤ, pos, to_int32, to_int32-pos}
use backrest_operator.Prelude.Dict.{lookup, insert, lookup-insert}
use backrest_operator.Api.{Key, QuiesceTarget, PvcBackup}
use backrest_operator.Effects.{on_option, Env, Error, Event, Trace, M, Workload, pure}
use backrest_operator.Effects.Rules.{bind-eq}
use backrest_operator.Backup.Quiesce.Split.{Lacks}
use backrest_operator.Backup.Quiesce.Cluster.{
  kind_text, same, same_eq, current, IsCluster, workload_text, split3-workload_text, text_eq,
  scale_workload_lem, scale_controller_lem, current-scale,
}
use backrest_operator.Backup.Quiesce.{scale_workload, target_key, quiesce_from, quiesce, unquiesce}

abbrev pub State : Type 0
State = List (Bytes × ℤ)

-- a key that was built of a workload
abbrev pub IsText : Bytes → Type 0
IsText key = (w : Workload) × (k : Key) × Lacks b'/' k.namespace × (key ≡ workload_text w k)

-- no key twice, and each the text of a workload
abbrev pub IsRecorded : State → Type 0
IsRecorded [] = Unit
IsRecorded ((key, n) ∷ s) = (lookup key s ≡ none) × IsText key × IsRecorded s

pub insert-IsRecorded :
    (key : Bytes) (n : ℤ) (s : State)
    → lookup key s ≡ none
    → IsText key
    → IsRecorded s
    → IsRecorded (insert key n s)
unfolding insert lookup
insert-IsRecorded key n [] fresh text r = (refl, text, tt)
insert-IsRecorded key n ((j, m) ∷ s) fresh text (f, x, r) =
    ground (arith, eq_iff j key, eq_iff key j, lookup-insert key j n s, insert-IsRecorded key n s)

-- the replicas under a state: the recorded ones, and the others as they are
abbrev pub or_else : Option ℤ → ℤ → ℤ
or_else none n = n
or_else (some m) n = m

abbrev pub workload_key : QuiesceTarget → Bytes → Key
workload_key t default = record { namespace = or_text t.namespace default; name = t.name }

-- A target that has replicas: a StatefulSet or a Deployment, in a namespace without a slash.
pub record IsScalable (default : Bytes) (t : QuiesceTarget) : Type 0 where
  pub workload : Workload
  pub kind : t.kind ≡ kind_text workload
  pub plain : Lacks b'/' (or_text t.namespace default)

-- No two targets are the same workload.
abbrev pub AreDistinct : Bytes → List QuiesceTarget → Type 0
AreDistinct default [] = Unit
AreDistinct default (t ∷ ts) =
    All (λ u. target_key t default ≢ target_key u default) ts × AreDistinct default ts

abbrev pub AreFresh : Bytes → State → List QuiesceTarget → Type 0
AreFresh default s = All (λ u. lookup (target_key u default) s ≡ none)

pub AreFresh-insert :
    (default key : Bytes) (n : ℤ) (s : State) (ts : List QuiesceTarget)
    → All (λ u. key ≢ target_key u default) ts
    → AreFresh default s ts
    → AreFresh default (insert key n s) ts
AreFresh-insert default key n s [] d f = tt
AreFresh-insert default key n s (t ∷ ts) (d, ds) (f, fs) = (
  rw lookup-insert (rw (eq_false_of_ne key (target_key t default) d) f),
  AreFresh-insert default key n s ts ds fs,
)

pub fresh_of : (default : Bytes) (ts : List QuiesceTarget) → AreFresh default [] ts
unfolding lookup
fresh_of default [] = tt
fresh_of default (t ∷ ts) = (refl, fresh_of default ts)

pub target_text :
    (default : Bytes) (t : QuiesceTarget) (h : IsScalable default t)
    → target_key t default ≡ workload_text h.workload (workload_key t default)
unfolding target_key
target_text default t h = rw h.kind

module _ (env : Env) (init : Workload → Key → ℤ) (cluster : IsCluster env init) where
  -- releasing one entry scales its workload
  unquiesce_cons :
      (s : State) (t : Trace) (v : Workload) (j : Key) (n : ℤ)
      → Lacks b'/' j.namespace
      → unquiesce env ((workload_text v j, n) ∷ s) t
        ≡ unquiesce env s (Event.scale v j n ∷ Event.get_workload v j ∷ t)
  unfolding unquiesce
  unquiesce_cons s t v j n h =
      rw (split3-workload_text v j h)
        (rw (scale_workload_lem env v j n) (rw (scale_controller_lem env init cluster v j n t)))

  pub unquiesce_lem :
      (s : State) (t : Trace)
      → IsRecorded s
      → (w : Workload) (k : Key) → Lacks b'/' k.namespace
      → current init (unquiesce env s t).1 w k
        ≡ or_else (lookup (workload_text w k) s) (current init t w k)
  unfolding unquiesce lookup
  unquiesce_lem [] t r w k h = refl
  unquiesce_lem ((key, n) ∷ s) t (fresh, (v, j, hj, e), r) w k h = rw e (
      rw (unquiesce_cons s t v j n hj) (
        rw (unquiesce_lem s (Event.scale v j n ∷ Event.get_workload v j ∷ t) r w k h) (
          rw (current-scale env init cluster v j n t w k) (
            ground (
              arith,
              e,
              fresh,
              text_eq v j w k hj h,
              eq_iff (workload_text v j) (workload_text w k),
            )))))

  module _ (orig : Workload → Key → ℤ)
      (small : (w : Workload) (k : Key) → (n : ℕ) × (orig w k ≡ pos n) × (n < 2 ^ 31)) where
    orig_int32 : (w : Workload) (k : Key) → to_int32 (orig w k) ≡ orig w k
    orig_int32 w k = let (n, e, lt) = small w k in rw e (to_int32-pos n lt)

    -- what is recorded, over what is there, is what was there at first
    abbrev pub IsRestorable : State → Trace → Type 0
    IsRestorable s t =
        (w : Workload) (k : Key)
        → Lacks b'/' k.namespace
        → or_else (lookup (workload_text w k) s) (current init t w k) ≡ orig w k

    -- a workload that is not recorded has what it had at first
    current-eq :
        (default : Bytes) (s : State) (u : QuiesceTarget) (t : Trace) (h : IsScalable default u)
        → IsRestorable s t
        → lookup (target_key u default) s ≡ none
        → to_int32 (current init t h.workload (workload_key u default))
          ≡ orig h.workload (workload_key u default)
    current-eq default s u t h r fresh =
        ap to_int32
          (ground (arith, target_text default u h, r h.workload (workload_key u default) h.plain))
        ∙ orig_int32 h.workload (workload_key u default)

    target_scaled :
        (default : Bytes) (u : QuiesceTarget) (h : IsScalable default u) (n : ℤ) (t : Trace)
        → scale_workload env u.kind (or_text u.namespace default) u.name n t ≡ (
          (to_int32 (current init t h.workload (workload_key u default)), none),
          Event.scale h.workload (workload_key u default) n
              ∷ Event.get_workload h.workload (workload_key u default)
              ∷ t,
        )
    target_scaled default u h n t =
        ap (λ (k : Bytes). scale_workload env k (or_text u.namespace default) u.name n t) h.kind
        ∙ ap (λ (m : M (ℤ × Option Error)). m t)
            (scale_workload_lem env h.workload (workload_key u default) n)
        ∙ scale_controller_lem env init cluster h.workload (workload_key u default) n t

    quiesce_cons :
        (default : Bytes) (s : State) (u : QuiesceTarget) (us : List QuiesceTarget) (t : Trace)
        (h : IsScalable default u)
        → IsRestorable s t
        → lookup (target_key u default) s ≡ none
        → quiesce_from env default s (u ∷ us) t
          ≡ quiesce_from env default
              (insert (target_key u default) (orig h.workload (workload_key u default)) s)
              us
              (Event.scale h.workload (workload_key u default) (pos 0)
                ∷ Event.get_workload h.workload (workload_key u default)
                ∷ t)
    unfolding quiesce_from
    quiesce_cons default s u us t h r fresh =
        bind-eq (scale_workload env u.kind (or_text u.namespace default) u.name (pos 0))
          (λ r'.
            on_option r'.1 (λ e. pure (s, some e))
              (quiesce_from env default (insert (target_key u default) r'.0 s) us))
          t
          (target_scaled default u h (pos 0) t
            ∙ ap
                (λ (n : ℤ). (
                  (n, none),
                  Event.scale h.workload (workload_key u default) (pos 0)
                      ∷ Event.get_workload h.workload (workload_key u default)
                      ∷ t,
                ))
                (current-eq default s u t h r fresh))

    -- recording a workload and scaling it to nothing loses nothing
    IsRestorable-step :
        (default : Bytes) (s : State) (u : QuiesceTarget) (t : Trace) (h : IsScalable default u)
        → IsRestorable s t
        → IsRestorable
            (insert (target_key u default) (orig h.workload (workload_key u default)) s)
            (Event.scale h.workload (workload_key u default) (pos 0)
              ∷ Event.get_workload h.workload (workload_key u default)
              ∷ t)
    IsRestorable-step default s u t h r w k p = rw lookup-insert (
        rw (target_text default u h) (
          rw (current-scale env init cluster h.workload (workload_key u default) (pos 0) t w k)
            (elim (Bool-cases (same h.workload (workload_key u default) w k)) [
              | inl e ↦
                  let (p1, p2) = same_eq h.workload (workload_key u default) w k e in
                  rw (text_eq h.workload (workload_key u default) w k h.plain p)
                    (rw e (ap₂ orig p1 p2))
              | inr e ↦
                  rw (text_eq h.workload (workload_key u default) w k h.plain p) (rw e (r w k p))
            ])))

    quiesce_from_lem :
        (default : Bytes) (s : State) (us : List QuiesceTarget) (t : Trace)
        → All (IsScalable default) us
        → AreDistinct default us
        → AreFresh default s us
        → IsRecorded s
        → IsRestorable s t
        → let r = quiesce_from env default s us t in
          (r.0.1 ≡ none) × IsRecorded r.0.0 × IsRestorable r.0.0 r.1
    unfolding quiesce_from
    quiesce_from_lem default s [] t _ _ _ rec r = (refl, rec, r)
    quiesce_from_lem default s (u ∷ us) t (h, hs) (d, ds) (f, fs) rec r =
        rw (quiesce_cons default s u us t h r f) (
          quiesce_from_lem default
            (insert (target_key u default) (orig h.workload (workload_key u default)) s) us _ hs ds
            (AreFresh-insert default _ _ s us d fs)
            (insert-IsRecorded _ _ s f
              (h.workload, workload_key u default, h.plain, target_text default u h) rec)
            (IsRestorable-step default s u t h r))

    pub quiesce_lem :
        (b : PvcBackup) (t : Trace)
        → All (IsScalable b.metadata.namespace) b.spec.quiesce.targets
        → AreDistinct b.metadata.namespace b.spec.quiesce.targets
        → ((w : Workload) (k : Key) → current init t w k ≡ orig w k)
        → let r = quiesce env b t in (r.0.1 ≡ none) × IsRecorded r.0.0 × IsRestorable r.0.0 r.1
    unfolding quiesce lookup
    quiesce_lem b t hs ds e =
        quiesce_from_lem b.metadata.namespace [] b.spec.quiesce.targets t hs ds
          (fresh_of b.metadata.namespace b.spec.quiesce.targets) tt (λ w k _. e w k)

    -- Quiescing distinct workloads succeeds, and releasing the state that it returns gives every
    -- workload of a namespace without a slash the replicas it had before. The cluster answers reads
    -- with the replicas last written and refuses no write; the targets are StatefulSets and
    -- Deployments, no two the same; no workload has 2 ^ 31 replicas or more at the start.
    pub unquiesce-quiesce :
        (b : PvcBackup) (t : Trace)
        → All (IsScalable b.metadata.namespace) b.spec.quiesce.targets
        → AreDistinct b.metadata.namespace b.spec.quiesce.targets
        → ((w : Workload) (k : Key) → current init t w k ≡ orig w k)
        → ((quiesce env b t).0.1 ≡ none)
          × ((w : Workload) (k : Key)
              → Lacks b'/' k.namespace
              → current init (unquiesce env (quiesce env b t).0.0 (quiesce env b t).1).1 w k
                ≡ orig w k)
    unquiesce-quiesce b t hs ds e =
        let (none_of, rec, r) = quiesce_lem b t hs ds e in
        (none_of, λ w k h. unquiesce_lem _ _ rec w k h ∙ r w k h)
