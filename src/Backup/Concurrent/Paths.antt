-- ===== src/Backup/Concurrent/Paths.antt =====
-- Runs of a backup step by step, from a state in which nobody else is active.
use backrest_operator.Prelude.{
  ℕ, ◌<◌, ◌≡◌, ◌≢◌, refl, inl, inr, Bool, true, false, eq_num, eq_num_iff, Bool-cases,
}
use backrest_operator.Api.{Phase}
use backrest_operator.Session.{backup_phase_active}
use backrest_operator.Backup.Concurrent.{Pc, System, put, move, Free, Step, Steps, later}

pub eq_num-same : (i : ℕ) → eq_num i i ≡ true
eq_num-same i = (eq_num_iff i i).1 refl

pub eq_num-other : (i k : ℕ) → i ≢ k → eq_num i k ≡ false
eq_num-other i k ne = elim (Bool-cases (eq_num i k)) [
  | inl e ↦ absurd (ne ((eq_num_iff i k).0 e))
  | inr e ↦ e
]

module _ (n : ℕ) (s : System) (i : ℕ) (p : Phase) (c : Pc) where
  -- what a backup writes itself does not stand in its way
  pub Free-own : Free n s i → Free n (put s i p c) i
  Free-own free k lt ne = rw (eq_num-other k i ne) (free k lt ne)

  -- nobody stands in the way of `j` once `i`, the only one, is not active
  pub Free-after : (j : ℕ) → Free n s i → backup_phase_active p ≡ false → Free n (put s i p c) j
  Free-after j free off k lt ne = elim (Bool-cases (eq_num k i)) [
    | inl e ↦ rw e off
    | inr e ↦ rw e (free k lt (λ q. cc (e, q, eq_num-same i)))
  ]

  pub put-pc : (put s i p c).pc i ≡ c
  put-pc = rw (eq_num-same i) refl

  pub put-pc_other : (j : ℕ) → j ≢ i → (put s i p c).pc j ≡ s.pc j
  put-pc_other j ne = rw (eq_num-other j i ne) refl

module _ (n : ℕ) (quiesces : ℕ → Bool) (released : Bool) (s t : System) (i : ℕ) where
  abbrev pub launched : System
  launched =
      put (move (put (move t i Pc.checked) i Phase.quiescing Pc.flagged) i Pc.cleared) i
        Phase.uploading Pc.working

  -- a run that quiesces, meets nobody and makes its Job
  pub launch :
      i < n
      → quiesces i ≡ true
      → t.pc i ≡ Pc.idle
      → Free n t i
      → Steps n quiesces released s t
      → Steps n quiesces released s launched
  launch lt q at free r =
      let checked = move t i Pc.checked in
      let flagged = put checked i Phase.quiescing Pc.flagged in
      let cleared = move flagged i Pc.cleared in
      later
        (later
          (later (later r (Step.found_free i lt at free))
            (Step.flag i lt (put-pc n t i (t.phase i) Pc.checked) q))
          (Step.recheck_free i lt (put-pc n checked i Phase.quiescing Pc.flagged) (
            Free-own n checked i Phase.quiescing Pc.flagged
              (Free-own n t i (t.phase i) Pc.checked free))))
        (Step.saved i lt (put-pc n flagged i (flagged.phase i) Pc.cleared))
