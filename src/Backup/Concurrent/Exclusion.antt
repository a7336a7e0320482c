-- ===== src/Backup/Concurrent/Exclusion.antt =====
-- Of the backups of a claim that quiesce, the run of one at most makes a Job.
use backrest_operator.Prelude.{
  ℕ, ◌<◌, ◌≡◌, ◌≢◌, refl, sym, ◌∙◌, Bool, true, false, eq_num, eq_num_iff, if◌then◌else◌, arith,
}
use backrest_operator.Api.{Phase}
use backrest_operator.Session.{backup_phase_active}
use backrest_operator.Backup.Concurrent.{
  Pc, System, put, Free, Step, found_free, found_busy, flag, unflagged, snapshot, recheck_free,
  recheck_busy, saved, unsaved, adopted, ended, outlived, lost, resume, expired, failed, aborted,
  settled, release, Steps, start, later, leave, holds, IsQuiet,
}

-- past the phase Quiescing
abbrev marks : Pc → Bool
marks Pc.flagged = true
marks Pc.cleared = true
marks Pc.working = true
marks _ = false

record Inv (n : ℕ) (s : System) : Type 0 where
  active : (i : ℕ) → i < n → marks (s.pc i) ≡ true → backup_phase_active (s.phase i) ≡ true
  alone : (i j : ℕ) → i < n → j < n → holds (s.pc i) ≡ true → holds (s.pc j) ≡ true → i ≡ j

marks-holds : (c : Pc) → holds c ≡ true → marks c ≡ true
marks-holds c h = ground arith

active_at :
    (b : Bool) (c d : Pc) (p q : Phase)
    → (marks c ≡ true → backup_phase_active p ≡ true)
    → (marks d ≡ true → backup_phase_active q ≡ true)
    → marks (if b then c else d) ≡ true
    → backup_phase_active (if b then p else q) ≡ true
active_at true c d p q hp hq m = hp m
active_at false c d p q hp hq m = hq m

other : (i k : ℕ) → eq_num i k ≡ false → i ≢ k
other i k e same = ground (arith, e, same)

module _ (n : ℕ) (quiesces : ℕ → Bool) (released : Bool) where
  -- no other backup holds the claim
  abbrev Alone : System → ℕ → Type 0
  Alone s k = (j : ℕ) → j < n → j ≢ k → holds (s.pc j) ≡ true → ⊥

  Alone-at :
      (s : System) (k : ℕ) (c : Pc) (i j : ℕ) (a b : Bool)
      → Inv n s
      → (holds c ≡ true → Alone s k)
      → i < n
      → j < n
      → eq_num i k ≡ a
      → eq_num j k ≡ b
      → holds (if a then c else s.pc i) ≡ true
      → holds (if b then c else s.pc j) ≡ true
      → i ≡ j
  Alone-at s k c i j true true inv own li lj e f hi hj =
      (eq_num_iff i k).0 e ∙ sym ((eq_num_iff j k).0 f)
  Alone-at s k c i j true false inv own li lj e f hi hj = absurd (own hi j lj (other j k f) hj)
  Alone-at s k c i j false true inv own li lj e f hi hj = absurd (own hj i li (other i k e) hi)
  Alone-at s k c i j false false inv own li lj e f hi hj = inv.alone i j li lj hi hj

  put-Inv :
      (s : System) (k : ℕ) (p : Phase) (c : Pc)
      → Inv n s
      → (marks c ≡ true → backup_phase_active p ≡ true)
      → (holds c ≡ true → Alone s k)
      → Inv n (put s k p c)
  put-Inv s k p c inv mine own = record {
    active = λ i lt m. active_at (eq_num i k) c (s.pc i) p (s.phase i) mine (inv.active i lt) m;
    alone = λ i j li lj hi hj.
        Alone-at s k c i j (eq_num i k) (eq_num j k) inv own li lj refl refl hi hj;
  }

  leave-Inv : (s : System) (k : ℕ) (b : Bool) → Inv n s → Inv n (leave s k b)
  leave-Inv s k b inv = record { active = inv.active; alone = inv.alone }

  -- a backup that holds the claim is the only one
  held-Alone : (s : System) (k : ℕ) → Inv n s → k < n → holds (s.pc k) ≡ true → Alone s k
  held-Alone s k inv lt h j lj ne hj = ne (inv.alone j k lj lt hj h)

  -- and so is one that finds the session free
  Free-Alone : (s : System) (k : ℕ) → Inv n s → Free n s k → Alone s k
  Free-Alone s k inv free j lj ne hj =
      let on : backup_phase_active (s.phase j) ≡ true = inv.active j lj (marks-holds (s.pc j) hj) in
      let off : backup_phase_active (s.phase j) ≡ false = free j lj ne in cc

  step-Inv :
      (all : (i : ℕ) → quiesces i ≡ true) (s t : System)
      → Inv n s
      → Step n quiesces released s t
      → Inv n t
  unfolding backup_phase_active
  step-Inv all s t inv (found_free i lt at free) =
      put-Inv s i _ _ inv (λ m. absurd cc) (λ h. absurd cc)
  step-Inv all s t inv (found_busy i lt at busy) = inv
  step-Inv all s t inv (flag i lt at q) = put-Inv s i _ _ inv (λ m. refl) (λ h. absurd cc)
  step-Inv all s t inv (unflagged i lt at q) = absurd (ground (arith, q, all i))
  step-Inv all s t inv (snapshot i lt at) = put-Inv s i _ _ inv (λ m. refl) (λ h. absurd cc)
  step-Inv all s t inv (recheck_free i lt at free) =
      put-Inv s i _ _ inv (λ m. inv.active i lt (rw at refl)) (λ h. Free-Alone s i inv free)
  step-Inv all s t inv (recheck_busy i lt at busy) =
      put-Inv s i _ _ inv (λ m. absurd cc) (λ h. absurd cc)
  step-Inv all s t inv (saved i lt at) =
      put-Inv s i _ _ inv (λ m. refl) (λ h. held-Alone s i inv lt (rw at refl))
  step-Inv all s t inv (unsaved i lt at) =
      put-Inv s i _ _ inv (λ m. inv.active i lt (rw at refl))
        (λ h. held-Alone s i inv lt (rw at refl))
  step-Inv all s t inv (adopted i lt at) =
      put-Inv s i _ _ inv (λ m. refl) (λ h. held-Alone s i inv lt (rw at refl))
  step-Inv all s t inv (ended i p lt at off) = put-Inv s i _ _ inv (λ m. absurd cc) (λ h. absurd cc)
  step-Inv all s t inv (outlived i p lt at off) =
      leave-Inv (put s i p Pc.idle) i true (put-Inv s i _ _ inv (λ m. absurd cc) (λ h. absurd cc))
  step-Inv all s t inv (lost i lt at off) =
      leave-Inv (put s i (s.phase i) Pc.idle) i true
        (put-Inv s i _ _ inv (λ m. absurd cc) (λ h. absurd cc))
  step-Inv all s t inv (resume i more lt at on) =
      leave-Inv (put s i Phase.uploading Pc.resumed) i more
        (put-Inv s i _ _ inv (λ m. absurd cc) (λ h. absurd cc))
  step-Inv all s t inv (expired i lt) = leave-Inv s i false inv
  step-Inv all s t inv (failed i lt on at) = put-Inv s i _ _ inv (λ m. absurd cc) (λ h. absurd cc)
  step-Inv all s t inv (aborted i lt at) = put-Inv s i _ _ inv (λ m. absurd cc) (λ h. absurd cc)
  step-Inv all s t inv (settled i p lt at was off) =
      put-Inv s i _ _ inv (λ m. absurd cc) (λ h. absurd cc)
  step-Inv all s t inv (release i p lt on at off) =
      put-Inv s i _ _ inv (λ m. absurd cc) (λ h. absurd cc)

  quiet-Inv : (s : System) → IsQuiet s → Inv n s
  quiet-Inv s quiet = record {
    active = λ i lt m. let at = (quiet i).0 in absurd (ground (arith, at, m));
    alone = λ i j li lj hi hj. let at = (quiet i).0 in absurd (ground (arith, at, hi));
  }

  steps-Inv :
      (all : (i : ℕ) → quiesces i ≡ true) (s t : System)
      → IsQuiet s
      → Steps n quiesces released s t
      → Inv n t
  steps-Inv all s t quiet start = quiet-Inv s quiet
  steps-Inv all s t quiet (later {t = u} r st) = step-Inv all u t (steps-Inv all s u quiet r) st

  -- However the runs of backups of one claim are interleaved, if all of them quiesce, each list is read
  -- as it is, and only a backup's one run writes its phase meanwhile, then from a state in which all
  -- are idle and without a Job no two runs ever have made a Job that they still wait for, or are past
  -- the check before it, together. A Job that outlives its run, and one that a later run adopts, do
  -- not count here.
  pub mutual_exclusion :
      (all : (i : ℕ) → quiesces i ≡ true) (s t : System)
      → IsQuiet s
      → Steps n quiesces released s t
      → (i j : ℕ) → i < n
      → j < n
      → holds (t.pc i) ≡ true
      → holds (t.pc j) ≡ true
      → i ≡ j
  mutual_exclusion all s t quiet r i j = (steps-Inv all s t quiet r).alone i j
