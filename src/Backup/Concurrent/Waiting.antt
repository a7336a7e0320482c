-- ===== src/Backup/Concurrent/Waiting.antt =====
-- Two backups of a claim can come to wait for each other for good.
use backrest_operator.Prelude.{
  ℕ, ◌<◌, ◌≡◌, ◌≢◌, refl, ap, sym, ◌∙◌, inl, inr, Bool, true, false, arith, eq_num, eq_num_iff,
  Bool-cases,
}
use backrest_operator.Api.{Phase}
use backrest_operator.Session.{backup_phase_active}
use backrest_operator.Backup.Concurrent.{
  Pc, System, put, move, Step, found_free, found_busy, flag, unflagged, snapshot, recheck_free,
  recheck_busy, saved, unsaved, adopted, ended, outlived, lost, resume, expired, failed, aborted,
  settled, release, Steps, start, later, leave, polls, IsQuiet, Free,
}
use backrest_operator.Backup.Concurrent.Paths.{eq_num-same, eq_num-other, Free-after}

-- between two reconciles, with an active phase and no Job
abbrev pub Waits : System → ℕ → Type 0
Waits s i = (s.pc i ≡ Pc.idle) × (backup_phase_active (s.phase i) ≡ true) × (s.left i ≡ false)

ne_of_pc :
    (s : System) (i k : ℕ) (c : Pc)
    → s.pc i ≡ Pc.idle
    → s.pc k ≡ c
    → c ≢ Pc.idle
    → eq_num i k ≡ false
ne_of_pc s i k c at there ne = elim (Bool-cases (eq_num i k)) [
  | inl e ↦ absurd (ne (sym there ∙ ap s.pc (sym ((eq_num_iff i k).0 e)) ∙ at))
  | inr e ↦ e
]

active_idle : (p : Phase) → backup_phase_active p ≡ true → backup_phase_active p ≡ false → ⊥
active_idle p on off = cc

polls-busy : (c : Pc) → polls c ≡ true → c ≢ Pc.idle
polls-busy c on at = absurd (ground (arith, on, at))

module _ (n : ℕ) (quiesces : ℕ → Bool) where
  away :
      (s : System) (i k : ℕ) (p : Phase) (c : Pc)
      → eq_num i k ≡ false
      → Waits s i
      → Waits (put s k p c) i
  away s i k p c e h = rw e h

  left_to :
      (s : System) (i k : ℕ) (p : Phase) (b : Bool)
      → eq_num i k ≡ false
      → Waits s i
      → Waits (leave (put s k p Pc.idle) k b) i
  left_to s i k p b e h = rw e h

  stays : (s : System) (i k : ℕ) → Waits s i → Waits (move s k Pc.idle) i
  stays s i k h = elim (Bool-cases (eq_num i k)) [
    | inl e ↦
        let same : i ≡ k = (eq_num_iff i k).0 e in
        rw e (refl, ap (λ x. backup_phase_active (s.phase x)) (sym same) ∙ h.1, h.2)
    | inr e ↦ rw e h
  ]

  -- another backup is at work while `i` waits: `i` finds it at each check
  step-Waits :
      (s t : System) (i j : ℕ)
      → j < n
      → i ≢ j
      → Waits s i
      → Waits s j
      → Step n quiesces false s t
      → Waits t i
  step-Waits s t i j lt ne h g (found_free k l at free) = elim (Bool-cases (eq_num i k)) [
    | inl e ↦
        let same : i ≡ k = (eq_num_iff i k).0 e in
        let off = free j lt (λ q. ne (same ∙ sym q)) in absurd (active_idle (s.phase j) g.1 off)
    | inr e ↦ away s i k _ _ e h
  ]
  step-Waits s t i j lt ne h g (found_busy k l at busy) = h
  step-Waits s t i j lt ne h g (flag k l at q) =
      away s i k _ _ (ne_of_pc s i k _ h.0 at (λ z. cc)) h
  step-Waits s t i j lt ne h g (unflagged k l at q) =
      away s i k _ _ (ne_of_pc s i k _ h.0 at (λ z. cc)) h
  step-Waits s t i j lt ne h g (snapshot k l at) =
      away s i k _ _ (ne_of_pc s i k _ h.0 at (λ z. cc)) h
  step-Waits s t i j lt ne h g (recheck_free k l at free) =
      away s i k _ _ (ne_of_pc s i k _ h.0 at (λ z. cc)) h
  step-Waits s t i j lt ne h g (recheck_busy k l at busy) =
      away s i k _ _ (ne_of_pc s i k _ h.0 at (λ z. cc)) h
  step-Waits s t i j lt ne h g (saved k l at) = away s i k _ _ (ne_of_pc s i k _ h.0 at (λ z. cc)) h
  step-Waits s t i j lt ne h g (unsaved k l at) =
      away s i k _ _ (ne_of_pc s i k _ h.0 at (λ z. cc)) h
  step-Waits s t i j lt ne h g (adopted k l at) =
      away s i k _ _ (ne_of_pc s i k _ h.0 at (λ z. cc)) h
  step-Waits s t i j lt ne h g (ended k p l at off) =
      away s i k _ _ (ne_of_pc s i k _ h.0 refl (polls-busy (s.pc k) at)) h
  step-Waits s t i j lt ne h g (outlived k p l at off) =
      left_to s i k p true (ne_of_pc s i k _ h.0 refl (polls-busy (s.pc k) at)) h
  step-Waits s t i j lt ne h g (lost k l at off) =
      left_to s i k (s.phase k) true (ne_of_pc s i k _ h.0 at (λ z. cc)) h
  step-Waits s t i j lt ne h g (resume k more l at on) = elim (Bool-cases (eq_num i k)) [
    | inl e ↦ absurd cc (ap s.left ((eq_num_iff i k).0 e), h.2, on)
    | inr e ↦ rw e h
  ]
  step-Waits s t i j lt ne h g (expired k l) = elim (Bool-cases (eq_num i k)) [
    | inl e ↦ rw e (h.0, h.1, refl)
    | inr e ↦ rw e h
  ]
  step-Waits s t i j lt ne h g (failed k l busy at) =
      away s i k _ _ (ne_of_pc s i k _ h.0 refl busy) h
  step-Waits s t i j lt ne h g (aborted k l at) = stays s i k h
  step-Waits s t i j lt ne h g (settled k p l at was off) = elim (Bool-cases (eq_num i k)) [
    | inl e ↦
        let same : s.phase i ≡ s.phase k = ap s.phase ((eq_num_iff i k).0 e) in
        absurd (active_idle (s.phase i) h.1 (ap backup_phase_active same ∙ was))
    | inr e ↦ away s i k _ _ e h
  ]
  step-Waits s t i j lt ne h g (release k p l on at off) = absurd cc

  -- two backups that wait go on to wait, whatever the others do
  waiting_forever :
      (s t : System) (i j : ℕ)
      → i < n
      → j < n
      → i ≢ j
      → Waits s i
      → Waits s j
      → Steps n quiesces false s t
      → Waits t i × Waits t j
  waiting_forever s t i j li lj ne h g start = (h, g)
  waiting_forever s t i j li lj ne h g (later {t = u} r st) =
      let (hi, hj) = waiting_forever s u i j li lj ne h g r in
      (step-Waits u t i j lj ne hi hj st, step-Waits u t j i li (λ q. ne (sym q)) hj hi st)

module _ (n : ℕ) (quiesces : ℕ → Bool) (s : System) (i j : ℕ) where
  abbrev both_checked : System
  both_checked = move (move s i Pc.checked) j Pc.checked

  -- both quiesce
  abbrev both_flagged : System
  both_flagged = put (put both_checked i Phase.quiescing Pc.flagged) j Phase.quiescing Pc.flagged

  abbrev both_back : System
  both_back = move (move both_flagged i Pc.idle) j Pc.idle

  -- From every state in which all backups are idle and without a Job, and for any two that quiesce, the
  -- steps can lead to one from which neither ever gets a Job: each has passed its first check before
  -- the other's phase is written, finds the other at the check before its Job, and comes back with an
  -- active phase. Both stay so, whatever backups run and end, until the phase of one is taken back, as
  -- by a cancel, the end of its slot, or a failure before its first check.
  pub deadlock :
      IsQuiet s
      → i < n
      → j < n
      → i ≢ j
      → quiesces i ≡ true
      → quiesces j ≡ true
      → (t : System) × Steps n quiesces false s t
        × ((u : System) → Steps n quiesces false t u → Waits u i × Waits u j)
  unfolding backup_phase_active
  deadlock quiet li lj ne qi qj =
      let ij : eq_num i j ≡ false = eq_num-other i j ne in
      let ji : eq_num j i ≡ false = eq_num-other j i (λ e. ne (sym e)) in
      let ii = eq_num-same i in
      let jj = eq_num-same j in
      let free : (k : ℕ) → Free n s k = λ k m lt other. (quiet m).1 in
      (
        both_back,
        later
            (later
              (later
                (later
                  (later (later start (Step.found_free i li (quiet i).0 (free i))) (
                    Step.found_free j lj (rw ji (quiet j).0)
                      (Free-after n s i (s.phase i) Pc.checked j (free i) (quiet i).1)))
                  (Step.flag i li (rw (ij, ii) refl) qi))
                (Step.flag j lj (rw (ji, jj) refl) qj))
              (Step.recheck_busy i li (rw (ij, ii) refl) (j, lj, λ e. ne (sym e), rw jj refl)))
            (Step.recheck_busy j lj (rw (ji, jj) refl) (i, li, ne, rw (ii, ij) refl)),
        λ u r.
            waiting_forever n quiesces both_back u i j li lj ne
              (rw (ij, ii) refl, rw (ij, ii) refl, (quiet i).2)
              (rw (ji, jj) refl, rw (ji, jj) refl, (quiet j).2) r,
      )
