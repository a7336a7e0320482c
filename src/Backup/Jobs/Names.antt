-- ===== src/Backup/Jobs/Names.antt =====
-- The names of restic Jobs, which are cut to 63 bytes, and the prefix by which they are found.
use backrest_operator.Prelude.{
  ℕ, zero, suc, ◌≤◌, ◌+◌, ◌≡◌, refl, ap, ◌∙◌, ◌↔◌, Bytes, true, [], ◌∷◌, ◌++◌, length, take,
  length-append, length-take, starts_with, leb, arith,
}
use backrest_operator.Prelude.Decimal.{decimal}
use backrest_operator.Backup.Jobs.{job_name}

starts_with-take : (n : ℕ) (p s : Bytes) → starts_with (take n (p ++ s)) p ≡ leb (length p) n
starts_with-take n [] s = ground arith
starts_with-take zero (c ∷ p) s = ground arith
starts_with-take (suc n) (c ∷ p) s = ground (arith, starts_with-take n p s)

append_assoc : (a b c d : Bytes) (x : ℕ) → a ++ (b ++ x ∷ d) ≡ (a ++ (b ++ x ∷ [])) ++ d
append_assoc [] [] c d x = refl
append_assoc [] (y ∷ b) c d x = ap (λ l. y ∷ l) (append_assoc [] b c d x)
append_assoc (y ∷ a) b c d x = ap (λ l. y ∷ l) (append_assoc a b c d x)

-- The name of a Job has at most 63 bytes, and it begins with the prefix, the backup's name and a
-- dash, by which the controller finds its Jobs, exactly when these have at most 63 bytes together.
pub job_name_lem :
    (prefix name : Bytes) (unix : ℕ)
    → (length (job_name prefix name unix) ≤ 63)
      × ((starts_with (job_name prefix name unix) (prefix ++ (name ++ b'-' ∷ [])) ≡ true)
          ↔ (length prefix + length name + 1 ≤ 63))
unfolding job_name
job_name_lem prefix name unix =
    let e : starts_with (take 63 (prefix ++ (name ++ b'-' ∷ decimal unix)))
          (prefix ++ (name ++ b'-' ∷ []))
        ≡ leb (length (prefix ++ (name ++ b'-' ∷ []))) 63 =
      ap (λ s. starts_with (take 63 s) (prefix ++ (name ++ b'-' ∷ [])))
        (append_assoc prefix name [] (decimal unix) b'-')
      ∙ starts_with-take 63 (prefix ++ (name ++ b'-' ∷ [])) (decimal unix) in
    let l : length (prefix ++ (name ++ b'-' ∷ [])) ≡ length prefix + length name + 1 =
      omega (arith, length-append prefix (name ++ b'-' ∷ []), length-append name (b'-' ∷ [])) in
    (
      omega (arith, length-take 63 (prefix ++ (name ++ b'-' ∷ decimal unix))),
      ((λ h. ground (arith, e, l, h)), (λ h. ground (arith, e, l, h))),
    )
