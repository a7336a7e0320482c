-- ===== src/Shell/Laws/Reading.antt =====
-- Reading a script part by part.
use backrest_operator.Prelude.{
  ℕ, ◌≡◌, refl, ◌∙◌, sym, ap, Bytes, bytes, Option, none, some, List, [], ◌∷◌, ◌++◌, append-nil,
  append_assoc, arith, replace_all, eq_num, Bool-cases, Option-cases, eq_num_iff, inl, inr, All,
  suc,
}
use backrest_operator.Prelude.Int.{ℤ, pos, negsuc}
use backrest_operator.Prelude.Decimal.{decimal_int, decimal, IsDigit, decimal-IsDigit, decimal-cons}
use backrest_operator.Shell.{shell_quote_one}
use backrest_operator.Shell.Lexer.{
  Token, word, Mode, gap, bare, single, double, read, scan, tokens, after, ◌>>=◌,
}

after-nil : (o : Option (List Token × Mode)) → (o >>= after []) ≡ o
after-nil none = refl
after-nil (some (ts, m)) = refl

after-append :
    (o : Option (List Token × Mode)) (ts us : List Token)
    → ((o >>= after us) >>= after ts) ≡ (o >>= after (ts ++ us))
after-append none ts us = refl
after-append (some (vs, m)) ts us = rw append_assoc

-- reading on from where an earlier part stopped
abbrev onward : Bytes → List Token × Mode → Option (List Token × Mode)
onward ys (ts, m) = scan m ys >>= after ts

onward-after :
    (o : Option (List Token × Mode)) (ys : Bytes) (ts : List Token)
    → ((o >>= onward ys) >>= after ts) ≡ ((o >>= after ts) >>= onward ys)
onward-after none ys ts = refl
onward-after (some (us, m)) ys ts = after-append (scan m ys) ts us

scan-append : (m : Mode) (xs ys : Bytes) → scan m (xs ++ ys) ≡ (scan m xs >>= onward ys)
unfolding scan
scan-append m [] ys = sym (after-nil (scan m ys))
scan-append m (c ∷ xs) ys = elim (Option-cases (read m c)) [
  | inl e ↦ rw e
  | inr (p, e) ↦ rw e (rw (scan-append p.1 xs ys) (onward-after (scan p.1 xs) ys p.0))
]

-- the word that is still open
abbrev pub pending : Mode → List Token
pending gap = []
pending (bare w) = word w ∷ []
pending (single w) = word w ∷ []
pending (double w) = word w ∷ []

-- no quote is open
abbrev pub IsOpen : Mode → Type 0
IsOpen gap = Unit
IsOpen (bare w) = Unit
IsOpen (single w) = ⊥
IsOpen (double w) = ⊥

-- From mode `m` the shell reads `s` as the tokens `out`, and is in mode `m'` after it.
pub record Reads (m : Mode) (s : Bytes) (out : List Token) (m' : Mode) : Type 0 where
  pub done : List Token
  pub scans : scan m s ≡ some (done, m')
  pub reads : done ++ pending m' ≡ pending m ++ out

pub Reads-append :
    {m m' m'' : Mode} {xs ys : Bytes} {out more : List Token}
    → Reads m xs out m'
    → Reads m' ys more m''
    → Reads m (xs ++ ys) (out ++ more) m''
Reads-append {m} {m'} {m''} {xs} {ys} {out} {more} a b = record {
  done = a.done ++ b.done;
  scans = rw (scan-append m xs ys) (rw a.scans (rw b.scans));
  reads =
      append_assoc a.done b.done (pending m'')
      ∙ ap (λ (t : List Token). a.done ++ t) b.reads
      ∙ sym (append_assoc a.done (pending m') more)
      ∙ ap (λ (t : List Token). t ++ more) a.reads
      ∙ append_assoc (pending m) out more;
}

pub Reads-tokens :
    {s : Bytes} {out : List Token} {m' : Mode}
    → IsOpen m'
    → Reads gap s out m'
    → tokens s ≡ some out
unfolding tokens
Reads-tokens {m' = gap} o r = rw r.scans (ap some (sym (append-nil r.done) ∙ r.reads))
Reads-tokens {m' = bare w} o r = rw r.scans (ap some r.reads)
Reads-tokens {m' = single w} o r = absurd o
Reads-tokens {m' = double w} o r = absurd o

-- inside '…' the replaced text leaves the original behind
scan-replace_all :
    (w p : Bytes)
    → scan (single w) (replace_all b'\'' (bytes "'\"'\"'") p ++ b'\'' ∷ [])
      ≡ some ([], bare (w ++ p))
unfolding scan bytes
scan-replace_all w [] = rw (append-nil w)
scan-replace_all w (c ∷ p) = elim (Bool-cases (eq_num c b'\'')) [
  | inl e ↦
      rw ((eq_num_iff c b'\'').0 e)
        (rw (scan-replace_all (w ++ b'\'' ∷ []) p) (rw (append_assoc w (b'\'' ∷ []) p)))
  | inr e ↦
      rw e (rw (e, read) (rw (scan-replace_all (w ++ c ∷ []) p) (rw (append_assoc w (c ∷ []) p))))
]

pub Reads-quote : (p : Bytes) → Reads gap (shell_quote_one p) (word p ∷ []) (bare p)
unfolding shell_quote_one scan
Reads-quote p = record { done = []; scans = rw (scan-replace_all [] p); reads = refl }

pub Reads-nil : (m : Mode) → Reads m [] [] m
unfolding scan
Reads-nil m = record { done = []; scans = refl; reads = sym (append-nil (pending m)) }

plain_digit : (c : ℕ) → IsDigit c → read gap c ≡ some ([], bare (c ∷ []))
unfolding read
plain_digit c h = ground arith

bare_digit : (w : Bytes) (c : ℕ) → IsDigit c → read (bare w) c ≡ some ([], bare (w ++ c ∷ []))
unfolding read
bare_digit w c h = ground arith

scan_digits : (w s : Bytes) → All IsDigit s → scan (bare w) s ≡ some ([], bare (w ++ s))
unfolding scan
scan_digits w [] h = rw (append-nil w)
scan_digits w (c ∷ s) (d, h) =
    rw (bare_digit w c d) (rw (scan_digits (w ++ c ∷ []) s h) (rw (append_assoc w (c ∷ []) s)))

scan_number :
    (s : Bytes) → All IsDigit s → (c : ℕ) (t : Bytes) → s ≡ c ∷ t → scan gap s ≡ some ([], bare s)
unfolding scan
scan_number [] h c t e = cc
scan_number (c ∷ s) (d, h) _ _ _ = rw (plain_digit c d) (rw (scan_digits (c ∷ []) s h))

pub Reads-decimal_int :
    (k : ℤ) → Reads gap (decimal_int k) (word (decimal_int k) ∷ []) (bare (decimal_int k))
unfolding decimal_int scan
Reads-decimal_int (pos n) = record {
  done = [];
  scans = let (c, s, e) = decimal-cons n in scan_number (decimal n) (decimal-IsDigit n) c s e;
  reads = refl;
}
Reads-decimal_int (negsuc n) = record {
  done = [];
  scans = rw (scan_digits (b'-' ∷ []) (decimal (suc n)) (decimal-IsDigit (suc n)));
  reads = refl;
}
