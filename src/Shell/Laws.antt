-- ===== src/Shell/Laws.antt =====
-- What a shell reads from the scripts, whatever bytes the quoted texts hold.
pub mod Reading
use Reading.{Reads, IsOpen, Reads-append, Reads-tokens, Reads-quote, Reads-nil, Reads-decimal_int}
use backrest_operator.Prelude.{
  ◌≡◌, refl, Bytes, bytes, Option, none, some, List, [], ◌∷◌, ◌++◌, append-nil,
}
use backrest_operator.Prelude.Int.{ℤ}
use backrest_operator.Prelude.Decimal.{decimal_int}
use backrest_operator.Shell.{
  shell_quote_one, shell_quote, join_words, flag_each, plan_tag, instance_tag,
  restic_forget_prune_clause, retention_suffix, restic_backup_job_script, prune_job_script,
  restic_restore_job_script,
}
use backrest_operator.Shell.Lexer.{Token, word, op, Mode, gap, bare, single, double, tokens, scan}

abbrev pub words : List Bytes → List Token
words [] = []
words (w ∷ ws) = word w ∷ words ws

-- `flag x` for each x
abbrev pub flagged : Bytes → List Bytes → List Token
flagged flag [] = []
flagged flag (x ∷ xs) = word flag ∷ word x ∷ flagged flag xs

-- A text read from any mode outside quotes to another one outside quotes.
pub record Parses (m : Mode) (s : Bytes) (out : List Token) : Type 0 where
  pub last : Mode
  pub closed : IsOpen last
  pub parses : Reads m s out last

pub Parses-then :
    {m m' : Mode} {xs ys : Bytes} {out more : List Token}
    → Reads m xs out m'
    → Parses m' ys more
    → Parses m (xs ++ ys) (out ++ more)
Parses-then a b = record { last = b.last; closed = b.closed; parses = Reads-append a b.parses }

pub Parses-tokens : {s : Bytes} {out : List Token} → Parses gap s out → tokens s ≡ some out
Parses-tokens p = Reads-tokens p.closed p.parses

-- the next part may start in any mode outside quotes
pub Parses-and :
    {m : Mode} {xs ys : Bytes} {out more : List Token}
    → Parses m xs out
    → ((m' : Mode) → IsOpen m' → Parses m' ys more)
    → Parses m (xs ++ ys) (out ++ more)
Parses-and a b = Parses-then a.parses (b a.last a.closed)

pub Parses-nil : (m : Mode) → IsOpen m → Parses m [] []
Parses-nil m o = record { last = m; closed = o; parses = Reads-nil m }

pub Reads-space : (m : Mode) → IsOpen m → Reads m (b' ' ∷ []) [] gap
unfolding scan
Reads-space gap o = record { done = []; scans = refl; reads = refl }
Reads-space (bare w) o = record { done = word w ∷ []; scans = refl; reads = refl }
Reads-space (single w) o = absurd o
Reads-space (double w) o = absurd o

pub Parses-quote : (p : Bytes) → Parses gap (shell_quote_one p) (word p ∷ [])
Parses-quote p = record { last = bare p; closed = tt; parses = Reads-quote p }

-- fixed text that ends outside a word
pub Parses-flag :
    (m : Mode) (o : IsOpen m) (flag : Bytes) {f : Bytes}
    → Reads gap flag (word f ∷ []) gap
    → (x : Bytes) → Parses m (b' ' ∷ flag ++ shell_quote_one x) (word f ∷ word x ∷ [])
Parses-flag m o flag r x = Parses-then (Reads-space m o) (Parses-then r (Parses-quote x))

pub Parses-flag_each :
    (flag : Bytes) {f : Bytes}
    → Reads gap flag (word f ∷ []) gap
    → (xs : List Bytes) (m : Mode) → IsOpen m
    → Parses m (flag_each (b' ' ∷ flag) xs) (flagged f xs)
unfolding flag_each
Parses-flag_each flag r [] m o = Parses-nil m o
Parses-flag_each flag r (x ∷ xs) m o =
    Parses-and (Parses-flag m o flag r x) (λ m' o'. Parses-flag_each flag r xs m' o')

pub Parses-join_words : (ps : List Bytes) → Parses gap (join_words (shell_quote ps)) (words ps)
unfolding join_words shell_quote
Parses-join_words [] = Parses-nil gap tt
Parses-join_words (p ∷ []) = Parses-quote p
Parses-join_words (p ∷ q ∷ ps) =
    Parses-and (Parses-quote p) (λ m o. Parses-then (Reads-space m o) (Parses-join_words (q ∷ ps)))

-- a last part that ends in an open word
pub Parses-close :
    {m : Mode} {xs : Bytes} {out : List Token} (w : Bytes)
    → Reads m xs out (bare w)
    → Parses m xs out
Parses-close w r = record { last = bare w; closed = tt; parses = r }
