-- ===== src/Shell/Lexer.antt =====
-- How a POSIX shell reads a script: an independent description, for the theorems about the scripts.
-- A byte that the shell would expand or that this description does not cover makes it fail.
use backrest_operator.Prelude.{
  ℕ, Bytes, Bool, ◌&&◌, ◌||◌, Option, none, some, List, [], ◌∷◌, ◌++◌, leb, eq_num, if◌then◌else◌,
}

-- a word after quote removal, or an operator byte
pub data Token : Type 0 where
  word : Bytes → Token
  op : ℕ → Token

-- between words, in a word outside quotes, inside '…', inside "…"
pub data Mode : Type 0 where
  gap : Mode
  bare single double : Bytes → Mode

-- ; & | > < ( ) and newline
abbrev is_operator : ℕ → Bool
is_operator c =
    eq_num c b';'
    || eq_num c b'&'
    || eq_num c b'|'
    || eq_num c b'>'
    || eq_num c b'<'
    || eq_num c b'('
    || eq_num c b')'
    || eq_num c 10

-- bytes that stand for themselves outside quotes: letters, digits and `-./:=_`
abbrev pub is_plain : ℕ → Bool
is_plain c =
    (leb b'a' c && leb c b'z')
    || (leb b'A' c && leb c b'Z')
    || (leb b'0' c && leb c b'9')
    || eq_num c b'-'
    || eq_num c b'.'
    || eq_num c b'/'
    || eq_num c b':'
    || eq_num c b'='
    || eq_num c b'_'

-- `$`, a backquote and a backslash stay special inside "…"
abbrev is_live : ℕ → Bool
is_live c = eq_num c b'$' || eq_num c 96 || eq_num c b'\\'

-- one byte: the tokens that it completes, and the mode after it
unfoldable pub read : Mode → ℕ → Option (List Token × Mode)
read gap c =
    if eq_num c b'\''
    then some ([], single [])
    else if eq_num c b'"'
    then some ([], double [])
    else if eq_num c b' '
    then some ([], gap)
    else if is_operator c
    then some (op c ∷ [], gap)
    else if is_plain c
    then some ([], bare (c ∷ []))
    else none
read (bare w) c =
    if eq_num c b'\''
    then some ([], single w)
    else if eq_num c b'"'
    then some ([], double w)
    else if eq_num c b' '
    then some (word w ∷ [], gap)
    else if is_operator c
    then some (word w ∷ op c ∷ [], gap)
    else if is_plain c
    then some ([], bare (w ++ c ∷ []))
    else none
read (single w) c = if eq_num c b'\'' then some ([], bare w) else some ([], single (w ++ c ∷ []))
read (double w) c =
    if eq_num c b'"'
    then some ([], bare w)
    else if is_live c
    then none
    else some ([], double (w ++ c ∷ []))

infixl 5 ◌>>=◌
abbrev pub ◌>>=◌ {ℓ κ} : {A : Type ℓ} {B : Type κ} → Option A → (A → Option B) → Option B
none >>= f = none
some a >>= f = f a

-- put the tokens of an earlier part in front
abbrev pub after : List Token → List Token × Mode → Option (List Token × Mode)
after ts (us, m) = some (ts ++ us, m)

unfoldable pub scan : Mode → Bytes → Option (List Token × Mode)
unfolding read
scan m [] = some ([], m)
scan m (c ∷ s) = read m c >>= λ (ts, m'). scan m' s >>= after ts

-- at the end of the script an open quote is an error
abbrev finish : List Token × Mode → Option (List Token)
finish (ts, gap) = some ts
finish (ts, bare w) = some (ts ++ word w ∷ [])
finish (ts, single w) = none
finish (ts, double w) = none

unfoldable pub tokens : Bytes → Option (List Token)
unfolding scan
tokens s = scan gap s >>= finish
