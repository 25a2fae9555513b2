-- ===== src/Config/Tests/Caddyfile.antt =====
-- The tokens of a Caddyfile, for `caddy.Controller`.
use caddy_esi.Prelude.{
  suc, ◌<◌, ◌≤◌, ◌≡◌, Bool, true, false, List, [], ◌∷◌, arith, length, if◌then◌else◌, Bool-cases,
  inl, inr,
}
use caddy_esi.Prelude.Text.{Bytes, codes, equal}
use caddy_esi.Config.Setup.Loops.{Controller, Forwards}

-- Whether the token begins a line, and its text.
pub record Token : Type 0 where
  pub first : Bool
  pub text : Bytes

-- The tokens from the current one on, and whether it stands in a block.
pub record Cursor : Type 0 where
  pub tokens : List Token
  pub nested : Bool

abbrev move : Cursor → List Token → Cursor
move s ts = record s { tokens = ts }

abbrev next_from : Cursor → List Token → Bool × Cursor
next_from s [] = (false, s)
next_from s (t ∷ []) = (false, s)
next_from s (t ∷ u ∷ ts) = (true, move s (u ∷ ts))

abbrev arg_from : Cursor → List Token → Bool × Cursor
arg_from s [] = (false, s)
arg_from s (t ∷ []) = (false, s)
arg_from s (t ∷ u ∷ ts) = if u.first then (false, s) else (true, move s (u ∷ ts))

abbrev is_open : Token → Bool
is_open t = equal t.text (codes "{")

abbrev is_close : Token → Bool
is_close t = equal t.text (codes "}")

abbrev block_from : Bool → List Token → Bool × Cursor
block_from b [] = (false, record { tokens = []; nested = b })
block_from b (t ∷ []) = (false, record { tokens = t ∷ []; nested = b })
block_from true (t ∷ u ∷ ts) =
    if is_close u
    then (false, record { tokens = u ∷ ts; nested = false })
    else (true, record { tokens = u ∷ ts; nested = true })
block_from false (t ∷ u ∷ []) = (false, record { tokens = t ∷ u ∷ []; nested = false })
block_from false (t ∷ u ∷ v ∷ ts) =
    if is_open u
    then (if is_close v
        then (false, record { tokens = v ∷ ts; nested = false })
        else (true, record { tokens = v ∷ ts; nested = true }))
    else (false, record { tokens = t ∷ u ∷ v ∷ ts; nested = false })

-- The arguments on the rest of the line, and the tokens from the last of them on.
abbrev next_word :
    Bool → Bool → List Token → Bytes → List Bytes × List Token → List Bytes × List Token
next_word true _ here word more = ([], here)
next_word false true here word more = ([], here)
next_word false false here word more = (word ∷ more.0, more.1)

abbrev args_from : Token → List Token → List Bytes × List Token
args_from t [] = ([], t ∷ [])
args_from t (u ∷ ts) = next_word u.first (is_open u) (t ∷ u ∷ ts) u.text (args_from u ts)

abbrev remaining : Cursor → List Token → List Bytes × Cursor
remaining s [] = ([], s)
remaining s (t ∷ ts) = let (args, rest) = args_from t ts in (args, move s rest)

abbrev text_of : List Token → Bytes
text_of [] = []
text_of (t ∷ ts) = t.text

abbrev pub caddyfile : Controller
caddyfile = record {
  State = Cursor;
  next = λ s. next_from s s.tokens;
  next_block = λ s. block_from s.nested s.tokens;
  next_arg = λ s. arg_from s s.tokens;
  val = λ s. text_of s.tokens;
  remaining_args = λ s. remaining s s.tokens;
}

pub next_fewer :
    (b : Bool) (ts : List Token)
    → (next_from (record { tokens = ts; nested = b }) ts).0 ≡ true
    → length (next_from (record { tokens = ts; nested = b }) ts).1.tokens < length ts
next_fewer b [] h = absurd (cc)
next_fewer b (t ∷ []) h = absurd (cc)
next_fewer b (t ∷ u ∷ ts) h = omega arith

pub arg_least :
    (b : Bool) (ts : List Token)
    → length (arg_from (record { tokens = ts; nested = b }) ts).1.tokens ≤ length ts
arg_least b [] = omega arith
arg_least b (t ∷ []) = omega arith
arg_least b (t ∷ u ∷ ts) = elim (Bool-cases u.first) [
  | inl e ↦ rw e (omega arith)
  | inr e ↦ rw e (omega arith)
]

-- A block that goes on has moved.
pub block_moves :
    (b : Bool) (ts : List Token)
    → ((block_from b ts).0 ≡ true → length (block_from b ts).1.tokens < length ts)
      × (length (block_from b ts).1.tokens ≤ length ts)
block_moves b [] = (λ h. absurd (cc), omega arith)
block_moves b (t ∷ []) = (λ h. absurd (cc), omega arith)
block_moves true (t ∷ u ∷ ts) = elim (Bool-cases (is_close u)) [
  | inl e ↦ rw e (λ h. absurd (cc), omega arith)
  | inr e ↦ rw e (λ h. omega arith, omega arith)
]
block_moves false (t ∷ u ∷ []) = (λ h. absurd (cc), omega arith)
block_moves false (t ∷ u ∷ v ∷ ts) = elim (Bool-cases (is_open u)) [
  | inr e ↦ rw e (λ h. absurd (cc), omega arith)
  | inl e ↦ elim (Bool-cases (is_close v)) [
    | inl k ↦ rw (e, k) (λ h. absurd (cc), omega arith)
    | inr k ↦ rw (e, k) (λ h. omega arith, omega arith)
  ]
]

next_word_least :
    (x y : Bool) (here : List Token) (word : Bytes) (more : List Bytes × List Token)
    → length more.1 ≤ length here
    → length (next_word x y here word more).1 ≤ length here
next_word_least true y here word more h = omega arith
next_word_least false true here word more h = omega arith
next_word_least false false here word more h = h

args_least : (t : Token) (ts : List Token) → length (args_from t ts).1 ≤ suc (length ts)
args_least t [] = omega arith
args_least t (u ∷ ts) =
    let more = args_least u ts in
    next_word_least u.first (is_open u) (t ∷ u ∷ ts) u.text (args_from u ts) (omega arith)

pub remaining_least :
    (b : Bool) (ts : List Token)
    → length (remaining (record { tokens = ts; nested = b }) ts).1.tokens ≤ length ts
remaining_least b [] = omega arith
remaining_least b (t ∷ ts) = args_least t ts

unfoldable pub caddyfile_forwards : Forwards caddyfile
caddyfile_forwards = record {
  left = λ s. length s.tokens;
  next_fewer = λ s. next_fewer s.nested s.tokens;
  next_block_fewer = λ s. (block_moves s.nested s.tokens).0;
  next_block_least = λ s. (block_moves s.nested s.tokens).1;
  next_arg_least = λ s. arg_least s.nested s.tokens;
  remaining_args_least = λ s. remaining_least s.nested s.tokens;
}
