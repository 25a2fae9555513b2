-- ===== src/EsiTag/Tests/Ascii.antt =====
-- The parameters for strings, for texts of bytes below 128.
use caddy_esi.Prelude.{
  ℕ, ◌≡◌, refl, Bool, true, false, not, ◌&&◌, ◌||◌, List, [], ◌∷◌, ◌==◌, arith, map, ltb,
  if◌then◌else◌, ◌+◌,
}
use caddy_esi.Prelude.Text.{Bytes}
use caddy_esi.Helper.Unicode.{Rune, Unicode}
use caddy_esi.EsiTag.Attributes.RoundTrip.{IsPlain, AllPlain, AllBut}

abbrev pub rune : ℕ → Rune
rune c = record { code = c; bytes = c ∷ [] }

abbrev pub runes : Bytes → List Rune
runes s = map rune s

abbrev small : ℕ → ℕ
small c = if ltb 64 c && ltb c 91 then c + 32 else c

abbrev pub ascii : Unicode
ascii = record {
  decode = runes;
  is_quote = λ c. c == 34 || c == 39;
  is_space = λ c. c == 32;
  to_lower = map small;
  to_upper = λ s. s;
  trim_space = λ s. s;
}

abbrev ordinary : ℕ → Bool
ordinary c = not (c == 0) && not (c == 34) && not (c == 39) && not (c == 32) && not (c == b'=')

abbrev pub all_ordinary : Bytes → Bool
all_ordinary [] = true
all_ordinary (c ∷ s) = ordinary c && all_ordinary s

abbrev pub all_but : ℕ → Bytes → Bool
all_but q [] = true
all_but q (c ∷ s) = not (c == q) && all_but q s

and-left : (a b : Bool) → (a && b) ≡ true → a ≡ true
and-left true b h = refl
and-left false b h = h

and-right : (a b : Bool) → (a && b) ≡ true → b ≡ true
and-right true b h = h
and-right false b h = absurd (cc)

ordinary-IsPlain : (c : ℕ) → ordinary c ≡ true → IsPlain ascii (rune c)
ordinary-IsPlain c h = record {
  no_zero = ground arith;
  no_quote = ground arith;
  no_space = ground arith;
  no_equals = ground arith;
}

pub all_ordinary-AllPlain : (s : Bytes) → all_ordinary s ≡ true → AllPlain ascii (runes s)
all_ordinary-AllPlain [] h = tt
all_ordinary-AllPlain (c ∷ s) h = (
  ordinary-IsPlain c (and-left (ordinary c) (all_ordinary s) h),
  all_ordinary-AllPlain s (and-right (ordinary c) (all_ordinary s) h),
)

pub all_but-AllBut : (q : ℕ) (s : Bytes) → all_but q s ≡ true → AllBut ascii q (runes s)
all_but-AllBut q [] h = tt
all_but-AllBut q (c ∷ s) h = (
  λ e. let l = and-left (not (c == q)) (all_but q s) h in ground arith,
  all_but-AllBut q s (and-right (not (c == q)) (all_but q s) h),
)
