-- ===== src/Prelude/Text.antt =====
-- Byte strings. A Go string or []byte is the list of its bytes.
use Prim.Native.Char.{code}
use Prim.Native.String.{String}
use caddy_esi.Prelude.{
  ℕ, ◌≡◌, ◌↔◌, refl, Bool, true, false, ◌&&◌, List, [], ◌∷◌, arith, ◌==◌, length,
}

abbrev pub Bytes : Type 0
Bytes = List ℕ

-- The code points of a literal: its bytes, where the text is ASCII.
abbrev pub codes : String → Bytes
codes String.[] = []
codes (String.◌∷◌ c s) = code c ∷ codes s

-- Equality of two strings.
unfoldable pub equal : Bytes → Bytes → Bool
equal [] t = length t == 0
equal (c ∷ s) [] = false
equal (c ∷ s) (d ∷ t) = c == d && equal s t

pub equal_iff : (s t : Bytes) → (equal s t ≡ true) ↔ (s ≡ t)
unfolding equal
equal_iff [] [] = (λ _. refl, λ _. refl)
equal_iff [] (d ∷ t) = ground arith
equal_iff (c ∷ s) [] = ground arith
equal_iff (c ∷ s) (d ∷ t) = let tails = equal_iff s t in ground (arith, tails)

pub equal_self : (s : Bytes) → equal s s ≡ true
equal_self s = (equal_iff s s).1 refl

-- strings.HasPrefix(s, p), with the prefix first.
unfoldable pub starts_with : Bytes → Bytes → Bool
starts_with [] s = true
starts_with (p ∷ ps) [] = false
starts_with (p ∷ ps) (c ∷ s) = p == c && starts_with ps s

-- `mark` does not occur in `s`, and no end of `s` begins it.
abbrev pub Avoids : Bytes → Bytes → Type 0
Avoids mark [] = Unit
Avoids mark (c ∷ s) =
    (starts_with mark (c ∷ s) ≡ false) × (starts_with (c ∷ s) mark ≡ false) × Avoids mark s
