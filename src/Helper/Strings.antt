-- ===== src/Helper/Strings.antt =====
-- helper/strings.go, and the functions of the package strings that the program uses.
use caddy_esi.Prelude.{
  ℕ, suc, Bool, List, [], ◌∷◌, ◌++◌, Option, none, some, ◌==◌, if◌then◌else◌, ◌≡◌, ◌≢◌, ◌⊎◌, inl,
  inr, refl, ap, arith, length,
}
use caddy_esi.Prelude.Text.{Bytes}

abbrev shifted : Option ℕ → Option ℕ
shifted none = none
shifted (some i) = some (suc i)

shifted-none : (o : Option ℕ) → shifted o ≡ none → o ≡ none
shifted-none none h = refl
shifted-none (some i) h = cc

-- strings.Index(s, c), for a string of one byte, with the byte first; `none` is -1.
unfoldable pub index : ℕ → Bytes → Option ℕ
index c [] = none
index c (x ∷ s) = if x == c then some 0 else shifted (index c s)

-- strings.Join(values, sep), with the separator first.
unfoldable pub join : Bytes → List Bytes → Bytes
join sep [] = []
join sep (v ∷ []) = v
join sep (v ∷ w ∷ vs) = v ++ (sep ++ join sep (w ∷ vs))

abbrev prepend : ℕ → List Bytes → List Bytes
prepend c [] = (c ∷ []) ∷ []
prepend c (s ∷ ss) = (c ∷ s) ∷ ss

-- strings.Split(s, sep), for a separator of one byte.
unfoldable pub split_on : ℕ → Bytes → List Bytes
split_on sep [] = [] ∷ []
split_on sep (c ∷ s) =
    let parts = split_on sep s in if c == sep then [] ∷ parts else prepend c parts

==-cases : (x y : ℕ) → (x ≡ y) ⊎ (x ≢ y)
==-cases x y = ground arith

abbrev pub Without : ℕ → Bytes → Type 0
Without c [] = Unit
Without c (x ∷ s) = (x ≢ c) × Without c s

pub index_none : (c : ℕ) (s : Bytes) → Without c s → index c s ≡ none
unfolding index
index_none c [] h = refl
index_none c (x ∷ s) (ne, h) = rw (index_none c s h) (ground arith)

pub index-append : (c : ℕ) (s t : Bytes) → Without c s → index c (s ++ c ∷ t) ≡ some (length s)
unfolding index
index-append c [] t h = ground arith
index-append c (x ∷ s) t (ne, h) = rw (index-append c s t h) (ground arith)

-- A string up to the first `c` in it.
pub record Cut (c : ℕ) (s : Bytes) : Type 0 where
  pub before : Bytes
  pub after : Bytes
  pub splits : s ≡ before ++ c ∷ after
  pub clear : Without c before

pub first-Cut : (c : ℕ) (s : Bytes) → Without c s ⊎ Cut c s
first-Cut c [] = inl tt
first-Cut c (x ∷ s) = elim (==-cases x c) [
  | inl e ↦ inr (record { before = []; after = s; splits = ap (λ y. y ∷ s) e; clear = tt })
  | inr ne ↦ elim (first-Cut c s) [
    | inl h ↦ inl (ne, h)
    | inr k ↦ inr (record {
      before = x ∷ k.before;
      after = k.after;
      splits = ap (λ t. x ∷ t) k.splits;
      clear = (ne, k.clear);
    })
  ]
]

pub Without-append : (c : ℕ) (s t : Bytes) → Without c s → Without c t → Without c (s ++ t)
Without-append c [] t h k = k
Without-append c (x ∷ s) t (ne, h) k = (ne, Without-append c s t h k)

pub Without-index : (c : ℕ) (s : Bytes) → index c s ≡ none → Without c s
unfolding index
Without-index c [] h = tt
Without-index c (x ∷ s) h = elim (==-cases x c) [
  | inl e ↦ absurd (ground arith)
  | inr ne ↦ (ne, Without-index c s (shifted-none (index c s) (ground arith)))
]

abbrev last_of : Option ℕ → Bool → Option ℕ
last_of (some i) here = some (suc i)
last_of none here = if here then some 0 else none

-- strings.LastIndexByte(s, c), with the byte first; `none` is -1.
unfoldable pub last_index : ℕ → Bytes → Option ℕ
last_index c [] = none
last_index c (x ∷ s) = last_of (last_index c s) (x == c)
