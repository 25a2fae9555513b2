-- ===== src/EsiTag/Replacer/Templates.antt =====
-- Strings as texts and placeholders in turn: `Replace` puts a value in place of each placeholder.
use caddy_esi.Prelude.{
  ℕ, zero, suc, ◌+◌, ◌<◌, ◌≡◌, refl, ap, ◌∙◌, ◌⊎◌, inl, inr, List, [], ◌∷◌, ◌++◌, arith, length,
  length-append,
}
use caddy_esi.Prelude.Text.{Bytes}
use caddy_esi.Helper.Strings.{Without, Cut, first-Cut}

-- A text, and the name of the placeholder behind it.
pub record Part : Type 0 where
  pub text : Bytes
  pub name : Bytes

abbrev pub placeholder : Bytes → Bytes
placeholder name = b'{' ∷ (name ++ b'}' ∷ [])

abbrev pub render : List Part → Bytes → Bytes
render [] last = last
render (p ∷ ps) last = p.text ++ b'{' ∷ (p.name ++ b'}' ∷ render ps last)

-- Each placeholder by its value.
abbrev pub fill : (Bytes → Bytes) → List Part → Bytes → Bytes
fill value [] last = last
fill value (p ∷ ps) last = p.text ++ (value (placeholder p.name) ++ fill value ps last)

-- No placeholder: a brace that opens is not closed.
abbrev pub IsPlain : Bytes → Type 0
IsPlain s = Without b'{' s ⊎ ((k : Cut b'{' s) × Without b'}' k.after)

abbrev pub IsTemplate : List Part → Bytes → Type 0
IsTemplate [] last = IsPlain last
IsTemplate (p ∷ ps) last = Without b'{' p.text × Without b'}' p.name × IsTemplate ps last

-- Every string is a template.
pub record Read (s : Bytes) : Type 0 where
  pub parts : List Part
  pub last : Bytes
  pub is_template : IsTemplate parts last
  pub reads : s ≡ render parts last

Read-from : (fuel : ℕ) (s : Bytes) → length s < fuel → Read s
Read-from zero s h = absurd (omega arith)
Read-from (suc fuel) s h = elim (first-Cut b'{' s) [
  | inl clear ↦ record { parts = []; last = s; is_template = inl clear; reads = refl }
  | inr open_ ↦ elim (first-Cut b'}' open_.after) [
    | inl clear ↦ record { parts = []; last = s; is_template = inr (open_, clear); reads = refl }
    | inr close ↦
        let n : length s
            ≡ length open_.before + suc (length close.before + suc (length close.after)) =
          omega (
            arith,
            ap length open_.splits,
            ap length close.splits,
            length-append open_.before (b'{' ∷ open_.after),
            length-append close.before (b'}' ∷ close.after),
          ) in
        let more = Read-from fuel close.after (omega arith) in
        record {
          parts = record { text = open_.before; name = close.before } ∷ more.parts;
          last = more.last;
          is_template = (open_.clear, close.clear, more.is_template);
          reads =
              open_.splits
              ∙ ap (λ t. open_.before ++ b'{' ∷ t) close.splits
              ∙ ap (λ t. open_.before ++ b'{' ∷ (close.before ++ b'}' ∷ t)) more.reads;
        }
  ]
]

pub read : (s : Bytes) → Read s
read s = Read-from (suc (length s)) s (omega arith)
