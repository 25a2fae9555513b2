-- ===== src/EsiTag/DataTags/Length.antt =====
-- `DataLen` (esitag/data_tag.go) is what the contents of the tags add to the length of a page.
use mathlib.Core.Path.{subst}
use caddy_esi.Prelude.{
  ℕ, ◌+◌, ◌-◌, ◌≡◌, ap, List, [], ◌∷◌, ◌++◌, arith, length, take, drop, length-append, length-take,
  length-drop,
}
use caddy_esi.Prelude.Int.{pos, pos_part, neg_part, sub_ℕ, ◌+ℤ◌, int_laws}
use caddy_esi.Prelude.Text.{Bytes}
use caddy_esi.EsiTag.DataTags.{DataTag, data_len}
use caddy_esi.EsiTag.DataTags.Splice.{splice}
use caddy_esi.EsiTag.DataTags.Pieces.{Within}

sub_ℕ_parts : (a b : ℕ) → pos_part (sub_ℕ a b) + b ≡ neg_part (sub_ℕ a b) + a
sub_ℕ_parts a b = ground arith

-- The length of a page behind position `q` with the contents in place of the tags is the length of
-- the page plus `DataLen`, as integers: the contents may be shorter than the tags.
pub splice-data_len :
    (ts : List DataTag) (lo q : ℕ) (bytes : Bytes)
    → Within lo q (q + length bytes) ts
    → pos (length (splice q ts bytes)) ≡ pos (length bytes) +ℤ data_len ts
unfolding splice data_len
splice-data_len [] lo q bytes i = omega int_laws
splice-data_len (t ∷ ts) lo q bytes (a₁, a₂, a₃, a₄, i) =
    let rest = drop (t.end - q) bytes in
    let l = length-drop (t.end - q) bytes in
    let n : q + length bytes ≡ t.end + length rest = omega arith in
    let ih = splice-data_len ts lo t.end rest (subst (λ m. Within lo t.end m ts) n i) in
    let b = take (t.start - q) bytes in
    let more = splice t.end ts rest in
    omega (
      int_laws,
      sub_ℕ_parts,
      ap pos_part ih,
      ap neg_part ih,
      l,
      length-take (t.start - q) bytes,
      length-append b (t.bytes ++ more),
      length-append t.bytes more,
    )
