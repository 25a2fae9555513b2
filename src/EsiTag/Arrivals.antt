-- ===== src/EsiTag/Arrivals.antt =====
-- esitag/data_tag.go: the order of the tags, `DataTags.Len`, `Less` and `Swap`, in which sort.Sort puts
-- tags that arrive in any order. sort.Sort is a parameter.
use mathlib.Core.Path.{ap₂}
use mathlib.Core.List.{Mem, Perm, Pairwise, mem-cons, mem-cons_self}
use mathlib.Core.List.Pairwise
use mathlib.Core.List.Perm
use mathlib.Core.Logic.Or
use native.Mathlib.Bridge.{le_prop}
use caddy_esi.Prelude.{◌≤◌, ◌<◌, ◌≡◌, ap, Bool, false, List, [], ◌∷◌, arith, ltb}
use caddy_esi.EsiTag.DataTags.{DataTag}

-- `Less`, of two tags.
abbrev pub less : DataTag → DataTag → Bool
less s t = ltb s.start t.start

-- No tag is less than one that stands in front of it.
abbrev pub IsAscending : List DataTag → Type 0
IsAscending = Pairwise (λ s t. less t s ≡ false)

-- Every tag begins behind the beginning of those in front of it.
abbrev pub IsStrict : List DataTag → Type 0
IsStrict = Pairwise (λ s t. s.start < t.start)

-- What sort.Sort documents: the same tags, in the order of `Less`.
pub record Sorts (sort : List DataTag → List DataTag) : Type 0 where
  pub perm : (ts : List DataTag) → Perm (sort ts) ts
  pub ascending : (ts : List DataTag) → IsAscending (sort ts)

tags_set : IsSet DataTag
tags_set = hlevel

-- Of two lists with the same tags, one ascending and one strictly, the heads are equal.
heads_eq :
    (s t : DataTag) (ss ts : List DataTag)
    → IsAscending (s ∷ ss)
    → IsStrict (t ∷ ts)
    → Perm (s ∷ ss) (t ∷ ts)
    → s ≡ t
heads_eq s t ss ts (Pairwise.cons below _) (Pairwise.cons under _) p =
    let s_in : Mem s (t ∷ ts) = (Perm.mem_iff p).0 mem-cons_self in
    let t_in : Mem t (s ∷ ss) = (Perm.mem_iff p).1 mem-cons_self in
    let le : s.start ≤ t.start =
      Or.elim le_prop (mem-cons.0 t_in) (λ e. let q = ap (λ x. x.start) e in omega arith)
        (λ m. let l = below t m in ground arith) in
    Or.elim (tags_set s t) (mem-cons.0 s_in) (λ e. e)
      (λ m. absurd (let l = under s m in omega arith))

pub IsAscending-IsStrict :
    (ss ts : List DataTag) → IsAscending ss → IsStrict ts → Perm ss ts → ss ≡ ts
IsAscending-IsStrict [] ts a b p = Perm.nil-eq p
IsAscending-IsStrict (s ∷ ss) [] a b p = Perm.eq-nil p
IsAscending-IsStrict (s ∷ ss) (t ∷ ts) a b p =
    let heads = heads_eq s t ss ts a b p in
    let tails = Perm.cons_inv (Perm.trans p (Perm.symm (Perm.cons' heads Perm.rfl))) in
    ap₂ ◌∷◌ heads (IsAscending-IsStrict ss ts (Pairwise.of_cons a) (Pairwise.of_cons b) tails)

-- Sorting tags that arrive in any order gives them as they stand in the page.
pub sort_arrivals :
    (sort : List DataTag → List DataTag) (received tags : List DataTag)
    → Sorts sort
    → IsStrict tags
    → Perm received tags
    → sort received ≡ tags
sort_arrivals sort received tags h strict p =
    IsAscending-IsStrict (sort received) tags (h.ascending received) strict
      (Perm.trans (h.perm received) p)
