-- ===== src/EsiTag/Tests/Sorting.antt =====
-- A sort of tags, for sort.Sort.
use mathlib.Core.List.{Mem, Perm, Pairwise, mem-cons, not-mem-nil}
use mathlib.Core.List.Perm
use mathlib.Core.Logic.Or
use caddy_esi.Prelude.{
  ◌≡◌, refl, ap, ◌∙◌, false, List, [], ◌∷◌, arith, if◌then◌else◌, Bool-cases, inl, inr,
}
use caddy_esi.EsiTag.DataTags.{DataTag}
use caddy_esi.EsiTag.Arrivals.{Sorts, IsAscending, less}

unfoldable pub insert : DataTag → List DataTag → List DataTag
insert t [] = t ∷ []
insert t (x ∷ xs) = let rest = insert t xs in if less t x then t ∷ x ∷ xs else x ∷ rest

unfoldable pub insertion_sort : List DataTag → List DataTag
insertion_sort [] = []
insertion_sort (t ∷ ts) = insert t (insertion_sort ts)

insert-Perm : (t : DataTag) (xs : List DataTag) → Perm (insert t xs) (t ∷ xs)
unfolding insert
insert-Perm t [] = Perm.refl (t ∷ [])
insert-Perm t (x ∷ xs) = elim (Bool-cases (less t x)) [
  | inl e ↦ rw (e, insert) (Perm.refl (t ∷ x ∷ xs))
  | inr e ↦ rw (e, insert) (Perm.trans (Perm.cons' refl (insert-Perm t xs)) (Perm.swap t x xs))
]

insertion_sort-Perm : (ts : List DataTag) → Perm (insertion_sort ts) ts
unfolding insertion_sort
insertion_sort-Perm [] = Perm.refl []
insertion_sort-Perm (t ∷ ts) =
    Perm.trans (insert-Perm t (insertion_sort ts)) (Perm.cons' refl (insertion_sort-Perm ts))

-- Something that is less than none of a list, and not less than a tag.
below_all :
    (s t : DataTag) (xs : List DataTag)
    → less t s ≡ false
    → ((x : DataTag) → Mem x xs → less x s ≡ false)
    → (x : DataTag) → Mem x (t ∷ xs)
    → less x s ≡ false
below_all s t xs h k x m =
    let prop : IsProp (less x s ≡ false) = hlevel in
    Or.elim prop (mem-cons.0 m) (λ e. ap (λ y. less y s) e ∙ h) (k x)

insert-IsAscending : (t : DataTag) (xs : List DataTag) → IsAscending xs → IsAscending (insert t xs)
unfolding insert
insert-IsAscending t [] Pairwise.nil = Pairwise.cons (λ x m. absurd (not-mem-nil m)) Pairwise.nil
insert-IsAscending t (x ∷ xs) (Pairwise.cons below s) = elim (Bool-cases (less t x)) [
  | inl e ↦
      rw (e, insert)
        (Pairwise.cons (below_all t x xs (ground arith) (λ y m. let b = below y m in ground arith))
          (Pairwise.cons below s))
  | inr e ↦
      rw (e, insert)
        (Pairwise.cons (λ y m. below_all x t xs e below y ((Perm.mem_iff (insert-Perm t xs)).0 m))
          (insert-IsAscending t xs s))
]

insertion_sort-IsAscending : (ts : List DataTag) → IsAscending (insertion_sort ts)
unfolding insertion_sort
insertion_sort-IsAscending [] = Pairwise.nil
insertion_sort-IsAscending (t ∷ ts) =
    insert-IsAscending t (insertion_sort ts) (insertion_sort-IsAscending ts)

pub insertion_sort-Sorts : Sorts insertion_sort
insertion_sort-Sorts = record { perm = insertion_sort-Perm; ascending = insertion_sort-IsAscending }
