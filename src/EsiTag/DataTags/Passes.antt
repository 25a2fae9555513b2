-- ===== src/EsiTag/DataTags/Passes.antt =====
-- The tags that the loop of `InjectContent` passes over: those that are done, and those that begin
-- behind the data.
use mathlib.Core.Path.{ap₂}
use caddy_esi.Prelude.{
  ℕ, zero, suc, ◌+◌, ◌≤◌, ◌<◌, ◌≡◌, refl, sym, ap, ◌∙◌, List, [], ◌∷◌, ◌++◌, some, arith, length,
  replicate, get_elem?, append_assoc, length-append, get_elem?-append_length,
}
use caddy_esi.Writer.{Writer}
use caddy_esi.EsiTag.DataTags.{DataTag, WriteState, waiting, done, Chunk}
use caddy_esi.EsiTag.DataTags.Flags.{IsChunk, has_full_tag_beyond, has_pos_start_beyond}
use caddy_esi.EsiTag.DataTags.Inject.{
  Progress, Step, next, ◌>>=◌, stop, visit, visit_all, visit_waiting,
}
use caddy_esi.EsiTag.DataTags.Fits.{get_waiting}

-- Tags that begin behind the data, and do not end before they begin.
abbrev pub Beyond : ℕ → List DataTag → Type 0
Beyond p [] = Unit
Beyond p (t ∷ ts) = (p ≤ t.start) × (t.start < t.end) × Beyond p ts

pub replicate-append {ℓ} :
    {A : Type ℓ} (m n : ℕ) (x : A) → replicate m x ++ replicate n x ≡ replicate (m + n) x
replicate-append zero n x = let e : zero + n ≡ n = omega arith in rw e
replicate-append (suc m) n x =
    let e : suc m + n ≡ suc (m + n) = omega arith in rw e (ap (λ l. x ∷ l) (replicate-append m n x))

bind_regroup :
    {S : Type 0} (m : Step S) (f g h : Progress S → Step S)
    → ((p : Progress S) → f p ≡ (g p >>= h))
    → (m >>= f) ≡ (m >>= g >>= h)
bind_regroup (next p) f g h e = e p
bind_regroup (stop p x) f g h e = refl

module _ (w : Writer) where
  open w use {Sink}

  pub visit_all-append :
      (c : Chunk) (xs ys : List DataTag) (di : ℕ) (p : Progress Sink)
      → visit_all w c di (xs ++ ys) p
        ≡ (visit_all w c di xs p >>= visit_all w c (di + length xs) ys)
  unfolding visit_all
  visit_all-append c [] ys di p = let e : di + 0 ≡ di = omega arith in rw e
  visit_all-append c (x ∷ xs) ys di p =
      let e : di + suc (length xs) ≡ di + 1 + length xs = omega arith in
      rw e (
        bind_regroup (visit w (get_elem? p.states di) c di x p) _ _ _
          (visit_all-append c xs ys (di + 1)))

  -- Tags that are done are passed over.
  pub skip_done :
      (c : Chunk) (xs : List DataTag) (di : ℕ) (p : Progress Sink) (before after : List WriteState)
      → di ≡ length before
      → p.states ≡ before ++ (replicate (length xs) done ++ after)
      → visit_all w c di xs p ≡ next p
  unfolding visit_all
  skip_done c [] di p before after d s = refl
  skip_done c (x ∷ xs) di p before after d s =
      let g : get_elem? p.states di ≡ some done =
        ap₂ get_elem? s d
        ∙ get_elem?-append_length before done (replicate (length xs) done ++ after) in
      rw g (
        skip_done c xs (di + 1) p (before ++ done ∷ []) after
          (omega (arith, length-append before (done ∷ [])))
          (s ∙ sym (append_assoc before (done ∷ []) (replicate (length xs) done ++ after))))

  -- Tags behind the data wait.
  pub skip-Beyond :
      (c : Chunk) (xs : List DataTag) (di : ℕ) (p : Progress Sink) (before : List WriteState)
      → IsChunk c
      → Beyond c.cur xs
      → di ≡ length before
      → p.states ≡ before ++ replicate (length xs) waiting
      → visit_all w c di xs p ≡ next p
  unfolding visit_all
  skip-Beyond c [] di p before k h d s = refl
  skip-Beyond c (x ∷ xs) di p before k (h, e, hs) d s =
      let g = get_waiting p.states before (length xs) di s d in
      let idle : visit_waiting w c di x p ≡ next p =
        unfold visit_waiting in
        rw (has_full_tag_beyond c x k (omega arith), has_pos_start_beyond c x h) in
      rw (g, idle)
        (skip-Beyond c xs (di + 1) p (before ++ waiting ∷ []) k hs
          (omega (arith, length-append before (waiting ∷ [])))
          (s ∙ sym (append_assoc before (waiting ∷ []) (replicate (length xs) waiting))))
