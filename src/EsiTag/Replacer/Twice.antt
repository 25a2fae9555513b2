-- ===== src/EsiTag/Replacer/Twice.antt =====
-- `Replace` ends for every string, and what it has replaced once it does not replace again, unless a
-- value brings in a brace.
use mathlib.Core.Path.{subst}
use mathlib.Core.Bool.{true≢false}
use caddy_esi.Prelude.{
  ◌+◌, ◌≡◌, refl, sym, ap, ◌∙◌, inl, inr, true, false, List, [], ◌∷◌, ◌++◌, Option, none, some,
  arith, length, append_assoc, Bool-cases,
}
use caddy_esi.Prelude.Text.{Bytes}
use caddy_esi.Helper.Strings.{Without, Without-append}
use caddy_esi.EsiTag.Replacer.{Outside, Replacer, replace, has_brace}
use caddy_esi.EsiTag.Replacer.Templates.{Part, placeholder, render, fill, IsPlain, IsTemplate, read}
use caddy_esi.EsiTag.Replacer.Replaces.{Same-refl, value, Fills, replace_loop-render}

has_brace-append : (s t : Bytes) → has_brace (s ++ b'{' ∷ t) ≡ true
has_brace-append [] t = ground arith
has_brace-append (c ∷ s) t = rw (has_brace-append s t) (ground arith)

module _ (o : Outside) where
  replaces_plain :
      (ps : List Part) (last : Bytes) (r : Replacer)
      → has_brace (render ps last) ≡ false
      → render ps last ≡ fill (value o r) ps last
  replaces_plain [] last r h = refl
  replaces_plain (p ∷ ps) last r h =
      absurd (true≢false (sym (has_brace-append p.text (p.name ++ b'}' ∷ render ps last)) ∙ h))

  -- `Replace` ends. In a string of texts and placeholders in turn it puts in place of each
  -- placeholder the value that `getSubstitution` gives for it, and leaves the texts as they are, if no text
  -- holds `{`, no name of a placeholder holds `}`, and a `{` in the last text is not followed by `}`.
  pub replace-render :
      (ps : List Part) (last : Bytes) (r : Replacer)
      → IsTemplate ps last
      → Fills o r (replace o r (render ps last)) (fill (value o r) ps last)
  unfolding replace
  replace-render ps last r t = elim (Bool-cases (has_brace (render ps last))) [
    | inl h ↦
        rw (h, replace)
          (replace_loop-render o ps last (length (render ps last) + 1) r r [] t (omega arith)
            (Same-refl r))
    | inr h ↦
        rw (h, replace)
          (record {
            after = r;
            runs = ap (λ x. some (x, r)) (replaces_plain ps last r h);
            same = Same-refl r;
          })
  ]

  IsPlain-append : (s t : Bytes) → Without b'{' s → IsPlain t → IsPlain (s ++ t)
  IsPlain-append s t h (inl k) = inl (Without-append b'{' s t h k)
  IsPlain-append s t h (inr (k, c)) = inr (
    record {
      before = s ++ k.before;
      after = k.after;
      splits = ap (λ x. s ++ x) k.splits ∙ sym (append_assoc s k.before (b'{' ∷ k.after));
      clear = Without-append b'{' s k.before h k.clear;
    },
    c,
  )

  fill-IsPlain :
      (f : Bytes → Bytes) (ps : List Part) (last : Bytes)
      → ((key : Bytes) → Without b'{' (f key))
      → IsTemplate ps last
      → IsPlain (fill f ps last)
  fill-IsPlain f [] last v t = t
  fill-IsPlain f (p ∷ ps) last v (ht, hn, t) =
      IsPlain-append p.text (f (placeholder p.name) ++ fill f ps last) ht (
        IsPlain-append (f (placeholder p.name)) (fill f ps last) (v (placeholder p.name))
          (fill-IsPlain f ps last v t))

  -- That `Replace` ends, with what it returns: the string is texts and placeholders, and these are replaced.
  pub record Ends (r : Replacer) (s : Bytes) : Type 0 where
    pub parts : List Part
    pub last : Bytes
    pub is_template : IsTemplate parts last
    pub reads : render parts last ≡ s
    pub filled : Fills o r (replace o r s) (fill (value o r) parts last)

  -- `Replace` ends for every string: the string can be read as texts and placeholders in turn, and `Replace` returns it
  -- with the value of each placeholder in its place.
  pub replace-Ends : (r : Replacer) (s : Bytes) → Ends r s
  replace-Ends r s =
      let t = read s in
      record {
        parts = t.parts;
        last = t.last;
        is_template = t.is_template;
        reads = sym t.reads;
        filled =
            subst (λ x. Fills o r (replace o r x) (fill (value o r) t.parts t.last)) (sym t.reads)
              (replace-render t.parts t.last r t.is_template);
      }

  -- The result of `Replace`, and that replacing in it again gives the same.
  pub record Settles (r : Replacer) (s : Bytes) : Type 0 where
    pub out : Bytes
    pub first : Fills o r (replace o r s) out
    pub again : Fills o r (replace o r out) out

  -- If no value of a placeholder holds `{`, then `Replace` ends for every string, and replacing in the result changes
  -- nothing.
  pub replace-Settles :
      (r : Replacer) (s : Bytes) → ((key : Bytes) → Without b'{' (value o r key)) → Settles r s
  replace-Settles r s v =
      let t = read s in
      let filled = fill (value o r) t.parts t.last in
      record {
        out = filled;
        first =
            subst (λ x. Fills o r (replace o r x) filled) (sym t.reads)
              (replace-render t.parts t.last r t.is_template);
        again =
            replace-render [] filled r (fill-IsPlain (value o r) t.parts t.last v t.is_template);
      }

  abbrev pub result_of : Option (Bytes × Replacer) → Bytes → Bytes
  result_of none s = s
  result_of (some (out, r)) s = out

  -- What `Replace` returns.
  abbrev pub replaced : Replacer → Bytes → Bytes
  replaced r s = result_of (replace o r s) s

  pub replaced_again :
      (r : Replacer)
      → ((key : Bytes) → Without b'{' (value o r key))
      → (s : Bytes) → replaced r (replaced r s) ≡ replaced r s
  replaced_again r v s =
      let k = replace-Settles r s v in
      let e : replaced r s ≡ k.out = ap (λ x. result_of x s) k.first.runs in
      rw e (ap (λ x. result_of x k.out) k.again.runs)
