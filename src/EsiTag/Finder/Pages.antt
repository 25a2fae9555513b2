-- ===== src/EsiTag/Finder/Pages.antt =====
-- The finder on pages that are written as texts and tags: it finds all tags, and nothing else.
use mathlib.Core.Path.{ap₂}
use caddy_esi.Prelude.{
  ℕ, ◌+◌, ◌≡◌, refl, List, [], ◌∷◌, ◌++◌, some, arith, inl, inr, length, ◌∙◌, append-nil, ap, sym,
}
use caddy_esi.Prelude.Text.{Bytes, codes, Avoids}
use caddy_esi.EsiTag.Finder.{Finder, new_finder}
use caddy_esi.EsiTag.Finder.Scanner.{Found, walk, find_tags, find_tags-walk}
use caddy_esi.EsiTag.Finder.Runs.{
  IsOutside, IsInside, Lacks, walk_text, walk_open, walk_body, walk_close,
}

-- A page: texts, each with the body of the tag behind it, and a last text.
pub record Segment : Type 0 where
  pub text : Bytes
  pub body : Bytes

abbrev pub render : List Segment → Bytes → Bytes
render [] last = last
render (g ∷ gs) last = g.text ++ (codes "<esi:" ++ (g.body ++ (codes "/>" ++ render gs last)))

-- The tag of a segment that begins at position `p`.
abbrev pub tag_of : ℕ → Segment → Found
tag_of p g = record {
  raw_tag = g.body;
  start = p + length g.text;
  end = p + length g.text + length g.body + 7;
}

-- The tags of a page that begins at position `p`.
abbrev pub expected : ℕ → List Segment → List Found
expected p [] = []
expected p (g ∷ gs) = tag_of p g ∷ expected (tag_of p g).end gs

-- No text holds `<esi:`, and no body holds `/>`; nor do they end in a beginning of it.
abbrev pub IsPage : List Segment → Bytes → Type 0
IsPage [] last = Avoids (codes "<esi:") last
IsPage (g ∷ gs) last = Avoids (codes "<esi:") g.text × Avoids (codes "/>") g.body × IsPage gs last

Lacks-outside : (e : Finder) (s : Bytes) → IsOutside e → Lacks e.tag_state s
Lacks-outside e s (inl h) = rw h tt
Lacks-outside e s (inr h) = rw h tt

-- One text and the tag behind it.
walk_segment :
    (g : Segment) (rest : Bytes) (e : Finder)
    → IsOutside e
    → Avoids (codes "<esi:") g.text
    → Avoids (codes "/>") g.body
    → (after : Finder) × (walk e (g.text ++ (codes "<esi:" ++ (g.body ++ (codes "/>" ++ rest))))
        ≡ tag_of e.n g ∷ walk after rest)
      × (after.n ≡ (tag_of e.n g).end)
      × IsOutside after
walk_segment g rest e o ht hb =
    let closing = codes "/>" ++ rest in
    let t =
      walk_text g.text (codes "<esi:" ++ (g.body ++ closing)) e (Lacks-outside e g.text o) ht in
    let a = walk_open (g.body ++ closing) t.after t.holds in
    let b = walk_body g.body closing a.after (rw a.holds.state tt) hb in
    let inside : IsInside t.after.n g.body b.after = record {
      state = b.holds.state;
      begin_eq = b.holds.begin_eq ∙ a.holds.begin_eq;
      buf_eq = b.holds.buf_eq ∙ ap (λ c. c ++ g.body) a.holds.buf_eq;
    } in
    let (after, found, n, outside) = walk_close rest b.after t.after.n g.body inside in
    let end : b.after.n + 2 ≡ e.n + length g.text + length g.body + 7 =
      omega (arith, t.count, a.count, b.count) in
    (
      after,
      t.same
          ∙ a.same
          ∙ b.same
          ∙ found
          ∙ ap₂ (λ x y. record { raw_tag = g.body; start = x; end = y } ∷ walk after rest) t.count
              end,
      n ∙ end,
      outside,
    )

walk-render :
    (gs : List Segment) (last : Bytes) (e : Finder)
    → IsOutside e
    → IsPage gs last
    → walk e (render gs last) ≡ expected e.n gs
walk-render [] last e o h =
    let t = walk_text last [] e (Lacks-outside e last o) h in
    ap (walk e) (sym (append-nil last)) ∙ t.same ∙ unfold walk in refl
walk-render (g ∷ gs) last e o (ht, hb, h) =
    let (after, same, n, outside) = walk_segment g (render gs last) e o ht hb in
    same
    ∙ ap (λ fs. tag_of e.n g ∷ fs) (walk-render gs last after outside h ∙ ap (λ p. expected p gs) n)

-- However the scanner cuts a page into windows, `Parse` finds its tags, each with its body and its
-- position, and nothing else: the page is texts and tags in turn, no text holds `<esi:` or ends in
-- a beginning of it, and no body holds `/>` or ends in a slash.
pub find_tags-render :
    (sizes : List ℕ) (gs : List Segment) (last : Bytes)
    → IsPage gs last
    → find_tags sizes (render gs last) ≡ some (expected 0 gs)
find_tags-render sizes gs last h =
    find_tags-walk sizes (render gs last) ∙ ap some (walk-render gs last new_finder (inl refl) h)
