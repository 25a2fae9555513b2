-- ===== src/EsiTag/Page.antt =====
-- A whole page through the finder and the injection, as `serveBuffered` (middleware.go) sends it: the
-- tags that `Parse` finds, each with a content, injected into the same bytes.
use mathlib.Core.Path.{subst}
use mathlib.Core.Bool.{true≢false}
use caddy_esi.Prelude.{
  ℕ, ◌+◌, ◌-◌, ◌<◌, ◌≡◌, refl, sym, ap, ◌∙◌, false, List, [], ◌∷◌, ◌++◌, some, arith, length, drop,
  length-append, take-append_length, drop-append_add,
}
use caddy_esi.Prelude.Int.{pos, ◌+ℤ◌}
use caddy_esi.Prelude.Text.{Bytes, codes, starts_with}
use caddy_esi.Writer.{Writer, Appends}
use caddy_esi.EsiTag.Finder.Scanner.{Found, find_tags}
use caddy_esi.EsiTag.Finder.Locate.{Located, rest, tag, find_tags-Located}
use caddy_esi.EsiTag.Finder.Pages.{Segment, render, expected, tag_of, IsPage, find_tags-render}
use caddy_esi.EsiTag.DataTags.{DataTag, DataTags, data_len, new_data_tags_capped}
use caddy_esi.EsiTag.DataTags.Inject.{inject_content}
use caddy_esi.EsiTag.DataTags.Splice.{splice}
use caddy_esi.EsiTag.DataTags.Length.{splice-data_len}
use caddy_esi.EsiTag.DataTags.Pieces.{Within}
use caddy_esi.EsiTag.DataTags.Stream.{Delivers, inject_content-splice}

-- `t := e.DataTag; t.Data = data`, for each tag and the data that its resources gave.
abbrev pub with_contents : List Found → List Bytes → List DataTag
with_contents [] ds = []
with_contents (f ∷ fs) [] = []
with_contents (f ∷ fs) (d ∷ ds) =
    record { bytes = d; start = f.start; end = f.end } ∷ with_contents fs ds

abbrev pub BeginsBehind : ℕ → List Found → Type 0
BeginsBehind lo [] = Unit
BeginsBehind lo (e ∷ es) = lo < e.start

Located-BeginsBehind :
    {p : ℕ} {doc : Bytes} {es : List Found} (lo : ℕ)
    → lo < p
    → Located p doc es
    → BeginsBehind lo es
Located-BeginsBehind lo h rest = tt
Located-BeginsBehind lo h (tag before after e₁ e₂ e₃ l) = omega arith

Located-Within :
    {p : ℕ} {doc : Bytes} {es : List Found} (ds : List Bytes) (lo : ℕ)
    → Located p doc es
    → BeginsBehind lo es
    → Within lo p (p + length doc) (with_contents es ds)
Located-Within ds lo rest n = tt
Located-Within [] lo (tag before after e₁ e₂ e₃ l) n = tt
Located-Within {p} {doc} (d ∷ ds) lo (tag {e = e} {es = es} before after e₁ e₂ e₃ l) n =
    let size : p + length doc ≡ e.end + length after = omega (
      arith,
      ap length e₁,
      length-append before (codes "<esi:" ++ (e.raw_tag ++ (codes "/>" ++ after))),
      length-append e.raw_tag (codes "/>" ++ after),
    ) in
    (
      omega arith,
      n,
      omega arith,
      omega arith,
      subst (λ m. Within lo e.end m (with_contents es ds)) (sym size)
          (Located-Within ds lo l (Located-BeginsBehind lo (omega arith) l)),
    )

-- A document that does not begin with a tag has none at position 0.
begins_behind :
    {doc : Bytes} {es : List Found}
    → starts_with (codes "<esi:") doc ≡ false
    → Located 0 doc es
    → BeginsBehind 0 es
unfolding starts_with
begins_behind h rest = tt
begins_behind h (tag [] after e₁ e₂ e₃ l) =
    absurd (true≢false (sym (ap (starts_with (codes "<esi:")) e₁) ∙ h))
begins_behind h (tag (b ∷ before) after e₁ e₂ e₃ l) = omega arith

-- The tags of a page, with their contents, before anything is written.
abbrev pub tags_of : List Found → List Bytes → DataTags
tags_of es ds = record (new_data_tags_capped 5) { slice = with_contents es ds }

module _ (w : Writer) (a : Appends w) where
  open w use {Sink}

  -- What happens to a document: `Parse` finds `tags`, and the contents are injected at them.
  pub record Serves (sizes : List ℕ) (doc : Bytes) (ds : List Bytes) (s : Sink) : Type 0 where
    pub tags : List Found
    pub parsed : find_tags sizes doc ≡ some tags
    pub located : Located 0 doc tags
    pub delivers :
        Delivers w a
          (inject_content w (tags_of tags ds) doc s)
          s
          (splice 0 (with_contents tags ds) doc)
    pub length_eq :
        pos (length (splice 0 (with_contents tags ds) doc))
        ≡ pos (length doc) +ℤ data_len (with_contents tags ds)

  -- For every document that does not begin with `<esi:`, however the scanner cuts it, whatever the
  -- contents are, and for a writer that takes all writes: `Parse` finds ranges that spell tags,
  -- `InjectContent` on the whole document replaces exactly these ranges by the contents without an
  -- error, and the length of the result is the length of the document plus `DataLen`.
  pub serve_document :
      (sizes : List ℕ) (doc : Bytes) (ds : List Bytes) (s : Sink)
      → starts_with (codes "<esi:") doc ≡ false
      → Serves sizes doc ds s
  serve_document sizes doc ds s h =
      let (es, found, located) = find_tags-Located sizes doc in
      let n : 0 + length doc ≡ length doc = omega arith in
      let i = Located-Within ds 0 located (begins_behind h located) in
      record {
        tags = es;
        parsed = found;
        located = located;
        delivers =
            inject_content-splice w a (tags_of es ds) doc s
              (record { prev_zero = refl; cur_zero = refl; no_states = refl })
              (subst (λ m. Within 0 0 m (with_contents es ds)) n i);
        length_eq = splice-data_len (with_contents es ds) 0 0 doc i;
      }

-- The page with the contents in place of its tags; a tag without a content stays.
abbrev pub fill : List Segment → List Bytes → Bytes → Bytes
fill [] ds last = last
fill (g ∷ gs) [] last = render (g ∷ gs) last
fill (g ∷ gs) (d ∷ ds) last = g.text ++ (d ++ fill gs ds last)

splice-fill :
    (gs : List Segment) (ds : List Bytes) (last : Bytes) (p : ℕ)
    → splice p (with_contents (expected p gs) ds) (render gs last) ≡ fill gs ds last
unfolding splice
splice-fill [] ds last p = refl
splice-fill (g ∷ gs) [] last p = refl
splice-fill (g ∷ gs) (d ∷ ds) last p =
    let more = render gs last in
    let tagged = codes "<esi:" ++ (g.body ++ (codes "/>" ++ more)) in
    let open_end : p + length g.text - p ≡ length g.text = omega arith in
    let close_end : p + length g.text + length g.body + 7 - p
        ≡ length g.text + (5 + (length g.body + 2)) =
      omega arith in
    let behind_tag : drop (5 + (length g.body + 2)) tagged ≡ more =
      drop-append_add (codes "<esi:") (g.body ++ (codes "/>" ++ more)) (length g.body + 2)
      ∙ drop-append_add g.body (codes "/>" ++ more) 2 in
    rw
      (
        open_end,
        close_end,
        take-append_length g.text tagged,
        drop-append_add g.text tagged (5 + (length g.body + 2)),
        behind_tag,
      )
      (ap (λ x. g.text ++ (d ++ x)) (splice-fill gs ds last (tag_of p g).end))

module _ (w : Writer) (a : Appends w) where
  open w use {Sink}

  -- For a page of texts and tags, each kind as `IsPage` says, that does not begin with a tag: `Parse`
  -- finds the tags of the page, and injecting a content for each of them sends the page with the
  -- tags replaced. The result does not depend on how the scanner cuts the page.
  pub serve_page :
      (sizes : List ℕ) (gs : List Segment) (last : Bytes) (ds : List Bytes) (s : Sink)
      → IsPage gs last
      → starts_with (codes "<esi:") (render gs last) ≡ false
      → (find_tags sizes (render gs last) ≡ some (expected 0 gs))
        × Delivers w a
            (inject_content w (tags_of (expected 0 gs) ds) (render gs last) s)
            s
            (fill gs ds last)
  serve_page sizes gs last ds s h b =
      let v = serve_document w a sizes (render gs last) ds s b in
      let found = find_tags-render sizes gs last h in
      let same : v.tags ≡ expected 0 gs = cc (v.parsed, found) in
      let page = render gs last in
      (
        found,
        subst (Delivers w a (inject_content w (tags_of (expected 0 gs) ds) page s) s)
            (splice-fill gs ds last 0)
            (subst
              (λ es.
                Delivers w a (inject_content w (tags_of es ds) page s) s
                  (splice 0 (with_contents es ds) page))
              same v.delivers),
      )
