-- ===== src/EsiTag/Tests/Pages.antt =====
-- The finder and whole pages.
use caddy_esi.Prelude.{◌≡◌, refl, false, List, [], ◌∷◌, some}
use caddy_esi.Prelude.Text.{Bytes, codes, starts_with}
use caddy_esi.Writer.{buffer, buffer-Appends}
use caddy_esi.EsiTag.Finder.{split_from, new_finder}
use caddy_esi.EsiTag.Finder.Scanner.{walk, find_tags-walk, Found, scan_loop, find_tags}
use caddy_esi.EsiTag.Finder.Locate.{Located, find_tags-Located}
use caddy_esi.EsiTag.Finder.Pages.{Segment, render, expected, IsPage, find_tags-render}
use caddy_esi.EsiTag.DataTags.Inject.{inject_content}
use caddy_esi.EsiTag.DataTags.Stream.{Delivers}
use caddy_esi.EsiTag.Page.{tags_of, fill, Serves, serve_document, serve_page}

abbrev segments : List Segment
segments =
    record { text = codes "ab"; body = codes "x" }
    ∷ record { text = codes "c< "; body = codes "y/z" }
    ∷ []

abbrev last_text : Bytes
last_text = codes "d"

abbrev doc : Bytes
doc = codes "ab<esi:x/>c< <esi:y/z/>d"

abbrev contents : List Bytes
contents = codes "Hello" ∷ codes "?" ∷ []

find_doc :
    find_tags (0 ∷ 3 ∷ 1 ∷ []) doc
    ≡ some (
        record { raw_tag = codes "x"; start = 2; end = 10 }
        ∷ record { raw_tag = codes "y/z"; start = 13; end = 23 }
        ∷ [])
unfolding find_tags scan_loop split_from
find_doc = refl

-- The first `<` of `<<esi:` resets the finder, so that it misses the tag.
find_doubled : find_tags [] (codes "a<<esi:x/>b") ≡ some []
unfolding find_tags scan_loop split_from
find_doubled = refl

-- A slash before the end of a tag hides the end.
find_slashed : find_tags [] (codes "a<esi:x//>b") ≡ some []
unfolding find_tags scan_loop split_from
find_slashed = refl

segments-IsPage : IsPage segments last_text
unfolding starts_with
segments-IsPage = (
  (refl, refl, (refl, refl, tt)),
  (refl, refl, tt),
  (
    (refl, refl, (refl, refl, (refl, refl, tt))),
    (refl, refl, (refl, refl, (refl, refl, tt))),
    (refl, refl, tt),
  ),
)

no_tag_first : starts_with (codes "<esi:") doc ≡ false
unfolding starts_with
no_tag_first = refl

find_tags-Located_example :
    (es : List Found) × (find_tags (2 ∷ []) doc ≡ some es) × Located 0 doc es
find_tags-Located_example = find_tags-Located (2 ∷ []) doc

find_tags-render_example :
    find_tags (0 ∷ 3 ∷ []) (render segments last_text) ≡ some (expected 0 segments)
find_tags-render_example = find_tags-render (0 ∷ 3 ∷ []) segments last_text segments-IsPage

serve_document_example : Serves buffer buffer-Appends (0 ∷ 3 ∷ []) doc contents []
serve_document_example =
    serve_document buffer buffer-Appends (0 ∷ 3 ∷ []) doc contents [] no_tag_first

serve_page_example :
    (find_tags (0 ∷ 3 ∷ []) (render segments last_text) ≡ some (expected 0 segments))
    × Delivers buffer buffer-Appends
        (inject_content buffer
          (tags_of (expected 0 segments) contents)
          (render segments last_text)
          [])
        []
        (fill segments contents last_text)
serve_page_example =
    serve_page buffer buffer-Appends (0 ∷ 3 ∷ []) segments last_text contents [] segments-IsPage
      no_tag_first

find_tags-walk_example : find_tags (0 ∷ 3 ∷ []) doc ≡ some (walk new_finder doc)
find_tags-walk_example = find_tags-walk (0 ∷ 3 ∷ []) doc
