-- ===== src/EsiTag/Tests/Streams.antt =====
-- The injection into a stream.
use caddy_esi.Prelude.{◌≡◌, ◌++◌, refl, inl, inr, List, [], ◌∷◌, some, arith, length, take}
use mathlib.Core.List.{flatten, cons-ne-nil}
use caddy_esi.Prelude.Text.{Bytes, codes}
use caddy_esi.Writer.{buffer, buffer-Appends, broken}
use caddy_esi.EsiTag.DataTags.{
  DataTag, DataTags, new_data_tags_capped, full_next_tag, slice_of, has_full_tag, has_pos_start,
}
use caddy_esi.EsiTag.DataTags.Inject.{
  inject_content, inject_nothing, visit_all, visit_waiting, visit_in_progress, write_failed,
}
use caddy_esi.EsiTag.DataTags.Splice.{splice}
use caddy_esi.EsiTag.DataTags.Pieces.{Within}
use caddy_esi.EsiTag.DataTags.Stream.{
  Delivered, finished, piece, IsFresh, inject_pieces, Delivers, inject_pieces-splice,
  inject_content-splice,
}
use caddy_esi.EsiTag.DataTags.Limits.{inject_content_first, inject_pieces_lost}

abbrev first_tag : DataTag
first_tag = record { bytes = codes "Hello"; start = 2; end = 10 }

abbrev second_tag : DataTag
second_tag = record { bytes = codes "?"; start = 13; end = 23 }

abbrev tags : DataTags
tags = record (new_data_tags_capped 5) { slice = first_tag ∷ second_tag ∷ [] }

abbrev one_tag : DataTags
one_tag = record (new_data_tags_capped 5) { slice = first_tag ∷ [] }

abbrev doc : Bytes
doc = codes "ab<esi:x/>c< <esi:y/z/>d"

abbrev pieces : List Bytes
pieces = codes "ab<esi:x/>c" ∷ codes "< <esi:y/z/>d" ∷ []

tags-IsFresh : IsFresh tags
tags-IsFresh = record { prev_zero = refl; cur_zero = refl; no_states = refl }

one_tag-IsFresh : IsFresh one_tag
one_tag-IsFresh = record { prev_zero = refl; cur_zero = refl; no_states = refl }

inject_doc : (inject_content buffer tags doc []).sink ≡ codes "abHelloc< ?d"
unfolding inject_content inject_nothing visit_all visit_waiting visit_in_progress has_full_tag
    full_next_tag slice_of
inject_doc = refl

inject_broken : (inject_content broken tags doc []).failure ≡ some write_failed
unfolding inject_content inject_nothing visit_all visit_waiting visit_in_progress has_full_tag
    full_next_tag slice_of
inject_broken = refl

doc-Within : Within 0 0 (length doc) tags.slice
doc-Within = (
  omega arith,
  omega arith,
  omega arith,
  omega arith,
  (omega arith, omega arith, omega arith, omega arith, tt),
)

pieces-Delivered : Delivered 0 tags.slice pieces
pieces-Delivered =
    piece (first_tag ∷ []) (second_tag ∷ []) refl
      (omega arith, omega arith, omega arith, omega arith, tt) (omega arith, omega arith, tt)
      (inl (omega arith))
      (piece (second_tag ∷ []) [] refl (omega arith, omega arith, omega arith, omega arith, tt) tt
        (inr refl) finished)

inject_pieces-splice_example :
    Delivers buffer buffer-Appends
      (inject_pieces buffer pieces tags [])
      []
      (splice 0 tags.slice (flatten pieces))
inject_pieces-splice_example =
    inject_pieces-splice buffer buffer-Appends pieces tags [] tags-IsFresh
      (cons-ne-nil first_tag (second_tag ∷ [])) pieces-Delivered

inject_content-splice_example :
    Delivers buffer buffer-Appends (inject_content buffer tags doc []) [] (splice 0 tags.slice doc)
inject_content-splice_example =
    inject_content-splice buffer buffer-Appends tags doc [] tags-IsFresh doc-Within

-- The page `<esi:x/>b`, with the tag at its first byte.
abbrev early_tag : DataTag
early_tag = record { bytes = codes "Hello"; start = 0; end = 8 }

abbrev early_tags : DataTags
early_tags = record (new_data_tags_capped 5) { slice = early_tag ∷ [] }

early_tags-IsFresh : IsFresh early_tags
early_tags-IsFresh = record { prev_zero = refl; cur_zero = refl; no_states = refl }

inject_content_first_example :
    Delivers buffer buffer-Appends
      (inject_content buffer early_tags (codes "<esi:x/>b") [])
      []
      (codes "<esi:x/>b")
inject_content_first_example =
    inject_content_first buffer buffer-Appends early_tags early_tag (codes "<esi:x/>b") []
      early_tags-IsFresh refl refl (omega arith) (omega arith)

-- The pieces `ab<es`, `i:x/>` and `cd`.
inject_pieces_lost_example :
    Delivers buffer buffer-Appends
      (inject_pieces buffer (codes "ab<es" ∷ codes "i:x/>" ∷ codes "cd" ∷ []) one_tag [])
      []
      (take 2 (codes "ab<es") ++ codes "Hello")
inject_pieces_lost_example =
    inject_pieces_lost buffer buffer-Appends one_tag first_tag (codes "ab<es") (codes "i:x/>")
      (codes "cd" ∷ []) [] one_tag-IsFresh refl (omega arith) (omega arith) refl

-- Two whole tags in a piece, and a third behind it: the text in front of the second tag starts at
-- the first byte of the piece again.
abbrev third_tag : DataTag
third_tag = record { bytes = codes "!"; start = 30; end = 40 }

inject_doubled :
    (inject_content buffer
      (record tags { slice = first_tag ∷ second_tag ∷ third_tag ∷ [] })
      doc
      []).sink
    ≡ codes "abHelloab<esi:x/>c< ?d"
unfolding inject_content inject_nothing visit_all visit_waiting visit_in_progress has_full_tag
    full_next_tag slice_of has_pos_start
inject_doubled = refl
