-- ===== src/Response/Tests.antt =====
-- The response writers on a client in memory, and the theorems applied to it.
use mathlib.Core.List.{cons-ne-nil}
use caddy_esi.Prelude.{
  ℕ, length-replicate, ap, ◌≡◌, refl, inl, inr, List, [], ◌∷◌, arith, ltb, if◌then◌else◌,
}
use caddy_esi.Prelude.Int.{pos}
use caddy_esi.Prelude.Text.{Bytes, codes, starts_with, equal}
use caddy_esi.Writer.{buffer}
use caddy_esi.Http.{Header, header_values}
use caddy_esi.EsiTag.DataTags.{DataTag, data_len}
use caddy_esi.EsiTag.DataTags.Splice.{splice}
use caddy_esi.EsiTag.DataTags.Stream.{Delivered, finished, piece}
use caddy_esi.Response.{content_length}
use caddy_esi.Response.Memory.{client, client-Observed, silent, strokes, Client}
use caddy_esi.Response.Length.{Measures, Announces, write-Announces}
use caddy_esi.Response.Buffered.{
  BufferedWriter, response_wrap_buffer, trigger_real_write, write_header,
}
use caddy_esi.Response.Buffered as Buffered
use caddy_esi.Response.Buffered.Sends.{Sends}
use caddy_esi.Response.Injecting.{InjectingWriter, response_wrap_injector}
use caddy_esi.Response.Injecting as Injecting
use caddy_esi.Response.Injecting.Runs.{Served, write_all, write_all-Served}

abbrev first_tag : DataTag
first_tag = record { bytes = codes "Hello"; start = 2; end = 10 }

abbrev second_tag : DataTag
second_tag = record { bytes = codes "?"; start = 13; end = 23 }

-- Insertion sort by the beginning of the tags.
abbrev insert : DataTag → List DataTag → List DataTag
insert t [] = t ∷ []
insert t (x ∷ xs) = let rest = insert t xs in if ltb t.start x.start then t ∷ x ∷ xs else x ∷ rest

abbrev sort : List DataTag → List DataTag
sort [] = []
sort (t ∷ ts) = insert t (sort ts)

-- Every page is text.
abbrev detect : Bytes → Bytes
detect p = codes "text/html"

pieces-Delivered :
    Delivered 0
      (sort (second_tag ∷ first_tag ∷ []))
      (codes "ab<esi:x/>c" ∷ codes "< <esi:y/z/>d" ∷ [])
pieces-Delivered =
    piece (first_tag ∷ []) (second_tag ∷ []) refl
      (omega arith, omega arith, omega arith, omega arith, tt) (omega arith, omega arith, tt)
      (inl (omega arith))
      (piece (second_tag ∷ []) [] refl (omega arith, omega arith, omega arith, omega arith, tt) tt
        (inr refl) finished)

write_all-Served_example :
    Served sort client strokes detect client-Observed silent
      (codes "ab<esi:x/>c" ∷ codes "< <esi:y/z/>d" ∷ [])
      (sort (second_tag ∷ first_tag ∷ []))
      (write_all sort client strokes detect
        (codes "ab<esi:x/>c" ∷ codes "< <esi:y/z/>d" ∷ [])
        (response_wrap_injector (second_tag ∷ first_tag ∷ []) silent))
unfolding starts_with
write_all-Served_example =
    write_all-Served sort client strokes detect client-Observed silent (second_tag ∷ first_tag ∷ [])
      (codes "ab<esi:x/>c") (codes "< <esi:y/z/>d" ∷ []) refl
      (cons-ne-nil first_tag (second_tag ∷ [])) pieces-Delivered

abbrev page_writer : BufferedWriter Client Bytes
page_writer = trigger_real_write (write_header (response_wrap_buffer [] silent) 200) (pos 0)

abbrev page_header : Header
page_header = (content_length, codes "||||||||||||" ∷ []) ∷ []

-- A number of strokes is read back.
strokes_read_back : (n : ℕ) → strokes.atoi (strokes.itoa (pos n)) ≡ pos n
strokes_read_back n = ap pos (length-replicate n b'|')

abbrev page : Bytes
page = codes "ab<esi:x/>cd"

page_header-Measures : Measures strokes page_header page
unfolding header_values equal
page_header-Measures = record {
  is_map = (refl, tt);
  text = codes "||||||||||||";
  held = refl;
  length_eq = refl;
}

abbrev buffered : BufferedWriter Client Bytes
buffered = record (response_wrap_buffer [] silent) { header = page_header; code = 200 }

abbrev injecting : InjectingWriter Client
injecting = record (response_wrap_injector (first_tag ∷ []) silent) { header = page_header }

write-Announces_example :
    Announces strokes strokes_read_back client client-Observed silent
      (Buffered.write client buffer strokes
        (trigger_real_write buffered (data_len (first_tag ∷ [])))
        (codes "a")).sink.rw
      200
      (splice 0 (first_tag ∷ []) page)
    × Announces strokes strokes_read_back client client-Observed silent
        (Injecting.write_header sort client strokes detect injecting 404).rw
        404
        (splice 0 (first_tag ∷ []) page)
write-Announces_example =
    write-Announces strokes strokes_read_back client client-Observed buffer sort detect buffered
      injecting (codes "a") page 404 (omega arith, omega arith, omega arith, omega arith, tt) refl
      refl page_header-Measures page_header-Measures
