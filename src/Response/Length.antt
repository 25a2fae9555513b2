-- ===== src/Response/Length.antt =====
-- The header Content-Length that both response writers send.
use caddy_esi.Prelude.{
  ℕ, ◌+◌, ◌≡◌, refl, ap, sym, ◌∙◌, true, false, List, [], ◌∷◌, ◌++◌, some, length, Bool-cases, inl,
  inr, arith,
}
use caddy_esi.Prelude.Int.{ℤ, pos, negsuc, ◌+ℤ◌, int_laws}
use caddy_esi.Prelude.Text.{Bytes}
use caddy_esi.Http.{Header, header_get, header_values, header_values-put, first_value}
use caddy_esi.Writer.{Writer}
use caddy_esi.EsiTag.DataTags.{DataTag, data_len}
use caddy_esi.EsiTag.DataTags.Splice.{splice}
use caddy_esi.EsiTag.DataTags.Pieces.{Within}
use caddy_esi.EsiTag.DataTags.Length.{splice-data_len}
use caddy_esi.Response.{ResponseWriter, Observed, Decimals, content_length, lengthen, put_all}
use caddy_esi.Response.Headers.{IsMap, put-IsMap, put_all-present, adjusted}
use caddy_esi.Response.Buffered.{BufferedWriter, trigger_real_write, is_zero}
use caddy_esi.Response.Buffered as Buffered
use caddy_esi.Response.Buffered.Sends.{put_all_header, put_all_lem, write_pieces-Sends}
use caddy_esi.Response.Injecting.{InjectingWriter, loaded}
use caddy_esi.Response.Injecting as Injecting

zero_length : (n : ℤ) → is_zero n ≡ true → n ≡ pos 0
zero_length (pos n) h = ground arith
zero_length (negsuc n) h = absurd (cc)

plus_zero : (n : ℤ) → n +ℤ pos 0 ≡ n
plus_zero n = omega int_laws

-- A header that holds the length of the page.
pub record Measures (d : Decimals) (h : Header) (page : Bytes) : Type 0 where
  pub is_map : IsMap h
  pub text : Bytes
  pub held : header_values h content_length ≡ some (text ∷ [])
  pub length_eq : d.atoi text ≡ pos (length page)

module _ (d : Decimals) (reads_back : (n : ℕ) → d.atoi (d.itoa (pos n)) ≡ pos n) where
  adjusted-length :
      (h h₀ : Header) (n : ℤ) (page out : Bytes)
      → Measures d h page
      → pos (length out) ≡ pos (length page) +ℤ n
      → d.atoi (header_get (put_all_header (adjusted d n h) h₀) content_length) ≡ pos (length out)
  adjusted-length h h₀ n page out m e = elim (Bool-cases (is_zero n)) [
    | inl z ↦ rw z (
        ap (λ o. d.atoi (first_value o))
          (put_all-present h h₀ content_length (m.text ∷ []) m.is_map m.held)
        ∙ m.length_eq
        ∙ sym (plus_zero (pos (length page)))
        ∙ ap (λ k. pos (length page) +ℤ k) (sym (zero_length n z))
        ∙ sym e)
    | inr z ↦
        let sum = d.atoi (header_get h content_length) +ℤ n in
        let same : sum ≡ pos (length out) =
          ap (λ o. d.atoi (first_value o) +ℤ n) m.held ∙ ap (λ k. k +ℤ n) m.length_eq ∙ sym e in
        rw z (
          ap (λ o. d.atoi (first_value o))
            (put_all-present (lengthen d h n) h₀ content_length (d.itoa sum ∷ [])
              (put-IsMap h content_length (d.itoa sum ∷ []) m.is_map)
              (header_values-put h content_length (d.itoa sum ∷ [])))
          ∙ ap (λ k. d.atoi (d.itoa k)) same
          ∙ reads_back (length out))
  ]

  module _ (w : ResponseWriter) (v : Observed w) where
    -- The code is sent, and the length of the body in the header.
    pub record Announces (s s' : w.State) (code : ℕ) (out : Bytes) : Type 0 where
      pub sent_eq : v.sent s' ≡ v.sent s ++ code ∷ []
      pub length_eq : d.atoi (header_get (v.header s') content_length) ≡ pos (length out)

    module _ (buffer : Writer) (sort : List DataTag → List DataTag) (detect : Bytes → Bytes) where
      buffered-Announces :
          (b : BufferedWriter w.State buffer.Sink) (p page : Bytes) (tags : List DataTag)
          → Within 0 0 (0 + length page) tags
          → b.wrote_header ≡ false
          → Measures d b.header page
          → Announces b.rw
              (Buffered.write w buffer d (trigger_real_write b (data_len tags)) p).sink.rw
              b.code
              (splice 0 tags page)
      buffered-Announces b p page tags i h m =
          let s =
            write_pieces-Sends w v buffer d p [] (trigger_real_write b (data_len tags)) refl h in
          record {
            sent_eq = s.sent_eq;
            length_eq =
                ap (λ x. d.atoi (header_get x content_length)) s.header_eq
                ∙ adjusted-length b.header (v.header b.rw) (data_len tags) page (splice 0 tags page)
                    m (splice-data_len tags 0 0 page i);
          }

      injecting-Announces :
          (b : InjectingWriter w.State) (code : ℕ) (page : Bytes)
          → let tags = (loaded sort b).slice in
            Within 0 0 (0 + length page) tags
            → b.wrote_header ≡ false
            → Measures d b.header page
            → Announces b.rw
                (Injecting.write_header sort w d detect b code).rw
                code
                (splice 0 tags page)
      unfolding Injecting.write_header
      injecting-Announces b code page i h m =
          let tags = (loaded sort b).slice in
          let sent = adjusted d (data_len tags) b.header in
          let (header, codes_sent, body) = put_all_lem w v sent b.rw in
          let s = put_all w sent b.rw in
          rw (h, Injecting.write_header)
            (record {
              sent_eq = v.write_header_sent s code ∙ ap (λ l. l ++ code ∷ []) codes_sent;
              length_eq =
                  ap (λ x. d.atoi (header_get x content_length))
                    (v.write_header_header s code ∙ header)
                  ∙ adjusted-length b.header (v.header b.rw) (data_len tags) page
                      (splice 0 tags page) m (splice-data_len tags 0 0 page i);
            })

      -- If the collected header of a response writer holds the length of a page as its Content-Length, the tags lie
      -- in the page in order, and strconv reads back what it prints, then the first write of a `bufferedWriter` behind
      -- `TriggerRealWrite` with the `DataLen` of the tags, and `WriteHeader` of an `injectingWriter` that receives
      -- the tags, send the code to the client once, and a Content-Length that is the length of the page with the tags
      -- replaced.
      pub write-Announces :
          (b : BufferedWriter w.State buffer.Sink) (i : InjectingWriter w.State) (p page : Bytes)
          (code : ℕ)
          → let tags = (loaded sort i).slice in
            Within 0 0 (0 + length page) tags
            → b.wrote_header ≡ false
            → i.wrote_header ≡ false
            → Measures d b.header page
            → Measures d i.header page
            → Announces b.rw
                (Buffered.write w buffer d (trigger_real_write b (data_len tags)) p).sink.rw
                b.code
                (splice 0 tags page)
              × Announces i.rw
                  (Injecting.write_header sort w d detect i code).rw
                  code
                  (splice 0 tags page)
      write-Announces b i p page code inside hb hi mb mi = (
        buffered-Announces b p page (loaded sort i).slice inside hb mb,
        injecting-Announces i code page inside hi mi,
      )
