-- ===== src/Middleware/Buffers.antt =====
-- A page through `serveBuffered`.
use mathlib.Core.Path.{subst}
use caddy_esi.Prelude.{
  ◌≡◌, refl, sym, ap, ◌∙◌, Bool, true, false, List, ◌∷◌, ◌++◌, length, Bool-cases, inl, inr,
  if◌then◌else◌,
}
use caddy_esi.Prelude.Text.{Bytes}
use caddy_esi.Writer.{Written, Appends, buffer}
use caddy_esi.EsiTag.DataTags.{DataTag}
use caddy_esi.Response.{ResponseWriter, Observed, Decimals, put_all, lengthen}
use caddy_esi.Response.Buffered.{
  BufferedWriter, response_wrap_buffer, trigger_real_write, send_header, is_zero,
}
use caddy_esi.Response.Buffered as Buffered
use caddy_esi.Response.Buffered.Sends.{put_all_lem}
use caddy_esi.Middleware.{page_writer}

module _ (w : ResponseWriter) (v : Observed w) (d : Decimals) (detect : Bytes → Bytes)
    (sort : List DataTag → List DataTag) where
  abbrev pub Page : Type 0
  Page = BufferedWriter w.State Bytes

  -- What was written, with a mark for where it went.
  abbrev pub marked : Bool → Page → Bytes
  marked true b = 0 ∷ v.body.content b.rw
  marked false b = 1 ∷ b.buf

  abbrev pub content : Page → Bytes
  content b = marked b.write_real b

  content-real : (b : Page) → b.write_real ≡ true → content b ≡ 0 ∷ v.body.content b.rw
  content-real b h = ap (λ m. marked m b) h

  content-kept : (b : Page) → b.write_real ≡ false → content b ≡ 1 ∷ b.buf
  content-kept b h = ap (λ m. marked m b) h

  -- Sending the header leaves the body alone.
  record Same (b b' : Page) : Type 0 where
    flag_same : b'.write_real ≡ b.write_real
    body_same : v.body.content b'.rw ≡ v.body.content b.rw

  send_header-Same : (b : Page) → Same b (send_header w buffer d b)
  unfolding send_header
  send_header-Same b = elim (Bool-cases b.wrote_header) [
    | inl e ↦ rw (e, send_header) (record { flag_same = refl; body_same = refl })
    | inr e ↦
        let h =
          if is_zero b.add_content_length
          then b.header
          else lengthen d b.header b.add_content_length in
        let (header, sent, body) = put_all_lem w v h b.rw in
        rw (e, send_header)
          (record {
            flag_same = refl;
            body_same = v.write_header_body (put_all w h b.rw) b.code ∙ body;
          })
  ]

  abbrev pub written : Page → Bytes → Written Page
  written b p = Buffered.write w buffer d b p

  abbrev passed_on : Page → Bytes → Written Page
  passed_on b p =
      let b' = send_header w buffer d b in
      let r = w.write b'.rw p in
      record { sink = record b' { rw = r.sink }; count = r.count; failed = r.failed }

  abbrev pub kept : Page → Bytes → Written Page
  kept b p = record { sink = record b { buf = b.buf ++ p }; count = length p; failed = false }

  write-passed_on : (b : Page) (p : Bytes) → b.write_real ≡ true → written b p ≡ passed_on b p
  unfolding Buffered.write
  write-passed_on b p h = rw (h, Buffered.write) refl

  pub write-kept : (b : Page) (p : Bytes) → b.write_real ≡ false → written b p ≡ kept b p
  unfolding Buffered.write
  write-kept b p h = rw (h, Buffered.write) refl

  pub record Takes (b : Page) (p : Bytes) (r : Written Page) : Type 0 where
    pub more : content r.sink ≡ content b ++ p
    pub all_counted : r.count ≡ length p
    pub no_error : r.failed ≡ false

  passed_on-Takes : (b : Page) (p : Bytes) → b.write_real ≡ true → Takes b p (passed_on b p)
  passed_on-Takes b p h =
      let b' = send_header w buffer d b in
      let s = send_header-Same b in
      record {
        more =
            content-real (passed_on b p).sink (s.flag_same ∙ h)
            ∙ ap (λ c. 0 ∷ c) (v.body.write_content b'.rw p ∙ ap (λ c. c ++ p) s.body_same)
            ∙ sym (ap (λ c. c ++ p) (content-real b h));
        all_counted = v.body.write_count b'.rw p;
        no_error = v.body.write_failed b'.rw p;
      }

  kept-Takes : (b : Page) (p : Bytes) → b.write_real ≡ false → Takes b p (kept b p)
  kept-Takes b p h = record {
    more = content-kept (kept b p).sink h ∙ sym (ap (λ c. c ++ p) (content-kept b h));
    all_counted = refl;
    no_error = refl;
  }

  pub write-Takes : (b : Page) (p : Bytes) → Takes b p (written b p)
  write-Takes b p = elim (Bool-cases b.write_real) [
    | inl e ↦ subst (Takes b p) (sym (write-passed_on b p e)) (passed_on-Takes b p e)
    | inr e ↦ subst (Takes b p) (sym (write-kept b p e)) (kept-Takes b p e)
  ]

  -- A `bufferedWriter` in front of a client that takes all writes takes them all, into its buffer or on to
  -- the client.
  unfoldable pub page_writer_appends : Appends (page_writer w d detect sort)
  page_writer_appends = record {
    content = content;
    write_content = λ b p. (write-Takes b p).more;
    write_count = λ b p. (write-Takes b p).all_counted;
    write_failed = λ b p. (write-Takes b p).no_error;
  }
