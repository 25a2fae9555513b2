-- ===== src/Response/Buffered/Sends.antt =====
-- What a `bufferedWriter` sends from `TriggerRealWrite` on: the header once, and then the body.
use mathlib.Core.Path.{subst}
use mathlib.Core.List.{flatten}
use caddy_esi.Prelude.{
  ◌≡◌, refl, sym, ap, ◌∙◌, true, false, List, [], ◌∷◌, ◌++◌, append_assoc, append-nil,
  if◌then◌else◌,
}
use caddy_esi.Prelude.Text.{Bytes}
use caddy_esi.Http.{Header, header_put}
use caddy_esi.Writer.{Writer}
use caddy_esi.Response.{ResponseWriter, Observed, Decimals, lengthen, put_all}
use caddy_esi.Response.Buffered.{BufferedWriter, is_zero, send_header, write}

abbrev pub put_all_header : Header → Header → Header
put_all_header [] h = h
put_all_header ((k, vs) ∷ more) h = put_all_header more (header_put h k vs)

module _ (w : ResponseWriter) (v : Observed w) where
  pub put_all_lem :
      (h : Header) (s : w.State)
      → (v.header (put_all w h s) ≡ put_all_header h (v.header s))
        × (v.sent (put_all w h s) ≡ v.sent s)
        × (v.body.content (put_all w h s) ≡ v.body.content s)
  put_all_lem [] s = (refl, refl, refl)
  put_all_lem ((k, vs) ∷ h) s =
      let (a, b, c) = put_all_lem h (w.put_header s k vs) in
      (
        a ∙ ap (put_all_header h) (v.put_header_header s k vs),
        b ∙ v.put_header_sent s k vs,
        c ∙ v.put_header_body s k vs,
      )

  module _ (buffer : Writer) (d : Decimals) where
    -- Writes one after the other; a client that takes all writes never makes one fail.
    abbrev pub write_pieces :
        List Bytes → BufferedWriter w.State buffer.Sink → BufferedWriter w.State buffer.Sink
    write_pieces [] b = b
    write_pieces (p ∷ ps) b = write_pieces ps (write w buffer d b p).sink

    -- The header that the first write sends.
    abbrev pub final_header : BufferedWriter w.State buffer.Sink → Header
    final_header b =
        if is_zero b.add_content_length then b.header else lengthen d b.header b.add_content_length

    -- The client after the writes of `ps`, when nothing was sent before.
    pub record Sends (b b' : BufferedWriter w.State buffer.Sink) (ps : List Bytes) : Type 0 where
      pub header_eq : v.header b'.rw ≡ put_all_header (final_header b) (v.header b.rw)
      pub sent_eq : v.sent b'.rw ≡ v.sent b.rw ++ b.code ∷ []
      pub body_eq : v.body.content b'.rw ≡ v.body.content b.rw ++ flatten ps
      pub buf_eq : b'.buf ≡ b.buf

    -- The client does not change but for the body.
    record Follows (b b' : BufferedWriter w.State buffer.Sink) (ps : List Bytes) : Type 0 where
      header_same : v.header b'.rw ≡ v.header b.rw
      sent_same : v.sent b'.rw ≡ v.sent b.rw
      body_more : v.body.content b'.rw ≡ v.body.content b.rw ++ flatten ps
      buf_same : b'.buf ≡ b.buf

    -- A writer after a write that was passed on.
    abbrev passed : BufferedWriter w.State buffer.Sink → Bytes → BufferedWriter w.State buffer.Sink
    passed b p = record b { rw = (w.write b.rw p).sink }

    -- A writer after the header was sent.
    abbrev opened : BufferedWriter w.State buffer.Sink → BufferedWriter w.State buffer.Sink
    opened b = record b {
      wrote_header = true;
      header = final_header b;
      rw = w.write_header (put_all w (final_header b) b.rw) b.code;
    }

    write-passed :
        (b : BufferedWriter w.State buffer.Sink) (p : Bytes)
        → b.write_real ≡ true
        → (write w buffer d b p).sink ≡ passed (send_header w buffer d b) p
    unfolding write
    write-passed b p h = rw (h, write) refl

    send_header_again :
        (b : BufferedWriter w.State buffer.Sink)
        → b.wrote_header ≡ true
        → send_header w buffer d b ≡ b
    unfolding send_header
    send_header_again b k = rw (k, send_header) refl

    send_header-opened :
        (b : BufferedWriter w.State buffer.Sink)
        → b.wrote_header ≡ false
        → send_header w buffer d b ≡ opened b
    unfolding send_header
    send_header-opened b k = rw (k, send_header) refl

    write_pieces-Follows :
        (ps : List Bytes) (b : BufferedWriter w.State buffer.Sink)
        → b.write_real ≡ true
        → b.wrote_header ≡ true
        → Follows b (write_pieces ps b) ps
    unfolding flatten
    write_pieces-Follows [] b h k = record {
      header_same = refl;
      sent_same = refl;
      body_more = sym (append-nil (v.body.content b.rw));
      buf_same = refl;
    }
    write_pieces-Follows (p ∷ ps) b h k =
        let b' = passed b p in
        let e = write-passed b p h ∙ ap (λ x. passed x p) (send_header_again b k) in
        let f = write_pieces-Follows ps b' h k in
        subst (λ x. Follows b (write_pieces ps x) (p ∷ ps)) (sym e)
          (record {
            header_same = f.header_same ∙ v.write_header_kept b.rw p;
            sent_same = f.sent_same ∙ v.write_sent_kept b.rw p;
            body_more =
                f.body_more
                ∙ ap (λ x. x ++ flatten ps) (v.body.write_content b.rw p)
                ∙ append_assoc (v.body.content b.rw) p (flatten ps);
            buf_same = f.buf_same;
          })

    pub write_pieces-Sends :
        (p : Bytes) (ps : List Bytes) (b : BufferedWriter w.State buffer.Sink)
        → b.write_real ≡ true
        → b.wrote_header ≡ false
        → Sends b (write_pieces (p ∷ ps) b) (p ∷ ps)
    unfolding flatten
    write_pieces-Sends p ps b h k =
        let o = opened b in
        let s = put_all w (final_header b) b.rw in
        let b' = passed o p in
        let e = write-passed b p h ∙ ap (λ x. passed x p) (send_header-opened b k) in
        let (header, sent, body) = put_all_lem (final_header b) b.rw in
        let f = write_pieces-Follows ps b' h refl in
        let content : v.body.content b'.rw ≡ v.body.content b.rw ++ p =
          v.body.write_content o.rw p ∙ ap (λ x. x ++ p) (v.write_header_body s b.code ∙ body) in
        subst (λ x. Sends b (write_pieces ps x) (p ∷ ps)) (sym e)
          (record {
            header_eq =
                f.header_same
                ∙ v.write_header_kept o.rw p
                ∙ v.write_header_header s b.code
                ∙ header;
            sent_eq =
                f.sent_same
                ∙ v.write_sent_kept o.rw p
                ∙ v.write_header_sent s b.code
                ∙ ap (λ x. x ++ b.code ∷ []) sent;
            body_eq =
                f.body_more
                ∙ ap (λ x. x ++ flatten ps) content
                ∙ append_assoc (v.body.content b.rw) p (flatten ps);
            buf_eq = f.buf_same;
          })
