-- ===== src/Response/Buffered.antt =====
-- response_proxy_buf.go: `bufferedWriter` collects a response, and from `TriggerRealWrite` on passes
-- writes on to the client.
pub mod Sends
use caddy_esi.Prelude.{ℕ, Bool, true, false, List, [], ◌∷◌, ◌==◌, if◌then◌else◌}
use caddy_esi.Prelude.Int.{ℤ, pos, negsuc}
use caddy_esi.Prelude.Text.{Bytes}
use caddy_esi.Http.{Header}
use caddy_esi.Writer.{Writer, Written}
use caddy_esi.Response.{ResponseWriter, Decimals, lengthen, put_all}

pub record BufferedWriter (S B : Type 0) : Type 0 where
  pub rw : S
  pub buf : B
  pub header : Header
  pub add_content_length : ℤ
  pub code : ℕ
  pub wrote_header : Bool
  pub write_real : Bool

-- `responseWrapBuffer`, without the choice of the interfaces that are passed on.
abbrev pub response_wrap_buffer : {S B : Type 0} → B → S → BufferedWriter S B
response_wrap_buffer buf w = record {
  rw = w;
  buf = buf;
  header = [];
  add_content_length = pos 0;
  code = 0;
  wrote_header = false;
  write_real = false;
}

abbrev pub trigger_real_write : {S B : Type 0} → BufferedWriter S B → ℤ → BufferedWriter S B
trigger_real_write b n = record b { write_real = true; add_content_length = n }

abbrev pub write_header : {S B : Type 0} → BufferedWriter S B → ℕ → BufferedWriter S B
write_header b code = if b.code == 0 then record b { code = code } else b

abbrev pub is_zero : ℤ → Bool
is_zero (pos n) = n == 0
is_zero (negsuc n) = false

module _ (w : ResponseWriter) (buffer : Writer) (d : Decimals) where
  -- `if !b.wroteHeader { … }`.
  unfoldable pub send_header :
      BufferedWriter w.State buffer.Sink → BufferedWriter w.State buffer.Sink
  send_header b =
      if b.wrote_header
      then b
      else (let header =
            if is_zero b.add_content_length
            then b.header
            else lengthen d b.header b.add_content_length in
          record b {
            wrote_header = true;
            header = header;
            rw = w.write_header (put_all w header b.rw) b.code;
          })

  unfoldable pub write :
      BufferedWriter w.State buffer.Sink → Bytes → Written (BufferedWriter w.State buffer.Sink)
  unfolding send_header
  write b p =
      if b.write_real
      then (let b' = send_header b in
          let r = w.write b'.rw p in
          record { sink = record b' { rw = r.sink }; count = r.count; failed = r.failed })
      else (let r = buffer.write b.buf p in
          record { sink = record b { buf = r.sink }; count = r.count; failed = r.failed })
