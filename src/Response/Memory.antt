-- ===== src/Response/Memory.antt =====
-- A client in memory, for runs of the response writers.
use caddy_esi.Prelude.{ℕ, refl, false, List, [], ◌∷◌, ◌++◌, length, replicate}
use caddy_esi.Prelude.Int.{ℤ, pos, pos_part}
use caddy_esi.Prelude.Text.{Bytes}
use caddy_esi.Http.{Header, header_put}
use caddy_esi.Response.{ResponseWriter, Observed, Decimals}

pub record Client : Type 0 where
  pub header : Header
  pub sent : List ℕ
  pub body : Bytes

abbrev pub client : ResponseWriter
client = record {
  State = Client;
  put_header = λ s k vs. record s { header = header_put s.header k vs };
  write_header = λ s c. record s { sent = s.sent ++ c ∷ [] };
  write =
      λ s p. record { sink = record s { body = s.body ++ p }; count = length p; failed = false };
}

pub client-Observed : Observed client
client-Observed = record {
  body = record {
    content = λ s. s.body;
    write_content = λ s p. refl;
    write_count = λ s p. refl;
    write_failed = λ s p. refl;
  };
  header = λ s. s.header;
  sent = λ s. s.sent;
  put_header_header = λ s k vs. refl;
  put_header_sent = λ s k vs. refl;
  put_header_body = λ s k vs. refl;
  write_header_header = λ s c. refl;
  write_header_sent = λ s c. refl;
  write_header_body = λ s c. refl;
  write_header_kept = λ s p. refl;
  write_sent_kept = λ s p. refl;
}

abbrev pub silent : Client
silent = record { header = []; sent = []; body = [] }

-- A number is the number of its strokes.
abbrev pub read_strokes : Bytes → ℤ
read_strokes s = pos (length s)

abbrev pub strokes : Decimals
strokes = record { atoi = read_strokes; itoa = λ n. replicate (pos_part n) b'|' }
