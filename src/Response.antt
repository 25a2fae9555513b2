-- ===== src/Response.antt =====
-- The response writers of the middleware: response_proxy_buf.go and response_proxy_inject.go.
-- http.ResponseWriter is an interface of Go's library, and a parameter. `Observed` states what its
-- documentation promises of a writer that a client sees.
-- The interfaces that the wrappers pass on (Flusher, Hijacker, Pusher, CloseNotifier, ReaderFrom) only
-- call the writer below them.
pub mod Buffered
pub mod Injecting
pub mod Headers
pub mod Length
pub mod Memory
mod Tests
use caddy_esi.Prelude.{ℕ, ◌≡◌, List, [], ◌∷◌, ◌++◌, false, length}
use caddy_esi.Prelude.Int.{ℤ, ◌+ℤ◌}
use caddy_esi.Prelude.Text.{Bytes, codes, starts_with}
use caddy_esi.Http.{Header, header_get, header_put}
use caddy_esi.Writer.{Writer, Written, Appends}

-- `w.Header()[key] = values`, `w.WriteHeader(code)` and `w.Write(p)`.
pub record ResponseWriter : Type 1 where
  pub State : Type 0
  pub put_header : State → Bytes → List Bytes → State
  pub write_header : State → ℕ → State
  pub write : State → Bytes → Written State

abbrev pub body_writer : ResponseWriter → Writer
body_writer w = record { Sink = w.State; write = w.write }

-- strconv.Atoi, of which the program ignores the error, and strconv.Itoa.
pub record Decimals : Type 0 where
  pub atoi : Bytes → ℤ
  pub itoa : ℤ → Bytes

abbrev pub content_length : Bytes
content_length = codes "Content-Length"

-- `cl, _ := strconv.Atoi(h.Get(clName)); h.Set(clName, strconv.Itoa(cl+n))`.
abbrev pub lengthen : Decimals → Header → ℤ → Header
lengthen d h n =
    header_put h content_length (d.itoa (d.atoi (header_get h content_length) +ℤ n) ∷ [])

module _ (w : ResponseWriter) where
  open w use {State, put_header}

  -- `for k, v := range header { w.Header()[k] = v }`.
  abbrev pub put_all : Header → State → State
  put_all [] s = s
  put_all ((k, vs) ∷ h) s = put_all h (put_header s k vs)

  -- What a client sees: the header of a response, the codes that were sent, and the body.
  pub record Observed : Type 0 where
    pub body : Appends (body_writer w)
    pub header : State → Header
    pub sent : State → List ℕ
    pub put_header_header :
        (s : State) (k : Bytes) (vs : List Bytes)
        → header (put_header s k vs) ≡ header_put (header s) k vs
    pub put_header_sent :
        (s : State) (k : Bytes) (vs : List Bytes) → sent (put_header s k vs) ≡ sent s
    pub put_header_body :
        (s : State) (k : Bytes) (vs : List Bytes)
        → body.content (put_header s k vs) ≡ body.content s
    pub write_header_header : (s : State) (c : ℕ) → header (w.write_header s c) ≡ header s
    pub write_header_sent : (s : State) (c : ℕ) → sent (w.write_header s c) ≡ sent s ++ c ∷ []
    pub write_header_body : (s : State) (c : ℕ) → body.content (w.write_header s c) ≡ body.content s
    pub write_header_kept : (s : State) (p : Bytes) → header (w.write s p).sink ≡ header s
    pub write_sent_kept : (s : State) (p : Bytes) → sent (w.write s p).sink ≡ sent s
