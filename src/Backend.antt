-- ===== src/Backend.antt =====
-- esitag/backend: the handlers of resources, which ask a service or a process. The clients of the services are
-- libraries, and parameters: what they return for a request. Logging and the clock are left out.
pub mod Keyed
pub mod Http
pub mod Redis
pub mod MemCache
pub mod Grpc
pub mod Shell
pub mod Cuts
pub mod Stored
pub mod Replies
pub mod Race
mod Tests
use caddy_esi.Prelude.{
  ℕ, ◌+◌, ◌-◌, ◌≤◌, ◌<◌, ◌^◌, ◌≡◌, refl, ap, ◌∙◌, true, false, ◌&&◌, List, [], ◌++◌, Option, none,
  some, arith, ltb, leb, length, take, drop, length-take, take-append-drop, if◌then◌else◌, sym,
  Bool-cases, inl, inr, ltb→lt, lt→ltb,
}
use caddy_esi.Prelude.Int.{ℤ, pos, negsuc}
use caddy_esi.Prelude.Result.{Result, ok, err}
use caddy_esi.Prelude.Text.{Bytes}
use caddy_esi.Http.{Header}
use caddy_esi.EsiTag.Args.{Missing}

pub data BackendError : Type 0 where
  args_invalid : Missing → BackendError
  request_invalid context_done client_failed read_failed : BackendError
  code_not_supported : ℕ → BackendError
  key_not_found get_failed : BackendError
  url_too_short json_failed run_failed : BackendError
  process_error : Bytes → BackendError

-- The header and the body, or an error. `none` is a nil header.
abbrev pub Answer : Type 0
Answer = Result BackendError (Option Header × Bytes)

-- `int(n)` of a uint64, where int has 64 bits.
unfoldable pub to_int : ℕ → ℤ
to_int n = if ltb n (2 ^ 63) then pos n else negsuc (2 ^ 64 - n - 1)

-- `if len(value) > mbs && mbs > 0 { value = value[:mbs] }`.
abbrev pub cut_to : ℤ → Bytes → Bytes
cut_to (pos n) value = if ltb n (length value) && ltb 0 n then take n value else value
cut_to (negsuc n) value = value

-- io.LimitReader(body, mbs), read to its end.
abbrev pub limit_reader : ℤ → Bytes → Bytes
limit_reader (pos n) body = take n body
limit_reader (negsuc n) body = []

-- At most `size` bytes from the beginning of what the service sent.
pub record Bounded (size : ℕ) (sent body : Bytes) : Type 0 where
  pub rest : Bytes
  pub begins : sent ≡ body ++ rest
  pub at_most : length body ≤ size
  pub none_lost : length sent ≤ size → body ≡ sent
