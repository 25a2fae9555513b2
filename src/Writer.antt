-- ===== src/Writer.antt =====
-- io.Writer, an interface of Go's library: one operation on a sink that the program does not see.
-- `Appends` states what the documentation of a writer into memory, such as bytes.Buffer, promises.
use caddy_esi.Prelude.{ℕ, ◌≡◌, refl, Bool, true, false, ◌++◌, length}
use caddy_esi.Prelude.Text.{Bytes}

-- The sink after a write, the number of bytes that it reports, and whether it reports an error.
pub record Written (S : Type 0) : Type 0 where
  pub sink : S
  pub count : ℕ
  pub failed : Bool

pub record Writer : Type 1 where
  pub Sink : Type 0
  pub write : Sink → Bytes → Written Sink

-- A write always succeeds, and appends its argument to the content.
pub record Appends (w : Writer) : Type 0 where
  pub content : w.Sink → Bytes
  pub write_content : (s : w.Sink) (p : Bytes) → content (w.write s p).sink ≡ content s ++ p
  pub write_count : (s : w.Sink) (p : Bytes) → (w.write s p).count ≡ length p
  pub write_failed : (s : w.Sink) (p : Bytes) → (w.write s p).failed ≡ false

-- A buffer in memory.
abbrev pub buffer : Writer
buffer = record {
  Sink = Bytes;
  write = λ s p. record { sink = s ++ p; count = length p; failed = false };
}

pub buffer-Appends : Appends buffer
buffer-Appends = record {
  content = λ s. s;
  write_content = λ s p. refl;
  write_count = λ s p. refl;
  write_failed = λ s p. refl;
}

-- A writer that always fails, and takes nothing.
abbrev pub broken : Writer
broken = record { Sink = Bytes; write = λ s p. record { sink = s; count = 0; failed = true } }
