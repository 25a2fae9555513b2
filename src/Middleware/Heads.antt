-- ===== src/Middleware/Heads.antt =====
-- What a page that is kept back has collected, and the header and the code that the client gets with it.
use mathlib.Core.Path.{subst}
use caddy_esi.Prelude.{
  ℕ, ◌≡◌, refl, sym, ap, ◌∙◌, true, false, List, [], ◌∷◌, ◌++◌, Bool-cases, inl, inr, ◌==◌, arith,
  if◌then◌else◌, length, length-append,
}
use caddy_esi.Prelude.Int.{ℤ}
use caddy_esi.Prelude.Text.{Bytes}
use caddy_esi.Http.{Header, header_put}
use caddy_esi.Writer.{buffer}
use caddy_esi.EsiTag.DataTags.{DataTag}
use caddy_esi.EsiTag.DataTags.Writes.{write_list, Written}
use caddy_esi.Response.{ResponseWriter, Observed, Decimals}
use caddy_esi.Response.Headers.{adjusted}
use caddy_esi.Response.Buffered.{response_wrap_buffer, trigger_real_write}
use caddy_esi.Response.Buffered.Sends.{put_all_header, write_pieces, write_pieces-Sends}
use caddy_esi.Middleware.{Action, put_header, send_code, send, Next, page_writer, act, act_all}
use caddy_esi.Middleware.Buffers.{Page, write-kept}

-- The first code that is not zero, and zero if there is none.
abbrev pub first_code : List Action → ℕ
first_code [] = 0
first_code (send_code c ∷ more) = let rest = first_code more in if c == 0 then rest else c
first_code (_ ∷ more) = first_code more

-- The header that calls add to this one.
abbrev pub headers_from : Header → List Action → Header
headers_from h [] = h
headers_from h (put_header k vs ∷ more) = headers_from (header_put h k vs) more
headers_from h (_ ∷ more) = headers_from h more

abbrev or_code : ℕ → ℕ → ℕ
or_code c k = if c == 0 then k else c

append-nothing : (xs ys : Bytes) → xs ++ ys ≡ xs → ys ≡ []
append-nothing xs [] h = refl
append-nothing xs (y ∷ ys) h =
    let n = ap length h in absurd (omega (arith, length-append xs (y ∷ ys)))

module _ (w : ResponseWriter) (v : Observed w) (d : Decimals) (detect : Bytes → Bytes)
    (sort : List DataTag → List DataTag) where
  -- The next handler does not reach the client.
  pub record Quiet (b b' : Page w v d detect sort) : Type 0 where
    pub client_same : b'.rw ≡ b.rw
    pub still_kept : b'.write_real ≡ false

  act-Quiet :
      (a : Action) (b : Page w v d detect sort)
      → b.write_real ≡ false
      → Quiet b (act w d detect sort a b)
  unfolding act
  act-Quiet (put_header k vs) b h = record { client_same = refl; still_kept = h }
  act-Quiet (send_code code) b h = elim (Bool-cases (b.code == 0)) [
    | inl e ↦ rw e (record { client_same = refl; still_kept = h })
    | inr e ↦ rw e (record { client_same = refl; still_kept = h })
  ]
  act-Quiet (send p) b h =
      subst (λ r. Quiet b r.sink) (sym (write-kept w v d detect sort b p h))
        (record { client_same = refl; still_kept = h })

  pub act_all-Quiet :
      (as' : List Action) (b : Page w v d detect sort)
      → b.write_real ≡ false
      → Quiet b (act_all w d detect sort as' b)
  unfolding act_all
  act_all-Quiet [] b h = record { client_same = refl; still_kept = h }
  act_all-Quiet (a ∷ more) b h =
      let q = act-Quiet a b h in
      let r = act_all-Quiet more (act w d detect sort a b) q.still_kept in
      record { client_same = r.client_same ∙ q.client_same; still_kept = r.still_kept }

  -- What the next handler has written.
  abbrev pub filled : Next → w.State → Page w v d detect sort
  filled next client = act_all w d detect sort next.actions (response_wrap_buffer [] client)

  -- The code and the header are kept for later.
  pub record Collects (as' : List Action) (b b' : Page w v d detect sort) : Type 0 where
    pub code_same : b'.code ≡ or_code b.code (first_code as')
    pub header_same : b'.header ≡ headers_from b.header as'
    pub unsent : b'.wrote_header ≡ b.wrote_header

  or_code-zero : (c : ℕ) → c ≡ or_code c 0
  or_code-zero c = ground arith

  code_first : (c k m : ℕ) → (c == 0) ≡ true → or_code k m ≡ or_code c (if k == 0 then m else k)
  code_first c k m e = rw e refl

  act_all-Collects :
      (as' : List Action) (b : Page w v d detect sort)
      → b.write_real ≡ false
      → Collects as' b (act_all w d detect sort as' b)
  unfolding act_all act
  act_all-Collects [] b h = record {
    code_same = or_code-zero b.code;
    header_same = refl;
    unsent = refl;
  }
  act_all-Collects (put_header k vs ∷ more) b h =
      let c = act_all-Collects more (record b { header = header_put b.header k vs }) h in
      record { code_same = c.code_same; header_same = c.header_same; unsent = c.unsent }
  act_all-Collects (send_code k ∷ more) b h = elim (Bool-cases (b.code == 0)) [
    | inl e ↦
        let c = act_all-Collects more (record b { code = k }) h in
        rw e (record {
          code_same = c.code_same ∙ code_first b.code k (first_code more) e;
          header_same = c.header_same;
          unsent = c.unsent;
        })
    | inr e ↦
        let c = act_all-Collects more b h in
        rw e (record {
          code_same = c.code_same ∙ rw e refl;
          header_same = c.header_same;
          unsent = c.unsent;
        })
  ]
  act_all-Collects (send p ∷ more) b h =
      let c = act_all-Collects more (record b { buf = b.buf ++ p }) h in
      subst (λ r. Collects (send p ∷ more) b (act_all w d detect sort more r.sink))
        (sym (write-kept w v d detect sort b p h))
        (record { code_same = c.code_same; header_same = c.header_same; unsent = c.unsent })

  -- What the client gets in front of the body `out`: nothing yet, if that is empty, or once the header and the code.
  pub data Headed (next : Next) (client client' : w.State) (added : ℤ) (out : Bytes) : Type 0 where
    blank : out ≡ [] → Headed next client client' added out
    headed :
        v.sent client' ≡ v.sent client ++ first_code next.actions ∷ []
        → v.header client'
          ≡ put_all_header (adjusted d added (headers_from [] next.actions)) (v.header client)
        → Headed next client client' added out

  write_list-write_pieces :
      (ps : List Bytes) (b : Page w v d detect sort)
      → write_list (page_writer w d detect sort) ps b ≡ write_pieces w v buffer d ps b
  write_list-write_pieces [] b = refl
  write_list-write_pieces (p ∷ ps) b = write_list-write_pieces ps _

  pieces-Headed :
      (next : Next) (client : w.State) (added : ℤ) (ps : List Bytes) (out : Bytes)
      → let b = trigger_real_write (filled next client) added in
        v.body.content (write_pieces w v buffer d ps b).rw ≡ v.body.content b.rw ++ out
        → Headed next client (write_pieces w v buffer d ps b).rw added out
  pieces-Headed next client added [] out h =
      blank (append-nothing (v.body.content (filled next client).rw) out (sym h))
  pieces-Headed next client added (p ∷ ps) out h =
      let q = act_all-Quiet next.actions (response_wrap_buffer [] client) refl in
      let c = act_all-Collects next.actions (response_wrap_buffer [] client) refl in
      let b = trigger_real_write (filled next client) added in
      let s = write_pieces-Sends w v buffer d p ps b refl c.unsent in
      headed
        (s.sent_eq
          ∙ ap (λ x. v.sent x ++ b.code ∷ []) q.client_same
          ∙ ap (λ x. v.sent client ++ x ∷ []) c.code_same)
        (s.header_eq
          ∙ ap (λ x. put_all_header (adjusted d added b.header) (v.header x)) q.client_same
          ∙ ap (λ x. put_all_header (adjusted d added x) (v.header client)) c.header_same)

  pub Written-Headed :
      (next : Next) (client : w.State) (added : ℤ) (b' : Page w v d detect sort) (out : Bytes)
      → let b = trigger_real_write (filled next client) added in
        Written (page_writer w d detect sort) b b'
        → v.body.content b'.rw ≡ v.body.content b.rw ++ out
        → Headed next client b'.rw added out
  Written-Headed next client added b' out k h =
      let b = trigger_real_write (filled next client) added in
      let e = k.sink_eq ∙ write_list-write_pieces k.pieces b in
      subst (λ x. Headed next client x.rw added out) (sym e)
        (pieces-Headed next client added k.pieces out
          (subst (λ x. v.body.content x.rw ≡ v.body.content b.rw ++ out) e h))
