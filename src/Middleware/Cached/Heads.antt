-- ===== src/Middleware/Cached/Heads.antt =====
-- The header and the code that a client gets for a page whose tags are cached.
use caddy_esi.Prelude.{ℕ, ◌≡◌, refl, ap, ◌∙◌, true, false, List, [], ◌∷◌, ◌++◌, Option, none, some}
use caddy_esi.Prelude.Int.{ℤ}
use caddy_esi.Prelude.Text.{Bytes}
use caddy_esi.Http.{Header, header_put}
use caddy_esi.Writer.{Writer}
use caddy_esi.EsiTag.DataTags.{DataTag, DataTags, data_len}
use caddy_esi.EsiTag.DataTags.Inject.{inject_content}
use caddy_esi.EsiTag.DataTags.Stream.{inject_pieces}
use caddy_esi.EsiTag.DataTags.Writes.{write_list, inject_content-Written}
use caddy_esi.Response.{ResponseWriter, Observed, Decimals, put_all}
use caddy_esi.Response.Headers.{adjusted}
use caddy_esi.Response.Buffered.Sends.{put_all_header, put_all_lem}
use caddy_esi.Response.Injecting.{InjectingWriter, loaded}
use caddy_esi.Response.Injecting as Injecting
use caddy_esi.Middleware.{Action, put_header, send_code, send}
use caddy_esi.Middleware.Cached.{act_each}
use caddy_esi.Middleware.Cached.Writes.{OnlyHeads}

-- What no write changes is the same behind the injection.
module _ {X : Type 0} (w : Writer) (f : w.Sink → X)
    (kept : (s : w.Sink) (p : Bytes) → f (w.write s p).sink ≡ f s) where
  write_list_kept : (ps : List Bytes) (s : w.Sink) → f (write_list w ps s) ≡ f s
  write_list_kept [] s = refl
  write_list_kept (p ∷ ps) s = write_list_kept ps (w.write s p).sink ∙ kept s p

  inject_content_kept :
      (dts : DataTags) (bytes : Bytes) (s : w.Sink) → f (inject_content w dts bytes s).sink ≡ f s
  inject_content_kept dts bytes s =
      let k = inject_content-Written w s dts bytes in ap f k.sink_eq ∙ write_list_kept k.pieces s

  pub inject_pieces_kept :
      (cs : List Bytes) (dts : DataTags) (s : w.Sink) → f (inject_pieces w cs dts s).sink ≡ f s
  unfolding inject_pieces
  inject_pieces_kept [] dts s = refl
  inject_pieces_kept (c ∷ cs) dts s =
      let r = inject_content w dts c s in
      let first = inject_content_kept dts c s in
      elim r.failure as (λ o. r.failure ≡ o → f (inject_pieces w (c ∷ cs) dts s).sink ≡ f s) [
        | some e ↦ λ h. rw (h, inject_pieces) first
        | none ↦ λ h. rw (h, inject_pieces) (inject_pieces_kept cs r.tags r.sink ∙ first)
      ]
        refl

-- The first code that is sent, with the header that is set before it.
abbrev pub head_of : Header → List Action → Option (Header × ℕ)
head_of h [] = none
head_of h (put_header k vs ∷ more) = head_of (header_put h k vs) more
head_of h (send_code code ∷ more) = some (h, code)
head_of h (send p ∷ more) = head_of h more

module _ (w : ResponseWriter) (v : Observed w) (d : Decimals) (detect : Bytes → Bytes)
    (sort : List DataTag → List DataTag) where
  -- What the client gets: the code once with the header, or nothing.
  abbrev pub Shown : w.State → w.State → ℤ → Option (Header × ℕ) → Type 0
  Shown s s' added none = (v.sent s' ≡ v.sent s) × (v.header s' ≡ v.header s)
  Shown s s' added (some (h, code)) =
      (v.sent s' ≡ v.sent s ++ code ∷ [])
      × (v.header s' ≡ put_all_header (adjusted d added h) (v.header s))

  write_header_again :
      (code : ℕ) (b : InjectingWriter w.State)
      → b.wrote_header ≡ true
      → Injecting.write_header sort w d detect b code ≡ b
  unfolding Injecting.write_header
  write_header_again code b h = rw (h, Injecting.write_header) refl

  -- A second code is not sent.
  act_each_again :
      (as' : List Action) (b : InjectingWriter w.State)
      → OnlyHeads as'
      → b.wrote_header ≡ true
      → (act_each sort w d detect as' b).rw ≡ b.rw
  unfolding act_each
  act_each_again [] b o h = refl
  act_each_again (put_header k vs ∷ more) b o h =
      act_each_again more (record b { header = header_put b.header k vs }) o h
  act_each_again (send_code code ∷ more) b o h =
      ap (λ x. (act_each sort w d detect more x).rw) (write_header_again code b h)
      ∙ act_each_again more b o h
  act_each_again (send p ∷ more) b o h = absurd o

  pub act_each-Shown :
      (as' : List Action) (b : InjectingWriter w.State)
      → OnlyHeads as'
      → b.wrote_header ≡ false
      → Shown b.rw
          (act_each sort w d detect as' b).rw
          (data_len (loaded sort b).slice)
          (head_of b.header as')
  unfolding act_each Injecting.write_header
  act_each-Shown [] b o h = (refl, refl)
  act_each-Shown (put_header k vs ∷ more) b o h =
      act_each-Shown more (record b { header = header_put b.header k vs }) o h
  act_each-Shown (send_code code ∷ more) b o h =
      let b' = Injecting.write_header sort w d detect b code in
      let sent = adjusted d (data_len (loaded sort b).slice) b.header in
      let s = put_all w sent b.rw in
      let (header, codes_sent, body) = put_all_lem w v sent b.rw in
      let wrote : b'.wrote_header ≡ true = rw (h, Injecting.write_header) refl in
      let at : b'.rw ≡ w.write_header s code = rw (h, Injecting.write_header) refl in
      let same = act_each_again more b' o wrote ∙ at in
      (
        ap v.sent same ∙ v.write_header_sent s code ∙ ap (λ l. l ++ code ∷ []) codes_sent,
        ap v.header same ∙ v.write_header_header s code ∙ header,
      )
  act_each-Shown (send p ∷ more) b o h = absurd o

  -- The page behind the header changes neither of them.
  pub Shown-kept :
      (s s' s'' : w.State) (added : ℤ) (o : Option (Header × ℕ))
      → v.sent s'' ≡ v.sent s'
      → v.header s'' ≡ v.header s'
      → Shown s s' added o
      → Shown s s'' added o
  Shown-kept s s' s'' added none e k (a, b) = (e ∙ a, k ∙ b)
  Shown-kept s s' s'' added (some (h, code)) e k (a, b) = (e ∙ a, k ∙ b)
