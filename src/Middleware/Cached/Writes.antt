-- ===== src/Middleware/Cached/Writes.antt =====
-- The calls of the next handler at the `injectingWriter`: headers and a code first, then the page in pieces.
use caddy_esi.Prelude.{
  ℕ, ◌+◌, if◌then◌else◌, ◌≡◌, refl, sym, ◌∙◌, List, [], ◌∷◌, ◌++◌, Option, none, some, map,
  Bool-cases, inl, inr,
}
use caddy_esi.Prelude.Text.{Bytes}
use caddy_esi.EsiTag.DataTags.{DataTag, data_len}
use caddy_esi.Response.{ResponseWriter, Observed, Decimals, put_all, lengthen}
use caddy_esi.Response.Injecting.{InjectingWriter, Wrote, loaded}
use caddy_esi.Response.Injecting as Injecting
use caddy_esi.Response.Injecting.Runs.{write_all}
use caddy_esi.Response.Buffered.{is_zero}
use caddy_esi.Response.Buffered.Sends.{put_all_lem}
use caddy_esi.EsiTag.DataTags.Inject.{Failure}
use caddy_esi.Middleware.{Action, put_header, send_code, send}
use caddy_esi.Middleware.Cached.{act_injecting, act_each}

-- Calls that write nothing of the page.
abbrev pub OnlyHeads : List Action → Type 0
OnlyHeads [] = Unit
OnlyHeads (send p ∷ more) = ⊥
OnlyHeads (a ∷ more) = OnlyHeads more

module _ (sort : List DataTag → List DataTag) (w : ResponseWriter) (d : Decimals)
    (detect : Bytes → Bytes) where
  pub act_each-append :
      (xs ys : List Action) (b : InjectingWriter w.State)
      → act_each sort w d detect (xs ++ ys) b
        ≡ act_each sort w d detect ys (act_each sort w d detect xs b)
  unfolding act_each
  act_each-append [] ys b = refl
  act_each-append (x ∷ xs) ys b = act_each-append xs ys (act_injecting sort w d detect x b)

  -- The writes behind one that has not failed.
  none_failed :
      (ps : List Bytes) (r : Wrote w.State) (f : Option Failure)
      → r.failure ≡ f
      → let more = write_all sort w d detect ps r.writer in
        let all : Wrote w.State = elim f [
          | some e ↦ r
          | none ↦ record more { count = r.count + more.count }
        ] in
        all.failure ≡ none → (more.failure ≡ none) × (all.writer ≡ more.writer)
  none_failed ps r none e h = (h, refl)
  none_failed ps r (some x) e h = absurd (cc)

  -- If no write fails, the handler makes them all.
  pub act_each-write_all :
      (ps : List Bytes) (b : InjectingWriter w.State)
      → (write_all sort w d detect ps b).failure ≡ none
      → act_each sort w d detect (map send ps) b ≡ (write_all sort w d detect ps b).writer
  unfolding act_each write_all
  act_each-write_all [] b h = refl
  act_each-write_all (p ∷ ps) b h =
      let r = Injecting.write sort w d detect b p in
      let (fine, same) = none_failed ps r r.failure refl h in
      act_each-write_all ps r.writer fine ∙ sym same

  module _ (v : Observed w) where
    -- The tags and the body stay as they are.
    pub record Ready (b b' : InjectingWriter w.State) : Type 0 where
      pub allowed_same : b'.response_allowed ≡ b.response_allowed
      pub tags_same : loaded sort b' ≡ loaded sort b
      pub body_same : v.body.content b'.rw ≡ v.body.content b.rw

    write_header-Ready :
        (code : ℕ) (b : InjectingWriter w.State)
        → Ready b (Injecting.write_header sort w d detect b code)
    unfolding Injecting.write_header
    write_header-Ready code b = elim (Bool-cases b.wrote_header) [
      | inl e ↦ rw e (record { allowed_same = refl; tags_same = refl; body_same = refl })
      | inr e ↦
          let n = data_len (loaded sort b).slice in
          let header = if is_zero n then b.header else lengthen d b.header n in
          rw e (record {
            allowed_same = refl;
            tags_same = refl;
            body_same =
                v.write_header_body (put_all w header b.rw) code ∙ (put_all_lem w v header b.rw).2;
          })
    ]

    act_injecting-Ready :
        (a : Action) (more : List Action) (b : InjectingWriter w.State)
        → OnlyHeads (a ∷ more)
        → Ready b (act_injecting sort w d detect a b)
    act_injecting-Ready (put_header k vs) more b h = record {
      allowed_same = refl;
      tags_same = refl;
      body_same = refl;
    }
    act_injecting-Ready (send_code code) more b h = write_header-Ready code b
    act_injecting-Ready (send p) more b h = absurd h

    OnlyHeads-tail : (a : Action) (more : List Action) → OnlyHeads (a ∷ more) → OnlyHeads more
    OnlyHeads-tail (put_header k vs) more h = h
    OnlyHeads-tail (send_code code) more h = h
    OnlyHeads-tail (send p) more h = absurd h

    pub act_each-Ready :
        (as' : List Action) (b : InjectingWriter w.State)
        → OnlyHeads as'
        → Ready b (act_each sort w d detect as' b)
    unfolding act_each
    act_each-Ready [] b h = record { allowed_same = refl; tags_same = refl; body_same = refl }
    act_each-Ready (a ∷ more) b h =
        let q = act_injecting-Ready a more b h in
        let r = act_each-Ready more (act_injecting sort w d detect a b) (OnlyHeads-tail a more h) in
        record {
          allowed_same = r.allowed_same ∙ q.allowed_same;
          tags_same = r.tags_same ∙ q.tags_same;
          body_same = r.body_same ∙ q.body_same;
        }
