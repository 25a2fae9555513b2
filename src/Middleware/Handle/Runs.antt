-- ===== src/Middleware/Handle/Runs.antt =====
-- Requests one after the other: what the cache holds, and what is queried from it.
use mathlib.Core.Path.{subst}
use caddy_esi.Prelude.{
  ℕ, ◌≡◌, sym, ap, inl, inr, Bool, List, [], ◌∷◌, ◌++◌, Option, none, some, Bool-cases,
  append_assoc, append-nil,
}
use caddy_esi.Prelude.Text.{Bytes}
use caddy_esi.Helper.RealIp.{Net}
use caddy_esi.Http.{Request}
use caddy_esi.EsiTag.DataTags.{DataTag}
use caddy_esi.EsiTag.Entity.{Entity, Parsers}
use caddy_esi.Response.{ResponseWriter, Decimals}
use caddy_esi.Config.{Reference, PathConfig, cached, page_id, is_request_allowed}
use caddy_esi.Config.Setup.{SetupError}
use caddy_esi.Middleware.{Route, injects, handle_header_commands, route_commanded, route_cached}
use caddy_esi.Middleware.Handle.{Visit, go_way, route_of, handle, handle_all}
use caddy_esi.Middleware.Handle.Known.{
  Known, Sound, Cached-Sound, Keeps-Sound, serve_buffered-Cached,
}
use caddy_esi.Middleware.Handle.Commands.{
  SameSettings-refl, SameSettings-trans, page_id-SameSettings, Keeps-refl,
  handle_header_commands-Keeps,
}

module _ (w : ResponseWriter) (d : Decimals) (detect : Bytes → Bytes)
    (sort : List DataTag → List DataTag) (parsers : Parsers)
    (handlers : List (Bytes × Reference)) where
  module _ (net : Net) (hash : Bytes → ℕ → ℕ) (canonical : Bytes → Bytes)
      (can_open : Bytes → Bool) where
    abbrev gone : PathConfig → Visit w.State → Route → w.State → PathConfig
    gone cfg v route s =
        (go_way w d detect sort parsers handlers net hash canonical can_open cfg v route s).0

    route_cached-Sound :
        (cfg now first : PathConfig) (visits : List (Visit w.State)) (v : Visit w.State)
        (told : w.State) (id : ℕ) (o : Option (List (Entity Reference)))
        → Sound w d detect sort parsers handlers net hash canonical can_open cfg now
            (visits ++ v ∷ [])
        → page_id net hash canonical cfg v.request ≡ id
        → Sound w d detect sort parsers handlers net hash canonical can_open cfg
            (gone first v (route_cached now (id, o)) told)
            (visits ++ v ∷ [])
    route_cached-Sound cfg now first visits v told id none s i =
        Cached-Sound w d detect sort parsers handlers net hash canonical can_open cfg now visits v
          told id _ s i (serve_buffered-Cached w d detect sort parsers handlers now id v told)
    route_cached-Sound cfg now first visits v told id (some []) s i =
        Cached-Sound w d detect sort parsers handlers net hash canonical can_open cfg now visits v
          told id _ s i (serve_buffered-Cached w d detect sort parsers handlers now id v told)
    route_cached-Sound cfg now first visits v told id (some (e ∷ es)) s i = s

    route_commanded-Sound :
        (cfg now first : PathConfig) (visits : List (Visit w.State)) (v : Visit w.State)
        (told : w.State) (o : Option SetupError)
        → Sound w d detect sort parsers handlers net hash canonical can_open cfg now
            (visits ++ v ∷ [])
        → Sound w d detect sort parsers handlers net hash canonical can_open cfg
            (gone first v (route_commanded net hash canonical d can_open v.request now o) told)
            (visits ++ v ∷ [])
    route_commanded-Sound cfg now first visits v told (some e) s = s
    route_commanded-Sound cfg now first visits v told none s =
        route_cached-Sound cfg now first visits v told _ _ s
          (sym (page_id-SameSettings net hash canonical cfg now v.request s.settings))

    handle-Sound :
        (cfg now : PathConfig) (visits : List (Visit w.State)) (v : Visit w.State)
        → Sound w d detect sort parsers handlers net hash canonical can_open cfg now visits
        → Sound w d detect sort parsers handlers net hash canonical can_open cfg
            (handle w d detect sort parsers handlers net hash canonical can_open now v).0
            (visits ++ v ∷ [])
    unfolding handle
    handle-Sound cfg now visits v s = elim (Bool-cases (is_request_allowed now v.request)) [
      | inl a ↦
          let c = handle_header_commands d canonical can_open now v.request.header in
          let k =
            Keeps-Sound w d detect sort parsers handlers net hash canonical can_open cfg now
              c.config visits v s
              (handle_header_commands-Keeps can_open d canonical now v.request.header) in
          rw a (route_commanded-Sound cfg c.config now visits v _ c.error k)
      | inr a ↦ rw a (
          Keeps-Sound w d detect sort parsers handlers net hash canonical can_open cfg now now
            visits v s (Keeps-refl now))
    ]

    abbrev run_all : PathConfig → List (Visit w.State) → PathConfig
    run_all = handle_all w d detect sort parsers handlers net hash canonical can_open

    handle_all-Sound :
        (more visits : List (Visit w.State)) (cfg now : PathConfig)
        → Sound w d detect sort parsers handlers net hash canonical can_open cfg now visits
        → Sound w d detect sort parsers handlers net hash canonical can_open cfg
            (run_all now more)
            (visits ++ more)
    unfolding handle_all
    handle_all-Sound [] visits cfg now s =
        subst (Sound w d detect sort parsers handlers net hash canonical can_open cfg now)
          (sym (append-nil visits)) s
    handle_all-Sound (v ∷ more) visits cfg now s =
        let later = (handle w d detect sort parsers handlers net hash canonical can_open now v).0 in
        subst
          (Sound w d detect sort parsers handlers net hash canonical can_open cfg
            (run_all later more))
          (append_assoc visits (v ∷ []) more)
          (handle_all-Sound more (visits ++ v ∷ []) cfg later (handle-Sound cfg now visits v s))

    begin-Sound :
        (cfg : PathConfig)
        → cfg.esi_cache ≡ []
        → Sound w d detect sort parsers handlers net hash canonical can_open cfg cfg []
    unfolding cached
    begin-Sound cfg e = record {
      settings = SameSettings-refl cfg;
      known = λ id es h.
          absurd (let none_there : cached cfg.esi_cache id ≡ none = ap (λ c. cached c id) e in cc);
    }

    route_cached-injects :
        (now then_cfg : PathConfig) (id : ℕ) (o : Option (List (Entity Reference)))
        (es : List (Entity Reference))
        → route_cached now (id, o) ≡ injects then_cfg es
        → o ≡ some es
    route_cached-injects now then_cfg id none es h = absurd (cc)
    route_cached-injects now then_cfg id (some []) es h = absurd (cc)
    route_cached-injects now then_cfg id (some (x ∷ xs)) es h = cc

    route_commanded-injects :
        (r : Request) (now then_cfg : PathConfig) (o : Option SetupError)
        (es : List (Entity Reference))
        → route_commanded net hash canonical d can_open r now o ≡ injects then_cfg es
        → cached now.esi_cache (page_id net hash canonical now r) ≡ some es
    route_commanded-injects r now then_cfg (some e) es h = absurd (cc)
    route_commanded-injects r now then_cfg none es h = route_cached-injects now then_cfg _ _ es h

    -- The cache starts empty. Whenever a request is then served from the cache, behind any requests and header
    -- commands before it, the tags that are queried for it are those that `Parse` found in the page that the next
    -- handler wrote for an earlier request with the same page ID, with the defaults of the path.
    pub handle_all-Known :
        (cfg then_cfg : PathConfig) (visits : List (Visit w.State)) (r : Request)
        (es : List (Entity Reference))
        → cfg.esi_cache ≡ []
        → (route_of w d detect sort parsers handlers net hash canonical can_open
            (run_all cfg visits)
            r).0
          ≡ injects then_cfg es
        → Known w d detect sort parsers handlers net hash canonical can_open cfg visits
            (page_id net hash canonical cfg r)
            es
    handle_all-Known cfg then_cfg visits r es empty way =
        let now = run_all cfg visits in
        let s = handle_all-Sound visits [] cfg cfg (begin-Sound cfg empty) in
        elim (Bool-cases (is_request_allowed now r)) [
          | inl a ↦
              let c = handle_header_commands d canonical can_open now r.header in
              let k = handle_header_commands-Keeps can_open d canonical now r.header in
              let there = route_commanded-injects r c.config then_cfg c.error es (rw a at way) in
              let id_same =
                page_id-SameSettings net hash canonical cfg c.config r
                  (SameSettings-trans cfg now c.config s.settings k.settings) in
              subst
                (λ id.
                  Known w d detect sort parsers handlers net hash canonical can_open cfg visits id
                    es)
                id_same (s.known _ es (k.from_cache _ es there))
          | inr a ↦ absurd (let x = rw a at way in cc)
        ]
