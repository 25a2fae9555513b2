-- ===== src/Middleware/Handle/Known.antt =====
-- Where the tags in the cache come from.
use mathlib.Core.Path.{fun_ext}
use caddy_esi.Prelude.{
  if◌then◌else◌, ℕ, ◌≡◌, refl, sym, ap, ◌∙◌, inl, inr, Bool, true, false, not, List, [], ◌∷◌, ◌++◌,
  Option, none, some, map, append_assoc,
}
use caddy_esi.Prelude.Result.{Result, ok, err}
use caddy_esi.Prelude.Text.{Bytes}
use caddy_esi.Helper.RealIp.{Net}
use caddy_esi.EsiTag.DataTags.{DataTag}
use caddy_esi.EsiTag.Entity.{Entity, Parsers, ParseError}
use caddy_esi.EsiTag.Parse.{parse}
use caddy_esi.Response.{ResponseWriter, Decimals}
use caddy_esi.Response.Buffered.{BufferedWriter, response_wrap_buffer}
use caddy_esi.Response.Injecting.{is_response_allowed}
use caddy_esi.Config.{Reference, PathConfig, cached, with_defaults, page_id, upsert_esi_tags}
use caddy_esi.Config.Cache.{cached-put, id-cases}
use caddy_esi.Middleware.{Reply, act_all, serve_buffered, serve_parsed}
use caddy_esi.Middleware.Handle.{Visit}
use caddy_esi.Middleware.Handle.Commands.{
  SameSettings, SameSettings-trans, with_defaults-SameSettings, Keeps,
}

module _ (w : ResponseWriter) (d : Decimals) (detect : Bytes → Bytes)
    (sort : List DataTag → List DataTag) (parsers : Parsers)
    (handlers : List (Bytes × Reference)) where
  -- What the next handler of a request writes into the buffer.
  abbrev pub written : Visit w.State → w.State → Bytes
  written v s = (act_all w d detect sort v.next.actions (response_wrap_buffer [] s)).buf

  -- `serveBuffered` keeps the cache, or puts the tags of the page that it has parsed into it.
  pub data Cached (cfg : PathConfig) (id : ℕ) (v : Visit w.State) (s : w.State)
      : PathConfig → Type 0 where
    same : Cached cfg id v s cfg
    stored :
        (parsed : List (Entity Reference))
        → parse parsers handlers v.sizes (written v s) ≡ some (ok parsed)
        → Cached cfg id v s (upsert_esi_tags cfg id parsed)

  abbrev pub page_at : Visit w.State → w.State → BufferedWriter w.State Bytes
  page_at v s = act_all w d detect sort v.next.actions (response_wrap_buffer [] s)

  serve_parsed-Cached :
      (cfg : PathConfig) (id : ℕ) (v : Visit w.State) (s : w.State)
      (o : Option (Result ParseError (List (Entity Reference))))
      → parse parsers handlers v.sizes (written v s) ≡ o
      → Cached cfg id v s
          (serve_parsed w d detect sort parsers handlers v.sizes v.arrived cfg id
            (page_at v s)
            v.next.code
            o).0
  serve_parsed-Cached cfg id v s none h = same
  serve_parsed-Cached cfg id v s (some (err e)) h = same
  serve_parsed-Cached cfg id v s (some (ok parsed)) h = stored parsed h

  if-Cached :
      (cfg : PathConfig) (id : ℕ) (v : Visit w.State) (s : w.State) (b : Bool)
      (x y : PathConfig × Reply w.State)
      → Cached cfg id v s x.0
      → Cached cfg id v s y.0
      → Cached cfg id v s (if b then x else y).0
  if-Cached cfg id v s true x y h k = h
  if-Cached cfg id v s false x y h k = k

  pub serve_buffered-Cached :
      (cfg : PathConfig) (id : ℕ) (v : Visit w.State) (s : w.State)
      → Cached cfg id v s
          (serve_buffered w d detect sort parsers handlers v.sizes v.arrived cfg id v.next s).0
  unfolding serve_buffered
  serve_buffered-Cached cfg id v s = if-Cached cfg id v s v.next.failed _ _ same (
      if-Cached cfg id v s (not (is_response_allowed sort w d detect (written v s))) _ _ same
        (serve_parsed-Cached cfg id v s _ refl))

  module _ (net : Net) (hash : Bytes → ℕ → ℕ) (canonical : Bytes → Bytes)
      (can_open : Bytes → Bool) where
    -- The tags are those of a page that was parsed for an earlier request with this page ID.
    pub record Known (cfg : PathConfig) (visits : List (Visit w.State)) (id : ℕ)
        (es : List (Entity Reference)) : Type 0 where
      pub before : List (Visit w.State)
      pub visit : Visit w.State
      pub after : List (Visit w.State)
      pub visits_eq : visits ≡ before ++ visit ∷ after
      pub told : w.State
      pub parsed : List (Entity Reference)
      pub parsed_eq : parse parsers handlers visit.sizes (written visit told) ≡ some (ok parsed)
      pub id_eq : page_id net hash canonical cfg visit.request ≡ id
      pub es_eq : es ≡ map (with_defaults cfg) parsed

    pub record Sound (cfg now : PathConfig) (visits : List (Visit w.State)) : Type 0 where
      pub settings : SameSettings cfg now
      pub known :
          (id : ℕ) (es : List (Entity Reference))
          → cached now.esi_cache id ≡ some es
          → Known cfg visits id es

    Known-append :
        (cfg : PathConfig) (visits : List (Visit w.State)) (v : Visit w.State) (id : ℕ)
        (es : List (Entity Reference))
        → Known cfg visits id es
        → Known cfg (visits ++ v ∷ []) id es
    Known-append cfg visits v id es k = record {
      before = k.before;
      visit = k.visit;
      after = k.after ++ v ∷ [];
      visits_eq =
          ap (λ l. l ++ v ∷ []) k.visits_eq ∙ append_assoc k.before (k.visit ∷ k.after) (v ∷ []);
      told = k.told;
      parsed = k.parsed;
      parsed_eq = k.parsed_eq;
      id_eq = k.id_eq;
      es_eq = k.es_eq;
    }

    pub Keeps-Sound :
        (cfg now then_cfg : PathConfig) (visits : List (Visit w.State)) (v : Visit w.State)
        → Sound cfg now visits
        → Keeps now then_cfg
        → Sound cfg then_cfg (visits ++ v ∷ [])
    Keeps-Sound cfg now then_cfg visits v s k = record {
      settings = SameSettings-trans cfg now then_cfg s.settings k.settings;
      known = λ id es h. Known-append cfg visits v id es (s.known id es (k.from_cache id es h));
    }

    defaults_same :
        (cfg now : PathConfig) (es : List (Entity Reference))
        → SameSettings cfg now
        → map (with_defaults now) es ≡ map (with_defaults cfg) es
    defaults_same cfg now es h =
        ap (λ (f : Entity Reference → Entity Reference). map f es)
          (fun_ext (λ e. with_defaults-SameSettings cfg now e h))

    stored-Sound :
        (cfg now : PathConfig) (visits : List (Visit w.State)) (v : Visit w.State) (told : w.State)
        (id : ℕ) (parsed : List (Entity Reference))
        → Sound cfg now (visits ++ v ∷ [])
        → page_id net hash canonical cfg v.request ≡ id
        → parse parsers handlers v.sizes (written v told) ≡ some (ok parsed)
        → Sound cfg (upsert_esi_tags now id parsed) (visits ++ v ∷ [])
    stored-Sound cfg now visits v told id parsed s i h = record {
      settings = SameSettings-trans cfg now _ s.settings (record { but_log_and_cache = refl });
      known = λ id' es k.
          let put = cached-put now.esi_cache id (map (with_defaults now) parsed) id' in
          elim (id-cases id' id) [
            | inl e ↦ record {
              before = visits;
              visit = v;
              after = [];
              visits_eq = refl;
              told = told;
              parsed = parsed;
              parsed_eq = h;
              id_eq = i ∙ sym e;
              es_eq =
                  let here : es ≡ map (with_defaults now) parsed = cc (put.0 e, k) in
                  here ∙ defaults_same cfg now parsed s.settings;
            }
            | inr n ↦ s.known id' es (sym (put.1 n) ∙ k)
          ];
    }

    pub Cached-Sound :
        (cfg now : PathConfig) (visits : List (Visit w.State)) (v : Visit w.State) (told : w.State)
        (id : ℕ) (then_cfg : PathConfig)
        → Sound cfg now (visits ++ v ∷ [])
        → page_id net hash canonical cfg v.request ≡ id
        → Cached now id v told then_cfg
        → Sound cfg then_cfg (visits ++ v ∷ [])
    Cached-Sound cfg now visits v told id then_cfg s i same = s
    Cached-Sound cfg now visits v told id then_cfg s i (stored parsed h) =
        stored-Sound cfg now visits v told id parsed s i h
