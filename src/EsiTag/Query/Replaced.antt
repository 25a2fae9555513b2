-- ===== src/EsiTag/Query/Replaced.antt =====
-- `Entity.QueryResources` with the replacer of the request, as `NewResourceArgs` makes it.
use caddy_esi.Prelude.{ℕ, List, []}
use caddy_esi.Prelude.Text.{Bytes}
use caddy_esi.Http.{Request}
use caddy_esi.Helper.Strings.{Without}
use caddy_esi.EsiTag.Query.{Resource, Moment, query_resources}
use caddy_esi.EsiTag.Query.First.{Outcome, query_resources-Outcome}
use caddy_esi.EsiTag.Replacer.{Outside, make_replacer}
use caddy_esi.EsiTag.Replacer.Replaces.{value}
use caddy_esi.EsiTag.Replacer.Twice.{replaced, replaced_again}

-- If no value of a placeholder holds `{`, then `QueryResources` with the replacer of a request behaves
-- as `query_resources-Outcome` says: each resource gets the URL and the key of the tag with the values
-- of the request in place of the placeholders, as if no resource had been asked before it.
pub query_resources-replaced :
    (o : Outside) (env : ℕ → Moment) (request : Request) (key : Bytes) (rs : List Resource)
    → ((name : Bytes) → Without b'{' (value o (make_replacer request []) name))
    → let r = make_replacer request [] in
      let q = query_resources (replaced o r) env key rs in
      Outcome (replaced o r) env 0 key rs q.content q.resources
query_resources-replaced o env request key rs v =
    let r = make_replacer request [] in
    query_resources-Outcome (replaced o r) env (replaced_again o r v) key rs
