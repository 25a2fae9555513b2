-- ===== src/EsiTag/Tests/Replacers.antt =====
-- The replacer on a request.
use caddy_esi.Prelude.{ℕ, ◌≡◌, refl, true, List, [], ◌∷◌, Option, none, some, inr}
use caddy_esi.Prelude.Text.{Bytes, codes, equal}
use caddy_esi.Http.{Request, header_values}
use caddy_esi.Helper.Strings.{Without, Without-index, index, join}
use caddy_esi.Helper.RealIp.{Net}
use caddy_esi.EsiTag.Replacer.{
  Outside, Replacer, make_replacer, get_substitution, default_value, default_cases, switch, replace,
  replace_loop,
}
use caddy_esi.EsiTag.Replacer.Templates.{Part, IsTemplate, fill, render}
use caddy_esi.EsiTag.Replacer.Replaces.{Fills, value}
use caddy_esi.EsiTag.Replacer.Values.{value-all, AllCases}
use caddy_esi.EsiTag.Query.{Resource, content, Moment, query_resources}
use caddy_esi.EsiTag.Query.First.{Outcome}
use caddy_esi.EsiTag.Query.Replaced.{query_resources-replaced}
use caddy_esi.EsiTag.Replacer.Twice.{
  replaced, replace-render, Settles, replace-Settles, Ends, replace-Ends,
}

abbrev nowhere : Net
nowhere = record {
  split_host_port = λ a. none;
  parse_ip = λ a. none;
  runes = λ s. s;
  encode = λ c. c ∷ [];
  is_kept = λ c. true;
}

abbrev outside : Outside
outside = record {
  net = nowhere;
  hostname = none;
  query_escape = λ s. s;
  equal_fold = equal;
  split_path = λ p. ([], p);
  when = [];
  when_iso = [];
}

abbrev request : Request
request = record {
  method = codes "GET";
  header = (codes "X-A", codes "1" ∷ codes "2" ∷ []) ∷ [];
  cookies = record { name = codes "sid"; value = codes "77" } ∷ [];
  form_value = λ k. [];
  tls = true;
  host = codes "shop";
  proto = [];
  remote_addr = [];
  url = record {
    scheme = [];
    host = [];
    path = codes "/cart";
    raw_path = [];
    raw_query = [];
    fragment = [];
    request_uri = [];
    text = [];
  };
}

abbrev parts : List Part
parts =
    record { text = codes "a"; name = codes "scheme" }
    ∷ record { text = codes "}-"; name = codes "HX-A" }
    ∷ record { text = []; name = codes "Csid" }
    ∷ record { text = []; name = codes "path" }
    ∷ []

abbrev outcome : Option (Bytes × Replacer) → Bytes
outcome none = []
outcome (some (s, r)) = s

replace_text :
    outcome (replace outside (make_replacer request []) (codes "a{scheme}}-{HX-A}{Csid}{path}{x"))
    ≡ codes "ahttps}-1,277/cart{x"
unfolding replace replace_loop index join get_substitution default_value equal switch header_values
replace_text = refl

parts-IsTemplate : IsTemplate parts (codes "{x")
unfolding index
parts-IsTemplate =
    let text = Without-index b'{' in
    let name = Without-index b'}' in
    (
      text (codes "a") refl,
      name (codes "scheme") refl,
      (
        text (codes "}-") refl,
        name (codes "HX-A") refl,
        (
          tt,
          name (codes "Csid") refl,
          (
            tt,
            name (codes "path") refl,
            inr (
              record { before = []; after = codes "x"; splits = refl; clear = tt },
              name (codes "x") refl,
            ),
          ),
        ),
      ),
    )

replace-render_example :
    Fills outside
      (make_replacer request [])
      (replace outside (make_replacer request []) (render parts (codes "{x")))
      (fill (value outside (make_replacer request [])) parts (codes "{x"))
replace-render_example =
    replace-render outside parts (codes "{x") (make_replacer request []) parts-IsTemplate

-- A request with no headers, cookies and form values.
abbrev bare : Request
bare = record request { header = []; cookies = [] }

bare-AllCases : AllCases (Without b'{') (default_cases outside bare [])
unfolding index header_values
bare-AllCases =
    let text = Without-index b'{' in
    let host = text (codes "shop") refl in
    let path = text (codes "/cart") refl in
    (
      text (codes "GET") refl,
      (
        text (codes "https") refl,
        (
          tt,
          (
            host,
            (
              host,
              (
                path,
                (
                  path,
                  (
                    path,
                    (
                      path,
                      (
                        tt,
                        (
                          tt,
                          (tt, (tt, (tt, (tt, (tt, (tt, (tt, (tt, (tt, (path, (tt, tt))))))))))),
                        ),
                      ),
                    ),
                  ),
                ),
              ),
            ),
          ),
        ),
      ),
    )

bare-Without : (key : Bytes) → Without b'{' (value outside (make_replacer bare []) key)
bare-Without =
    value-all (Without b'{') outside bare [] bare-AllCases tt (λ n. tt) (λ n. tt) (λ n. tt)

replace-Settles_example : Settles outside (make_replacer bare []) (codes "{method} {{path}}{host")
replace-Settles_example =
    replace-Settles outside (make_replacer bare []) (codes "{method} {{path}}{host") bare-Without

abbrev resources : List Resource
resources =
    record {
      index = 0;
      url = codes "redis";
      breaker = record { cb_failures = 0; cb_last_failure_time = 0 };
    }
    ∷ []

abbrev surroundings : ℕ → Moment
surroundings i = record { asked_at = 5; reply = λ a. content a.key; failed_at = 6 }

query_resources-replaced_example :
    let r = make_replacer bare [] in
    let q = query_resources (replaced outside r) surroundings (codes "{path}") resources in
    Outcome (replaced outside r) surroundings 0 (codes "{path}") resources q.content q.resources
query_resources-replaced_example =
    query_resources-replaced outside surroundings bare (codes "{path}") resources bare-Without

replace-Ends_example : Ends outside (make_replacer request []) (codes "a{b}{")
replace-Ends_example = replace-Ends outside (make_replacer request []) (codes "a{b}{")
