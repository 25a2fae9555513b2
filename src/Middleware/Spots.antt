-- ===== src/Middleware/Spots.antt =====
-- The tags that are queried stand where the finder found them.
use caddy_esi.Prelude.{ℕ, ◌≡◌, refl, ap, ◌∙◌, List, [], ◌∷◌, Option, none, some, map}
use caddy_esi.Prelude.Result.{ok}
use caddy_esi.Prelude.Text.{Bytes}
use caddy_esi.EsiTag.Finder.Scanner.{Found, find_tags}
use caddy_esi.EsiTag.Entity.{Entity, Parsers}
use caddy_esi.EsiTag.Entity.Spots.{spot, SameSpots, parse_raw_all-SameSpots}
use caddy_esi.EsiTag.Parse.{entities_of, parse_found, parse}
use caddy_esi.EsiTag.Fanout.{Task}
use caddy_esi.EsiTag.Fanout.Page.{AtTags}
use caddy_esi.Config.{Reference, PathConfig, with_defaults}

abbrev pub entities_asked : {Handler : Type 0} → List (Task Handler) → List (Entity Handler)
entities_asked [] = []
entities_asked (t ∷ ts) = t.entity ∷ entities_asked ts

SameSpots-AtTags :
    (cfg : PathConfig) (es : List Found) (entities : List (Entity Reference))
    (ts : List (Task Reference))
    → SameSpots (entities_of es) entities
    → entities_asked ts ≡ map (with_defaults cfg) entities
    → AtTags es ts
SameSpots-AtTags cfg [] [] [] s e = tt
SameSpots-AtTags cfg [] [] (t ∷ ts) s e = absurd (cc)
SameSpots-AtTags cfg [] (x ∷ xs) ts s e = absurd s
SameSpots-AtTags cfg (f ∷ fs) [] ts s e = absurd s
SameSpots-AtTags cfg (f ∷ fs) (x ∷ xs) [] s e = absurd (cc)
SameSpots-AtTags cfg (f ∷ fs) (x ∷ xs) (t ∷ ts) (s, more) e =
    let head : t.entity ≡ with_defaults cfg x = cc in
    let tail : entities_asked ts ≡ map (with_defaults cfg) xs = cc in
    let here : spot t.entity ≡ (f.raw_tag, record { bytes = []; start = f.start; end = f.end }) =
      ap spot head ∙ s in
    (
      ap (λ y. y.0) here,
      ap (λ y. y.1.start) here,
      ap (λ y. y.1.end) here,
      SameSpots-AtTags cfg fs xs ts more tail,
    )

module _ (p : Parsers) (handlers : List (Bytes × Reference)) where
  found_of :
      (o : Option (List Found)) (entities : List (Entity Reference))
      → parse_found p handlers o ≡ some (ok entities)
      → (es : List Found) × (o ≡ some es) × SameSpots (entities_of es) entities
  found_of none entities h = absurd (cc)
  found_of (some es) entities h =
      (es, refl, parse_raw_all-SameSpots p handlers (entities_of es) entities (cc))

  -- What `Parse` accepts is found in the page, tag for tag.
  pub parse-AtTags :
      (sizes : List ℕ) (doc : Bytes) (cfg : PathConfig) (entities : List (Entity Reference))
      (ts : List (Task Reference))
      → parse p handlers sizes doc ≡ some (ok entities)
      → entities_asked ts ≡ map (with_defaults cfg) entities
      → (es : List Found) × (find_tags sizes doc ≡ some es) × AtTags es ts
  unfolding parse
  parse-AtTags sizes doc cfg entities ts h e =
      let (es, found, s) = found_of (find_tags sizes doc) entities h in
      (es, found, SameSpots-AtTags cfg es entities ts s e)
