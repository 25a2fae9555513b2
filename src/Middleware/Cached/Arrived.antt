-- ===== src/Middleware/Cached/Arrived.antt =====
-- The tags of a cached page, as they are received and sorted.
use mathlib.Core.Path.{subst}
use mathlib.Core.List.Perm
use caddy_esi.Prelude.{ℕ, ◌≡◌, sym, ◌∙◌, Bool, true, false, List, [], some, map, inl, inr, ◌⊎◌}
use caddy_esi.Prelude.Result.{ok}
use caddy_esi.Prelude.Text.{Bytes}
use caddy_esi.EsiTag.DataTags.{DataTag}
use caddy_esi.EsiTag.Entity.{Entity, Parsers}
use caddy_esi.EsiTag.Entity.Coalesce.{split_coalesce, has_coalesce, split_coalesce-Splits}
use caddy_esi.EsiTag.Finder.Scanner.{Found, find_tags}
use caddy_esi.EsiTag.Finder.Locate.{find_tags-Located}
use caddy_esi.EsiTag.Page.{with_contents}
use caddy_esi.EsiTag.Parse.{parse}
use caddy_esi.EsiTag.Arrivals.{Sorts, IsStrict, sort_arrivals}
use caddy_esi.EsiTag.Fanout.{Task}
use caddy_esi.EsiTag.Fanout.Page.{AtTags, Located-IsStrict}
use caddy_esi.Config.{Reference, PathConfig, with_defaults}
use caddy_esi.Middleware.Spots.{entities_asked, parse-AtTags}
use caddy_esi.Middleware.Cached.{Queries, begin_queries, Moves, Closed}
use caddy_esi.Middleware.Cached.Answers.{
  Answered, answered_tasks, entities_asked-answered_tasks, answers_found, bytes_of, rejoin,
}
use caddy_esi.Middleware.Cached.Runs.{OtherRun, IsOpen, Moves-Received}

none_coalesced :
    (has : Bool) (cs : List (Entity Reference))
    → ((has ≡ false) × (cs ≡ [])) ⊎ (has ≡ true)
    → has ≡ false
    → cs ≡ []
none_coalesced has cs (inl (h, e)) n = e
none_coalesced has cs (inr h) n = absurd (cc)

module _ (parsers : Parsers) (handlers : List (Bytes × Reference)) (replace : Bytes → Bytes) where
  -- The answers for the tags of a parsed page stand where `Parse` found the tags.
  pub answers_parsed :
      (sizes : List ℕ) (doc : Bytes) (cfg : PathConfig) (parsed : List (Entity Reference))
      (tags : List DataTag) (es : List Found)
      → parse parsers handlers sizes doc ≡ some (ok parsed)
      → find_tags sizes doc ≡ some es
      → Answered replace (map (with_defaults cfg) parsed) tags
      → tags ≡ with_contents es (bytes_of tags)
  answers_parsed sizes doc cfg parsed tags es h f a =
      let (es', found, at) =
        parse-AtTags parsers handlers sizes doc cfg parsed (answered_tasks replace a) h
          (entities_asked-answered_tasks replace a) in
      let same : es' ≡ es = cc in
      answers_found replace a es (subst (λ l. AtTags l (answered_tasks replace a)) same at)

  -- So they begin one behind the other.
  answers-IsStrict :
      (sizes : List ℕ) (doc : Bytes) (cfg : PathConfig) (parsed : List (Entity Reference))
      (tags : List DataTag)
      → parse parsers handlers sizes doc ≡ some (ok parsed)
      → Answered replace (map (with_defaults cfg) parsed) tags
      → IsStrict tags
  answers-IsStrict sizes doc cfg parsed tags h a =
      let (es, found, located) = find_tags-Located sizes doc in
      subst IsStrict (sym (answers_parsed sizes doc cfg parsed tags es h found a))
        (Located-IsStrict (bytes_of tags) located)

  -- The tags that are received, once sorted, answer the tags of the page.
  pub record Arrived (sort : List DataTag → List DataTag) (entities : List (Entity Reference))
      (taken : List DataTag) : Type 0 where
    pub tags : List DataTag
    pub answered : Answered replace entities tags
    pub sorted : sort taken ≡ tags

  pub Moves-Arrived :
      (sort : List DataTag → List DataTag) (sizes : List ℕ) (doc : Bytes) (cfg : PathConfig)
      (parsed : List (Entity Reference)) (Flight : List DataTag → Type 0)
      (coalesced others : List (Task Reference)) (q : Queries Reference)
      → let entities = map (with_defaults cfg) parsed in
        Sorts sort
        → parse parsers handlers sizes doc ≡ some (ok parsed)
        → entities_asked coalesced ≡ (split_coalesce entities).0
        → entities_asked others ≡ (split_coalesce entities).1
        → ((tags : List DataTag) → Flight tags → OtherRun coalesced tags)
        → Moves replace Flight (begin_queries (has_coalesce entities) coalesced others) q
        → Closed q
        → q.direct.is_done ≡ false
        → IsOpen q.shared
        → Arrived sort entities q.taken
  Moves-Arrived sort sizes doc cfg parsed Flight coalesced others q sorts h c o flight ms closed
        open_direct open_shared =
      let entities = map (with_defaults cfg) parsed in
      let s = split_coalesce-Splits entities in
      let absent = λ (n : has_coalesce entities ≡ false).
        c ∙ none_coalesced (has_coalesce entities) (split_coalesce entities).0 s.has n in
      let r =
        Moves-Received replace Flight coalesced others (has_coalesce entities) q absent flight ms
          closed open_direct open_shared in
      let j =
        rejoin replace r.run.other r.run.tasks others s.merged (r.run.same_entities ∙ c) o s.all in
      record {
        tags = j.tags;
        answered = j.answered;
        sorted =
            sort_arrivals sort q.taken j.tags sorts
              (answers-IsStrict sizes doc cfg parsed j.tags h j.answered)
              (Perm.trans r.all (Perm.symm j.same_tags));
      }
