-- ===== src/Middleware/Cached/Answers.antt =====
-- The answers for the tags of a cached page: the tags to be coalesced and the others, put together again.
use mathlib.Core.Path.{subst, ap₂}
use mathlib.Core.List.{Perm, perm_middle}
use mathlib.Core.List.Perm
use caddy_esi.Prelude.{◌≡◌, refl, ap, true, false, List, [], ◌∷◌, ◌++◌, map}
use caddy_esi.Prelude.Text.{Bytes}
use caddy_esi.EsiTag.DataTags.{DataTag}
use caddy_esi.EsiTag.Entity.{Entity}
use caddy_esi.EsiTag.Entity.Coalesce.{Merged, nil, left, right, AllCoalesce}
use caddy_esi.EsiTag.Finder.Scanner.{Found}
use caddy_esi.EsiTag.Page.{with_contents}
use caddy_esi.EsiTag.Fanout.{Task, tag_for}
use caddy_esi.EsiTag.Fanout.Runs.{tags_for}
use caddy_esi.EsiTag.Fanout.Page.{AtTags, at_found}
use caddy_esi.Middleware.Spots.{entities_asked}

abbrev pub bytes_of : List DataTag → List Bytes
bytes_of tags = map (λ t. t.bytes) tags

module _ {Handler : Type 0} (replace : Bytes → Bytes) where
  -- Each entity is answered by its own resources, with the placeholders of this request, unless the entity is
  -- to be coalesced: then the placeholders may be those of another request.
  pub data Answered : List (Entity Handler) → List DataTag → Type 0 where
    none_left : Answered [] []
    answer :
        (other : Bytes → Bytes) (t : Task Handler) {es : List (Entity Handler)}
        {tags : List DataTag}
        → (t.entity.config.coalesce ≡ false → other ≡ replace)
        → Answered es tags
        → Answered (t.entity ∷ es) (tag_for other t ∷ tags)

  abbrev pub answered_tasks :
      {es : List (Entity Handler)} {tags : List DataTag} → Answered es tags → List (Task Handler)
  answered_tasks none_left = []
  answered_tasks (answer other t own a) = t ∷ answered_tasks a

  pub entities_asked-answered_tasks :
      {es : List (Entity Handler)} {tags : List DataTag} (a : Answered es tags)
      → entities_asked (answered_tasks a) ≡ es
  entities_asked-answered_tasks none_left = refl
  entities_asked-answered_tasks (answer other t own a) =
      ap (λ l. t.entity ∷ l) (entities_asked-answered_tasks a)

  -- The answers stand where the finder found the tags.
  pub answers_found :
      {es : List (Entity Handler)} {tags : List DataTag} (a : Answered es tags) (fs : List Found)
      → AtTags fs (answered_tasks a)
      → tags ≡ with_contents fs (bytes_of tags)
  answers_found none_left [] h = refl
  answers_found none_left (f ∷ fs) h = absurd h
  answers_found (answer other t own a) [] h = absurd h
  answers_found (answer other t own a) (f ∷ fs) (r, s, e, h) =
      ap₂ ◌∷◌ (at_found (tag_for other t) f (unfold tag_for in s) (unfold tag_for in e))
        (answers_found a fs h)

  -- The tags of the two slices make up the tags of the page.
  pub record Rejoined (entities : List (Entity Handler)) (parts : List DataTag) : Type 0 where
    pub tags : List DataTag
    pub answered : Answered entities tags
    pub same_tags : Perm tags parts

  module _ (other : Bytes → Bytes) where
    join_coalesced :
        (e : Entity Handler) (t : Task Handler) (zs : List (Entity Handler)) (parts : List DataTag)
        → t.entity ≡ e
        → e.config.coalesce ≡ true
        → Rejoined zs parts
        → Rejoined (e ∷ zs) (tag_for other t ∷ parts)
    join_coalesced e t zs parts h c r =
        subst (λ x. Rejoined (x ∷ zs) (tag_for other t ∷ parts)) h
          (record {
            tags = tag_for other t ∷ r.tags;
            answered = answer other t (λ n. absurd (cc)) r.answered;
            same_tags = Perm.cons (tag_for other t) r.same_tags;
          })

    join_other :
        (e : Entity Handler) (t : Task Handler) (zs : List (Entity Handler)) (xs ys : List DataTag)
        → t.entity ≡ e
        → Rejoined zs (xs ++ ys)
        → Rejoined (e ∷ zs) (xs ++ tag_for replace t ∷ ys)
    join_other e t zs xs ys h r =
        subst (λ x. Rejoined (x ∷ zs) (xs ++ tag_for replace t ∷ ys)) h
          (record {
            tags = tag_for replace t ∷ r.tags;
            answered = answer replace t (λ n. refl) r.answered;
            same_tags =
                Perm.trans (Perm.cons (tag_for replace t) r.same_tags)
                  (Perm.symm (perm_middle xs ys));
          })

    pub rejoin :
        {cs ns es : List (Entity Handler)} (cts nts : List (Task Handler))
        → Merged cs ns es
        → entities_asked cts ≡ cs
        → entities_asked nts ≡ ns
        → AllCoalesce true cs
        → Rejoined es (tags_for other cts ++ tags_for replace nts)
    rejoin [] [] nil c n h = record { tags = []; answered = none_left; same_tags = Perm.refl [] }
    rejoin [] (t ∷ nts) nil c n h = absurd (cc)
    rejoin (t ∷ cts) nts nil c n h = absurd (cc)
    rejoin [] nts (left e m) c n h = absurd (cc)
    rejoin (t ∷ cts) nts (left e {zs = zs} m) c n (x, h) =
        join_coalesced e t zs (tags_for other cts ++ tags_for replace nts) (cc) x
          (rejoin cts nts m (cc) n h)
    rejoin cts [] (right e m) c n h = absurd (cc)
    rejoin cts (t ∷ nts) (right e {zs = zs} m) c n h =
        join_other e t zs (tags_for other cts) (tags_for replace nts) (cc)
          (rejoin cts nts m c (cc) h)
