-- ===== src/EsiTag/Fanout/Page.antt =====
-- `serveBuffered` (middleware.go) from `Parse` on: the tags of the page are queried by goroutines, what
-- arrives is collected, measured by `DataLen`, sorted, and injected into the page.
use mathlib.Core.Path.{subst, ap₂}
use mathlib.Core.List.{Mem, Perm, Permᴰ, Pairwise, mem-cons, not-mem-nil}
use mathlib.Core.Logic.Or
use mathlib.Core.Logic.{∥∥₁_elim}
use native.Mathlib.Bridge.{le_prop}
use caddy_esi.Prelude.{ℕ, ◌≤◌, ◌≡◌, refl, sym, ap, ◌∙◌, false, List, [], ◌∷◌, arith, length, some}
use caddy_esi.Prelude.Int.{ℤ, pos, ◌+ℤ◌, int_laws}
use caddy_esi.Prelude.Text.{Bytes, codes, starts_with}
use caddy_esi.Writer.{Writer, Appends}
use caddy_esi.EsiTag.Finder.Scanner.{Found, find_tags}
use caddy_esi.EsiTag.Finder.Locate.{Located, rest, tag}
use caddy_esi.EsiTag.DataTags.{DataTag, data_len, new_data_tags_capped}
use caddy_esi.EsiTag.DataTags.Inject.{inject_content}
use caddy_esi.EsiTag.DataTags.Splice.{splice}
use caddy_esi.EsiTag.DataTags.Stream.{Delivers}
use caddy_esi.EsiTag.Page.{with_contents, tags_of, serve_document}
use caddy_esi.EsiTag.Arrivals.{Sorts, IsStrict, sort_arrivals}
use caddy_esi.EsiTag.Fanout.{Task, Group, start, Reach, AllEnd, tag_for}
use caddy_esi.EsiTag.Fanout.Runs.{tags_for, query_resources-Delivers}

integers_set : IsSet ℤ
integers_set = hlevel

data_len-permᴰ : {xs ys : List DataTag} → Permᴰ xs ys → data_len xs ≡ data_len ys
unfolding data_len
data_len-permᴰ Permᴰ.nil = refl
data_len-permᴰ (Permᴰ.cons e d) = rw (e, data_len-permᴰ d) refl
data_len-permᴰ (Permᴰ.swap e₁ e₂) = rw (e₁, e₂) (omega int_laws)
data_len-permᴰ (Permᴰ.trans d₁ d₂) = data_len-permᴰ d₁ ∙ data_len-permᴰ d₂

-- `DataLen` does not depend on the order in which the tags arrived.
data_len-perm : (xs ys : List DataTag) → Perm xs ys → data_len xs ≡ data_len ys
data_len-perm xs ys p =
    ∥∥₁_elim p (integers_set (data_len xs) (data_len ys)) (λ d. data_len-permᴰ d)

above :
    {p : ℕ} {doc : Bytes} {es : List Found} (ds : List Bytes) (x : DataTag)
    → Located p doc es
    → Mem x (with_contents es ds)
    → p ≤ x.start
above ds x rest m = absurd (not-mem-nil m)
above [] x (tag before after e₁ e₂ e₃ l) m = absurd (not-mem-nil m)
above (d ∷ ds) x (tag before after e₁ e₂ e₃ l) m =
    Or.elim le_prop (mem-cons.0 m) (λ e. let q = ap (λ t. t.start) e in omega arith)
      (λ n. let q = above ds x l n in omega arith)

-- The tags of a page begin one behind the other.
pub Located-IsStrict :
    {p : ℕ} {doc : Bytes} {es : List Found} (ds : List Bytes)
    → Located p doc es
    → IsStrict (with_contents es ds)
Located-IsStrict ds rest = Pairwise.nil
Located-IsStrict [] (tag before after e₁ e₂ e₃ l) = Pairwise.nil
Located-IsStrict (d ∷ ds) (tag before after e₁ e₂ e₃ l) =
    Pairwise.cons (λ x m. let q = above ds x l m in omega arith) (Located-IsStrict ds l)

module _ {Handler : Type 0} where
  -- The entities that `Parse` makes of the tags it finds.
  abbrev pub AtTags : List Found → List (Task Handler) → Type 0
  AtTags [] [] = Unit
  AtTags (f ∷ fs) (t ∷ ts) =
      (t.entity.raw_tag ≡ f.raw_tag)
      × (t.entity.data_tag.start ≡ f.start)
      × (t.entity.data_tag.end ≡ f.end)
      × AtTags fs ts
  AtTags _ _ = ⊥

pub at_found :
    (d : DataTag) (f : Found)
    → d.start ≡ f.start
    → d.end ≡ f.end
    → d ≡ record { bytes = d.bytes; start = f.start; end = f.end }
at_found d f s e = cc

-- What has become of the page: `doc` as `Parse` found it, the tags that were collected and sorted.
pub record Answers (w : Writer) (a : Appends w) (sort : List DataTag → List DataTag) (doc : Bytes)
    (tags received : List DataTag) (s : w.Sink) : Type 0 where
  pub delivers :
      Delivers w a
        (inject_content w (record (new_data_tags_capped 5) { slice = sort received }) doc s)
        s
        (splice 0 tags doc)
  pub length_eq : pos (length (splice 0 tags doc)) ≡ pos (length doc) +ℤ data_len received

module _ {Handler : Type 0} (replace : Bytes → Bytes) where
  -- What the resources of the tags give.
  abbrev pub contents_for : List (Task Handler) → List Bytes
  contents_for [] = []
  contents_for (t ∷ ts) = (tag_for replace t).bytes ∷ contents_for ts

  tags_for-with_contents :
      (es : List Found) (ts : List (Task Handler))
      → AtTags es ts
      → tags_for replace ts ≡ with_contents es (contents_for ts)
  tags_for-with_contents [] [] h = refl
  tags_for-with_contents [] (t ∷ ts) h = absurd h
  tags_for-with_contents (f ∷ fs) [] h = absurd h
  tags_for-with_contents (f ∷ fs) (t ∷ ts) (r, s, e, h) =
      let same : tag_for replace t
          ≡ record { bytes = (tag_for replace t).bytes; start = f.start; end = f.end } =
        at_found (tag_for replace t) f (unfold tag_for in s) (unfold tag_for in e) in
      ap₂ ◌∷◌ same (tags_for-with_contents fs ts h)

  -- For every page that does not begin with a tag, a run of the goroutines for the tags that `Parse` finds
  -- in it, in any order and with the context not done, and a sort.Sort that does what it documents: what the
  -- receiver collects, once sorted, is injected into the page without an error, and puts in the place of each
  -- tag what `tag_for` says: the answer of its own resources, or else its `OnError`, and with printdebug a comment,
  -- which behind an `OnError` with room in its slice is what the goroutines that share this memory have left there. `DataLen` of the tags as they arrived is the change of the length.
  pub query_resources-Answers :
      (w : Writer) (a : Appends w) (sort : List DataTag → List DataTag) (sizes : List ℕ)
      (doc : Bytes) (es : List Found) (ts : List (Task Handler)) (g : Group Handler) (s : w.Sink)
      → Sorts sort
      → starts_with (codes "<esi:") doc ≡ false
      → find_tags sizes doc ≡ some es
      → AtTags es ts
      → Reach replace (start ts) g
      → AllEnd g.goroutines
      → g.is_done ≡ false
      → Answers w a sort doc (tags_for replace ts) g.received s
  query_resources-Answers w a sort sizes doc es ts g s sorts begins found at r ends open_context =
      let received = g.received in
      let tags = tags_for replace ts in
      let ds = contents_for ts in
      let v = serve_document w a sizes doc ds s begins in
      let same : v.tags ≡ es = cc (v.parsed, found) in
      let as_found : with_contents v.tags ds ≡ tags =
        ap (λ l. with_contents l ds) same ∙ sym (tags_for-with_contents es ts at) in
      let strict : IsStrict tags = subst IsStrict as_found (Located-IsStrict ds v.located) in
      let d = query_resources-Delivers replace ts g r ends in
      let p : Perm received tags = d.all_received (d.no_error open_context) in
      let sorted : with_contents v.tags ds ≡ sort received =
        as_found ∙ sym (sort_arrivals sort received tags sorts strict p) in
      record {
        delivers =
            subst
              (λ l.
                Delivers w a
                  (inject_content w (record (new_data_tags_capped 5) { slice = l }) doc s) s
                  (splice 0 tags doc))
              sorted
              (subst
                (λ l. Delivers w a (inject_content w (tags_of v.tags ds) doc s) s (splice 0 l doc))
                as_found v.delivers);
        length_eq =
            ap (λ l. pos (length (splice 0 l doc))) (sym as_found)
            ∙ v.length_eq
            ∙ ap (λ n. pos (length doc) +ℤ n)
                (ap data_len as_found ∙ sym (data_len-perm received tags p));
      }
