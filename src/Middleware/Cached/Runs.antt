-- ===== src/Middleware/Cached/Runs.antt =====
-- What arrives on the channel of the tags of a cached page.
use mathlib.Core.Path.{subst}
use mathlib.Core.List.{Perm, perm_append_comm}
use mathlib.Core.List.Perm
use caddy_esi.Prelude.{
  ◌≡◌, refl, sym, ◌∙◌, Bool, true, false, List, [], ◌∷◌, ◌++◌, append_assoc, append-nil,
}
use caddy_esi.Prelude.Text.{Bytes}
use caddy_esi.EsiTag.DataTags.{DataTag}
use caddy_esi.EsiTag.Fanout.{Task, Group, start, Reach, here, next, AllEnd}
use caddy_esi.EsiTag.Fanout.Runs.{tags_for, query_resources-Delivers}
use caddy_esi.Middleware.Spots.{entities_asked}
use caddy_esi.Middleware.Cached.{
  Hash, coalesce_id, Duplicate, Shared, no_part, calling, asking, passing, joined, Queries,
  begin_queries, Move, queries, calls, joins, coalesces, collects, passes, passes_joined, Moves,
  at_start, and_then, Waited, Closed,
}

module _ {Handler : Type 0} (replace : Bytes → Bytes) (Flight : List DataTag → Type 0)
    (coalesced others : List (Task Handler)) where
  -- `passed` are the tags that the goroutine of the coalesced tags has sent.
  abbrev SharedHas : Bool → Shared Handler → List DataTag → Type 0
  SharedHas has no_part passed = (has ≡ false) × (passed ≡ [])
  SharedHas has (calling ts) passed = (ts ≡ coalesced) × (passed ≡ [])
  SharedHas has (asking c) passed = Reach replace (start coalesced) c × (passed ≡ [])
  SharedHas has (passing c rest) passed =
      Reach replace (start coalesced) c × AllEnd c.goroutines × (c.received ≡ passed ++ rest)
  SharedHas has (joined rest) passed = (tags : List DataTag) × Flight tags × (tags ≡ passed ++ rest)

  record Keeps (has : Bool) (q : Queries Handler) : Type 0 where
    direct_run : Reach replace (start others) q.direct
    passed : List DataTag
    shared_has : SharedHas has q.shared passed
    taken_perm : Perm q.taken (q.direct.received ++ passed)

  -- A tag that is sent behind the others.
  add_passed :
      (taken got passed : List DataTag) (t : DataTag)
      → Perm taken (got ++ passed)
      → Perm (taken ++ t ∷ []) (got ++ (passed ++ t ∷ []))
  add_passed taken got passed t p =
      subst (Perm (taken ++ t ∷ [])) (append_assoc got passed (t ∷ []))
        (Perm.append_right (t ∷ []) p)

  add_direct :
      (taken got passed news : List DataTag)
      → Perm taken (got ++ passed)
      → Perm (taken ++ news) ((got ++ news) ++ passed)
  add_direct taken got passed news p =
      subst (Perm (taken ++ news)) (sym (append_assoc got news passed)) (
        Perm.trans
          (subst (Perm (taken ++ news)) (append_assoc got passed news) (Perm.append_right news p))
          (Perm.append_left got (perm_append_comm passed news)))

  move_rest :
      (passed rest : List DataTag) (t : DataTag) → passed ++ t ∷ rest ≡ (passed ++ t ∷ []) ++ rest
  move_rest passed rest t = sym (append_assoc passed (t ∷ []) rest)

  Move-Keeps :
      (has : Bool) {q r : Queries Handler} → Move replace Flight q r → Keeps has q → Keeps has r
  Move-Keeps has (queries sh taken news {g} {h} s e) k = record {
    direct_run = next k.direct_run s;
    passed = k.passed;
    shared_has = k.shared_has;
    taken_perm =
        subst (λ l. Perm (taken ++ news) (l ++ k.passed)) (sym e)
          (add_direct taken g.received k.passed news k.taken_perm);
  }
  Move-Keeps has (calls ts g taken) k = record {
    direct_run = k.direct_run;
    passed = k.passed;
    shared_has = (rw k.shared_has.0 here, k.shared_has.1);
    taken_perm = k.taken_perm;
  }
  Move-Keeps has (joins ts g taken tags f) k = record {
    direct_run = k.direct_run;
    passed = k.passed;
    shared_has = (tags, f, rw k.shared_has.1 refl);
    taken_perm = k.taken_perm;
  }
  Move-Keeps has (coalesces g taken s) k = record {
    direct_run = k.direct_run;
    passed = k.passed;
    shared_has = (next k.shared_has.0 s, k.shared_has.1);
    taken_perm = k.taken_perm;
  }
  Move-Keeps has (collects c g taken e) k = record {
    direct_run = k.direct_run;
    passed = k.passed;
    shared_has = (k.shared_has.0, e, rw k.shared_has.1 refl);
    taken_perm = k.taken_perm;
  }
  Move-Keeps has (passes c g t rest taken) k = record {
    direct_run = k.direct_run;
    passed = k.passed ++ t ∷ [];
    shared_has = (k.shared_has.0, k.shared_has.1, k.shared_has.2 ∙ move_rest k.passed rest t);
    taken_perm = add_passed taken g.received k.passed t k.taken_perm;
  }
  Move-Keeps has (passes_joined g t rest taken) k = record {
    direct_run = k.direct_run;
    passed = k.passed ++ t ∷ [];
    shared_has = (k.shared_has.0, k.shared_has.1, k.shared_has.2 ∙ move_rest k.passed rest t);
    taken_perm = add_passed taken g.received k.passed t k.taken_perm;
  }

  begin_queries-Keeps : (has : Bool) → Keeps has (begin_queries has coalesced others)
  begin_queries-Keeps true = record {
    direct_run = here;
    passed = [];
    shared_has = (refl, refl);
    taken_perm = Perm.refl [];
  }
  begin_queries-Keeps false = record {
    direct_run = here;
    passed = [];
    shared_has = (refl, refl);
    taken_perm = Perm.refl [];
  }

  Moves-Keeps :
      (has : Bool) {q : Queries Handler}
      → Moves replace Flight (begin_queries has coalesced others) q
      → Keeps has q
  Moves-Keeps has at_start = begin_queries-Keeps has
  Moves-Keeps has (and_then ms m) = Move-Keeps has m (Moves-Keeps has ms)

-- What another request has collected for the same entities, with its own placeholders.
pub record OtherRun {Handler : Type 0} (coalesced : List (Task Handler)) (tags : List DataTag)
    : Type 0 where
  pub other : Bytes → Bytes
  pub tasks : List (Task Handler)
  pub same_entities : entities_asked tasks ≡ entities_asked coalesced
  pub all_tags : Perm tags (tags_for other tasks)

-- Of the other requests, those whose coalesced tags have the same ID have the same tags.
abbrev pub SamePage :
    {Handler : Type 0}
    → Hash
    → ((Bytes → Bytes) → List (Task Handler) → Group Handler → Type 0)
    → List (Task Handler)
    → Type 0
SamePage {Handler} hash Call coalesced =
    (other : Bytes → Bytes) (tasks : List (Task Handler)) (g : Group Handler)
    → Call other tasks g
    → coalesce_id hash (entities_asked tasks) ≡ coalesce_id hash (entities_asked coalesced)
    → entities_asked tasks ≡ entities_asked coalesced

-- The contexts of the other requests are not done.
abbrev pub AllOpen :
    {Handler : Type 0} → ((Bytes → Bytes) → List (Task Handler) → Group Handler → Type 0) → Type 0
AllOpen {Handler} Call =
    (other : Bytes → Bytes) (tasks : List (Task Handler)) (g : Group Handler)
    → Call other tasks g
    → g.is_done ≡ false

pub Duplicate-OtherRun :
    {Handler : Type 0} (hash : Hash)
    (Call : (Bytes → Bytes) → List (Task Handler) → Group Handler → Type 0)
    (coalesced : List (Task Handler)) (tags : List DataTag)
    → SamePage hash Call coalesced
    → AllOpen Call
    → Duplicate hash Call coalesced tags
    → OtherRun coalesced tags
Duplicate-OtherRun hash Call coalesced tags same open_all c =
    let d = query_resources-Delivers c.other c.tasks c.group c.run c.returned_all in
    record {
      other = c.other;
      tasks = c.tasks;
      same_entities = same c.other c.tasks c.group c.called c.same_key;
      all_tags =
          subst (λ l. Perm l (tags_for c.other c.tasks)) (sym c.tags_eq)
            (d.all_received (d.no_error (open_all c.other c.tasks c.group c.called)));
    }

-- The context of the request is not done before the resources have answered.
abbrev pub IsOpen : {Handler : Type 0} → Shared Handler → Type 0
IsOpen (passing c rest) = c.is_done ≡ false
IsOpen _ = Unit

module _ {Handler : Type 0} (replace : Bytes → Bytes) (Flight : List DataTag → Type 0)
    (coalesced others : List (Task Handler)) where
  passed_all :
      (has : Bool) (sh : Shared Handler) (passed : List DataTag)
      → (has ≡ false → entities_asked coalesced ≡ [])
      → ((tags : List DataTag) → Flight tags → OtherRun coalesced tags)
      → SharedHas replace Flight coalesced others has sh passed
      → Waited sh
      → IsOpen sh
      → OtherRun coalesced passed
  passed_all has no_part passed absent flight (h, e) w o = record {
    other = replace;
    tasks = [];
    same_entities = sym (absent h);
    all_tags = rw e (Perm.refl []);
  }
  passed_all has (calling ts) passed absent flight h w o = absurd w
  passed_all has (asking c) passed absent flight h w o = absurd w
  passed_all has (passing c []) passed absent flight (r, ends, e) w o =
      let d = query_resources-Delivers replace coalesced c r ends in
      record {
        other = replace;
        tasks = coalesced;
        same_entities = refl;
        all_tags =
            subst (λ l. Perm l (tags_for replace coalesced)) (e ∙ append-nil passed)
              (d.all_received (d.no_error o));
      }
  passed_all has (passing c (t ∷ rest)) passed absent flight h w o = absurd w
  passed_all has (joined []) passed absent flight (tags, f, e) w o =
      subst (OtherRun coalesced) (e ∙ append-nil passed) (flight tags f)
  passed_all has (joined (t ∷ rest)) passed absent flight h w o = absurd w

  -- What is received from the channel until it is closed.
  pub record Received (q : Queries Handler) : Type 0 where
    pub passed : List DataTag
    pub run : OtherRun coalesced passed
    pub all : Perm q.taken (tags_for run.other run.tasks ++ tags_for replace others)

  pub Moves-Received :
      (has : Bool) (q : Queries Handler)
      → (has ≡ false → entities_asked coalesced ≡ [])
      → ((tags : List DataTag) → Flight tags → OtherRun coalesced tags)
      → Moves replace Flight (begin_queries has coalesced others) q
      → Closed q
      → q.direct.is_done ≡ false
      → IsOpen q.shared
      → Received q
  Moves-Received has q absent flight ms (ends, waited) open_direct open_shared =
      let k = Moves-Keeps replace Flight coalesced others has ms in
      let d = query_resources-Delivers replace others q.direct k.direct_run ends in
      let p = passed_all has q.shared k.passed absent flight k.shared_has waited open_shared in
      record {
        passed = k.passed;
        run = p;
        all = Perm.trans k.taken_perm (
            Perm.trans (perm_append_comm q.direct.received k.passed)
              (Perm.append p.all_tags (d.all_received (d.no_error open_direct))));
      }
