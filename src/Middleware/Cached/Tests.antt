-- ===== src/Middleware/Cached/Tests.antt =====
-- A page with two tags in the cache, of which one is to be coalesced.
use caddy_esi.Prelude.{ℕ, ◌≡◌, refl, ◌++◌, length, true, false, List, [], ◌∷◌, some}
use caddy_esi.Prelude.Text.{Bytes, codes}
use caddy_esi.EsiTag.DataTags.{DataTag}
use caddy_esi.EsiTag.Finder.Scanner.{Found}
use caddy_esi.EsiTag.Entity.{Entity, Parsers, zero_config}
use caddy_esi.EsiTag.Fanout.{Task, Group, returned, start, answers, sends, tag_for}
use caddy_esi.Config.{Reference, with_defaults}
use caddy_esi.Middleware.{Next, send, send_code}
use caddy_esi.Middleware.Tests.{parsers, config, replied, unchanged}
use caddy_esi.Middleware.Cached.{
  Hash, Duplicate, Queries, Moves, at_start, and_then, begin_queries, queries, calls, coalesces,
  collects, passes, passing,
}

abbrev page : Bytes
page = codes "a<esi:include src='http://x'/>b<esi:include src='http://y' coalesce='1'/>c"

abbrev with_flags : Parsers
with_flags = record parsers { parse_bool = λ s. some true }

abbrev entity_at : Bytes → Bytes → ℕ → ℕ → Entity Reference
entity_at raw url s e = record {
  raw_tag = raw;
  data_tag = record { bytes = []; start = s; end = e };
  on_error = [];
  config = zero_config;
  resources = record { index = 0; url = url; handler = 1 } ∷ [];
  conditioned = false;
}

abbrev first : Entity Reference
first = entity_at (codes "include src='http://x'") (codes "http://x") 1 30

abbrev second : Entity Reference
second = record (entity_at (codes "include src='http://y' coalesce='1'") (codes "http://y") 31 73) {
  config = record zero_config { coalesce = true };
}

abbrev parsed : List (Entity Reference)
parsed = first ∷ second ∷ []

found : List Found
found =
    record { raw_tag = codes "include src='http://x'"; start = 1; end = 30 }
    ∷ record { raw_tag = codes "include src='http://y' coalesce='1'"; start = 31; end = 73 }
    ∷ []

abbrev task : Entity Reference → Task Reference
task e = record {
  entity = with_defaults config e;
  asked =
      record {
        index = 0;
        url = codes "http://x";
        breaker = record { cb_failures = 0; cb_last_failure_time = 0 };
      }
      ∷ [];
  moments = replied;
  duration = [];
  error_text = [];
  room = [];
}

abbrev one : Task Reference
one = task first

abbrev two : Task Reference
two = task second

abbrev done : Task Reference → Group Reference
done t = record {
  goroutines = (t, returned) ∷ [];
  received = tag_for unchanged t ∷ [];
  is_done = false;
}

abbrev last : Queries Reference
last = record {
  shared = passing (done two) [];
  direct = done one;
  taken = tag_for unchanged two ∷ tag_for unchanged one ∷ [];
}

abbrev hash : Hash
hash = record { State = Bytes; write = λ h s. h ++ s; new = []; sum64 = λ h. length h }

-- Another request for the same page asks the same tag.
abbrev Call : (Bytes → Bytes) → List (Task Reference) → Group Reference → Type 0
Call other tasks g = (tasks ≡ two ∷ []) × (g ≡ done two)

abbrev Flight : List DataTag → Type 0
Flight = Duplicate hash Call (two ∷ [])

abbrev run : Moves unchanged Flight (begin_queries true (two ∷ []) (one ∷ [])) last
run =
    and_then
      (and_then
        (and_then
          (and_then
            (and_then
              (and_then (and_then at_start (calls (two ∷ []) (start (one ∷ [])) []))
                (coalesces (start (one ∷ [])) [] (answers [] [] two [] false)))
              (coalesces (start (one ∷ [])) [] (sends [] [] two [] false)))
            (collects (done two) (start (one ∷ [])) [] tt))
          (passes (done two) (start (one ∷ [])) (tag_for unchanged two) [] []))
        (queries (passing (done two) []) (tag_for unchanged two ∷ []) []
          (answers [] [] one [] false) refl))
      (queries (passing (done two) []) (tag_for unchanged two ∷ []) (tag_for unchanged one ∷ [])
        (sends [] [] one [] false) refl)

abbrev handler : Next
handler = record { actions = send_code 200 ∷ send page ∷ []; code = 200; failed = false }
