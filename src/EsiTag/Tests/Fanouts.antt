-- ===== src/EsiTag/Tests/Fanouts.antt =====
-- The tags of a page, queried by goroutines.
use caddy_esi.Prelude.{
  true, ◌++◌, replicate, ℕ, ◌≡◌, refl, false, List, [], ◌∷◌, Option, none, some,
}
use caddy_esi.Prelude.Text.{Bytes, codes, starts_with}
use caddy_esi.Writer.{buffer, buffer-Appends}
use caddy_esi.EsiTag.DataTags.{DataTag}
use caddy_esi.EsiTag.Finder.{split_from}
use caddy_esi.EsiTag.Finder.Scanner.{find_tags, scan_loop}
use caddy_esi.EsiTag.Breaker.{cb_state}
use caddy_esi.EsiTag.Query.{Resource, Moment, content, failure, query_resources, query_from, heard}
use caddy_esi.EsiTag.Entity.{Entity, zero_config}
use caddy_esi.EsiTag.Tests.Sorting.{insertion_sort, insertion_sort-Sorts}
use caddy_esi.EsiTag.Fanout.{
  Task, Group, querying, sending, returned, start, answers, sends, Reach, here, next, tag_for,
}
use caddy_esi.EsiTag.Fanout.Runs.{tags_for}
use caddy_esi.EsiTag.Fanout.Ends.{Ends, query_resources-Ends}
use caddy_esi.EsiTag.Fanout.Page.{Answers, query_resources-Answers}

abbrev unchanged : Bytes → Bytes
unchanged s = s

abbrev resource : Resource
resource = record {
  index = 0;
  url = codes "u";
  breaker = record { cb_failures = 0; cb_last_failure_time = 0 };
}

abbrev moment : Option Bytes → ℕ → Moment
moment none i = record { asked_at = 0; reply = λ a. failure; failed_at = 1 }
moment (some d) i = record { asked_at = 0; reply = λ a. content d; failed_at = 1 }

abbrev entity : Bytes → ℕ → ℕ → Entity ℕ
entity raw s e = record {
  raw_tag = raw;
  data_tag = record { bytes = []; start = s; end = e };
  on_error = codes "!";
  config = zero_config;
  resources = [];
  conditioned = false;
}

abbrev task : Bytes → ℕ → ℕ → Option Bytes → Task ℕ
task raw s e answer = record {
  entity = entity raw s e;
  asked = resource ∷ [];
  moments = moment answer;
  duration = codes "1s";
  error_text = codes "failed";
  room = [];
}

-- The page is `a<esi:x/>b<esi:y/>`; the resource of the second tag fails.
abbrev page : Bytes
page = codes "a<esi:x/>b<esi:y/>"

abbrev one : Task ℕ
one = task (codes "x") 1 9 (some (codes "ONE"))

abbrev two : Task ℕ
two = task (codes "y") 10 18 none

abbrev tasks : List (Task ℕ)
tasks = one ∷ two ∷ []

abbrev record_tag : Bytes → ℕ → ℕ → DataTag
record_tag b s e = record { bytes = b; start = s; end = e }

tag_two : tag_for unchanged two ≡ record_tag (codes "!") 10 18
unfolding tag_for query_resources query_from heard cb_state
tag_two = refl

-- A failed tag with printdebug, whose comment of 41 bytes goes into memory in which another goroutine has written.
abbrev overwritten : Task ℕ
overwritten = record two {
  entity = record (entity (codes "y") 10 18) { config = record zero_config { print_debug = true } };
  room = replicate 60 b'#';
}

tag_overwritten : tag_for unchanged overwritten ≡ record_tag (codes "!" ++ replicate 41 b'#') 10 18
unfolding tag_for query_resources query_from heard cb_state
tag_overwritten = refl

-- The second tag arrives first.
abbrev last : Group ℕ
last = record {
  goroutines = (one, returned) ∷ (two, returned) ∷ [];
  received = tag_for unchanged two ∷ tag_for unchanged one ∷ [];
  is_done = false;
}

abbrev run : Reach unchanged (start tasks) last
run =
    next
      (next
        (next (next here (answers [] ((two, querying) ∷ []) one [] false))
          (answers ((one, sending) ∷ []) [] two [] false))
        (sends ((one, sending) ∷ []) [] two [] false))
      (sends [] ((two, returned) ∷ []) one (tag_for unchanged two ∷ []) false)

query_resources-Ends_example : Ends unchanged tasks run
query_resources-Ends_example = query_resources-Ends unchanged tasks last run

found_page :
    find_tags (4 ∷ []) page
    ≡ some (
        record { raw_tag = codes "x"; start = 1; end = 9 }
        ∷ record { raw_tag = codes "y"; start = 10; end = 18 }
        ∷ [])
unfolding find_tags scan_loop split_from
found_page = refl

no_tag_first : starts_with (codes "<esi:") page ≡ false
unfolding starts_with
no_tag_first = refl

query_resources-Answers_example :
    Answers buffer buffer-Appends insertion_sort page (tags_for unchanged tasks) last.received []
query_resources-Answers_example =
    query_resources-Answers unchanged buffer buffer-Appends insertion_sort (4 ∷ []) page
      (record { raw_tag = codes "x"; start = 1; end = 9 }
        ∷ record { raw_tag = codes "y"; start = 10; end = 18 }
        ∷ [])
      tasks last [] insertion_sort-Sorts no_tag_first found_page
      (refl, refl, refl, (refl, refl, refl, tt)) run tt refl
