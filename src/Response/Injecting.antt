-- ===== src/Response/Injecting.antt =====
-- response_proxy_inject.go: `injectingWriter` puts the contents of the tags into a page that is
-- written piece by piece. The channel of the tags is the list of what is received until it is closed;
-- sort.Sort and http.DetectContentType are parameters.
pub mod Runs
use caddy_esi.Prelude.{
  ℕ, Bool, true, false, List, [], ◌∷◌, Option, none, some, if◌then◌else◌, length,
}
use caddy_esi.Prelude.Int.{ℤ, pos}
use caddy_esi.Prelude.Text.{Bytes, codes, starts_with}
use caddy_esi.Http.{Header}
use caddy_esi.EsiTag.DataTags.{DataTag, DataTags, new_data_tags_capped, data_len}
use caddy_esi.EsiTag.DataTags.Inject.{Failure, write_failed, Injected, inject_content}
use caddy_esi.Response.{ResponseWriter, body_writer, Decimals, lengthen, put_all}
use caddy_esi.Response.Buffered.{is_zero}

pub data Allowed : Type 0 where
  not_tested yes no : Allowed

-- `chan_tag` is what the channel still delivers.
pub record InjectingWriter (S : Type 0) : Type 0 where
  pub rw : S
  pub chan_tag : List DataTag
  pub lazy_tags : Option DataTags
  pub response_allowed : Allowed
  pub wrote_header : Bool
  pub header : Header

-- `responseWrapInjector`, without the choice of the interfaces that are passed on.
abbrev pub response_wrap_injector : {S : Type 0} → List DataTag → S → InjectingWriter S
response_wrap_injector tags w = record {
  rw = w;
  chan_tag = tags;
  lazy_tags = none;
  response_allowed = not_tested;
  wrote_header = false;
  header = [];
}

-- What `Write` returns, with the writer after it.
pub record Wrote (S : Type 0) : Type 0 where
  pub writer : InjectingWriter S
  pub count : ℕ
  pub failure : Option Failure

module _ (sort : List DataTag → List DataTag) where
  -- The tags after `initLazyTags`.
  abbrev pub loaded : {S : Type 0} → InjectingWriter S → DataTags
  loaded b = elim b.lazy_tags [
    | some tags ↦ tags
    | none ↦ record (new_data_tags_capped 5) { slice = sort b.chan_tag }
  ]

  abbrev still_open : Option DataTags → List DataTag → List DataTag
  still_open none chan = []
  still_open (some tags) chan = chan

  abbrev pub init_lazy_tags : {S : Type 0} → InjectingWriter S → InjectingWriter S
  init_lazy_tags b = record b {
    lazy_tags = some (loaded b);
    chan_tag = still_open b.lazy_tags b.chan_tag;
  }

  module _ (w : ResponseWriter) (d : Decimals) (detect : Bytes → Bytes) where
    -- `isResponseAllowed` of config.go.
    abbrev pub is_response_allowed : Bytes → Bool
    is_response_allowed buf = starts_with (codes "text/") (detect buf)

    abbrev pub tested : Allowed → Bytes → Allowed
    tested not_tested p = if is_response_allowed p then yes else no
    tested a p = a

    unfoldable pub write_header : InjectingWriter w.State → ℕ → InjectingWriter w.State
    write_header b code =
        if b.wrote_header
        then b
        else (let b' = init_lazy_tags b in
            let n = data_len (loaded b).slice in
            let header = if is_zero n then b.header else lengthen d b.header n in
            record b' {
              wrote_header = true;
              header = header;
              rw = w.write_header (put_all w header b.rw) code;
            })

    -- The failure of the writer below.
    abbrev pub failure_of : Bool → Option Failure
    failure_of failed = if failed then some write_failed else none

    abbrev pub pass_or_inject : Allowed → InjectingWriter w.State → Bytes → Wrote w.State
    pass_or_inject no b p =
        let r = w.write b.rw p in
        record {
          writer = record b { rw = r.sink; response_allowed = no };
          count = r.count;
          failure = failure_of r.failed;
        }
    pass_or_inject allowed b p =
        let r = inject_content (body_writer w) (loaded b) p b.rw in
        record {
          writer = record (init_lazy_tags b) {
            rw = r.sink;
            lazy_tags = some r.tags;
            response_allowed = allowed;
          };
          count = length p;
          failure = r.failure;
        }

    unfoldable pub write : InjectingWriter w.State → Bytes → Wrote w.State
    write b p = pass_or_inject (tested b.response_allowed p) b p
