-- ===== src/Middleware/Handle/Tests.antt =====
-- Two requests for the same page.
use caddy_esi.Prelude.{◌≡◌, refl, true, List, [], ◌∷◌}
use caddy_esi.Prelude.Text.{equal, starts_with}
use caddy_esi.Http.{Request, header_values}
use caddy_esi.EsiTag.Finder.{split_from}
use caddy_esi.EsiTag.Finder.Scanner.{find_tags, scan_loop}
use caddy_esi.EsiTag.Attributes.{split_attributes, fields_func}
use caddy_esi.EsiTag.Registry.{lookup, scheme_end}
use caddy_esi.EsiTag.Entity.{Entity, parse_raw, parse_raw_all, apply_all, apply, attribute_name}
use caddy_esi.EsiTag.Parse.{parse}
use caddy_esi.EsiTag.Tests.Sorting.{insertion_sort}
use caddy_esi.Response.Buffered as Buffered
use caddy_esi.Response.Memory.{Client, client, silent, strokes}
use caddy_esi.Config.{
  Reference, PathConfig, with_defaults, page_id, upsert_esi_tags, cached, cache_put,
}
use caddy_esi.Middleware.{serve_buffered, act, act_all, handle_header_commands, command_of, injects}
use caddy_esi.Middleware.Tests.{
  detect, parsers, handlers, config, handler, entity, net, hash, request, unchanged, arrived,
}
use caddy_esi.Middleware.Handle.{Visit, handle, handle_all, route_of}
use caddy_esi.Middleware.Handle.Known.{Known}
use caddy_esi.Middleware.Handle.Runs.{handle_all-Known}

abbrev plain : Request
plain = record request { header = [] }

abbrev visit : Visit Client
visit = record {
  request = plain;
  client = silent;
  next = handler;
  sizes = 7 ∷ [];
  arrived = arrived;
  taken = arrived;
}

abbrev after : PathConfig
after =
    handle_all client strokes detect insertion_sort parsers handlers net hash unchanged (λ s. true)
      config (visit ∷ [])

abbrev queried : List (Entity Reference)
queried = with_defaults config entity ∷ []

second_way :
    (route_of client strokes detect insertion_sort parsers handlers net hash unchanged
      (λ s. true)
      after
      plain).0
    ≡ injects
        (upsert_esi_tags config (page_id net hash unchanged config plain) (entity ∷ []))
        queried
unfolding handle_all handle serve_buffered handle_header_commands command_of equal header_values
    act_all act Buffered.write parse find_tags scan_loop split_from parse_raw_all parse_raw
    apply_all apply attribute_name split_attributes fields_func lookup scheme_end starts_with cached
    cache_put
second_way = refl

handle_all-Known_example :
    Known client strokes detect insertion_sort parsers handlers net hash unchanged
      (λ s. true)
      config
      (visit ∷ [])
      (page_id net hash unchanged config plain)
      queried
handle_all-Known_example =
    handle_all-Known client strokes detect insertion_sort parsers handlers net hash unchanged
      (λ s. true) config
      (upsert_esi_tags config (page_id net hash unchanged config plain) (entity ∷ [])) (visit ∷ [])
      plain queried refl second_way
