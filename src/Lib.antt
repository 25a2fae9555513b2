-- ===== src/Lib.antt =====
-- caddy-esi: a middleware for the Caddy web server that replaces Edge Side Include tags of a page by
-- what backend services return.
--
-- A response passes through four parts. The finder (`Parse` of esitag/esi_parser.go) scans the page
-- for `<esi:` ... `/>` and reports the body and the position of each tag. The attributes of a tag name
-- its resources, and `Entity.QueryResources` (esitag/esi_tag.go) asks them in turn, past those that
-- their circuit breaker (esitag/resource.go) holds back. `DataTags.InjectContent`
-- (esitag/data_tag.go) copies the page to the client, in one call or in many, and puts what the
-- resources gave in place of the tags. The response writers of the middleware call it.
--
-- The middleware (middleware.go) puts them together: a page that it has not seen is buffered, parsed and its tags
-- are cached (config.go); goroutines ask the resources of all tags at once, and what arrives is sorted and
-- injected. The Caddyfile (setup.go) and a file of resources (resource_config.go) configure it.
--
-- The URL and the key of a resource are templates, in which the replacer (esitag/replacer.go) puts values
-- of the request.
--
-- Files:
--   Prelude, Prelude/...  numbers, integers, lists and byte strings.
--   Http                  the parts of a request that the program reads.
--   Helper/Strings        functions of the package strings.
--   Helper/Unicode        strings as runes. Helper/CommaList is helper/strings.go.
--   Helper/RealIp         `RealIP` and `findIP` of helper/realip.go; RealIp/First is about the choice of the address.
--   BufPool               the pool of buffers (bufpool/bufpool.go), with its users as steps; BufPool/Clean is about
--                         what they get. The other parts have buffers of their own, and no pool.
--   Writer                io.Writer, which is a parameter: an operation on a sink that the program does
--                         not see, and the law of a writer into memory.
--   EsiTag/Finder         `tagState`, `finder`, `scan`, `split` and `data`. Finder/Scanner is the loop of
--                         `Parse`, Finder/Locate and Finder/Pages are about what it finds, and
--                         Finder/Runs has the runs of the state machine on texts and tags.
--   EsiTag/DataTags       `DataTag`, `DataTags`, the tests on positions, `fullNextTag`, `DataLen` and
--                         `ResetStates`. DataTags/Inject is `InjectContent`. DataTags/Splice is its
--                         specification; Flags, Fits, Passes, Feed, Complete, Single and Pieces lead from the
--                         loop over the tags to one call and to a piece of the stream, and Stream to all
--                         of them. Length is about `DataLen`, Limits about what goes wrong, and Writes about
--                         the writes that a call makes.
--   EsiTag/Page           a page from the finder to the client.
--   EsiTag/Breaker        `CBState`, `CBReset`, `CBRecordFailure`; Breaker/States is about them.
--   EsiTag/Query          `Entity.QueryResources` with `Resource.DoRequest`; Query/First is about it.
--   EsiTag/Registry       the registry of the handlers, their factories, `NewResource` (esitag/resource.go);
--                         Registry/Lookups is about what a registration changes,
--                         Registry/NoSql is `ParseNoSQLURL`.
--   EsiTag/Attributes     `SplitAttributes`; Attributes/RoundTrip reads back what is written.
--   EsiTag/OnError        `parseOnError`, of a tag and of a path.
--   EsiTag/Entity         `Entity`, `Config`, `Entity.ParseRaw`, `Entities.ParseRaw`. Entity/Parsed says what a tag
--                         that is accepted holds, Entity/Spots what stays as it was, and Entity/Coalesce is
--                         `SplitCoalesce`, `HasCoalesce` and `UniqueID`.
--   EsiTag/Parse          `Parse` of esitag/esi_parser.go, from the finder to the entities.
--   EsiTag/Fanout         `Entities.QueryResources`, as steps of its goroutines in any order. Fanout/Runs is
--                         about what arrives, Fanout/Ends about the end of the runs, and Fanout/Page about
--                         the page into which the sorted arrivals go. EsiTag/Arrivals is the order of tags.
--   EsiTag/Replacer       `Replace` and `getSubstitution`. Replacer/Templates reads a string as texts and
--                         placeholders, Replaces and Twice say what becomes of it, and Values where the
--                         values come from. Query/Replaced joins it with the loop over the resources.
--   EsiTag/Args           `ResourceArgs` of esitag/resource.go; Args/Headers is about the headers that a
--                         request passes on, Args/Returned is `PrepareReturnHeaders`.
--   Backend               the handlers of resources (esitag/backend). Backend/Http, Redis, MemCache, Grpc and Shell are
--                         their `DoRequest` and, where they have one, the function that makes them; Keyed is what the
--                         two stores share, Race is `doRequestCancel` as steps of its goroutine and of the
--                         context, and Cuts and Stored lead to Replies, about the answers of all of them.
--   Response              the response writers (response_proxy_buf.go, response_proxy_inject.go) and the
--                         writer of a client below them. Response/Buffered is `bufferedWriter`,
--                         Response/Injecting is `injectingWriter`, Response/Headers is about the header of a
--                         client, Response/Length about Content-Length, and Response/Tests runs them.
--   Config                `PathConfig`, `PathConfigs`, `pageID` (config.go) and `SetDefaultConfig`
--                         (esitag/esi_tag.go); Config/Cache is about the tags of a page in the cache.
--   Config/Items          the file of the resources (resource_config.go); Items/Aliases is about it.
--   Config/Setup          the directive of the Caddyfile (setup.go), with Setup/Loops. Setup/Lines, Blocks and Loggers lead
--                         to Setup/Ready, about the configurations that the setup returns.
--   Config/Plugin         `PluginSetup` (setup.go); Plugin/Restart is about what the server calls when it starts again.
--   EsiCache              the registry of caches (esicache/cache.go), to which the setup adds.
--   Middleware            `ServeHTTP`, `serveBuffered`, `handleHeaderCommands` (middleware.go).
--                         Middleware/Routes is about the way of a request, Middleware/Buffers about the
--                         `bufferedWriter` as a writer, Spots about the tags that are queried, Heads about the
--                         header and the code that the client gets, and
--                         Middleware/Serves about the whole of `serveBuffered`. Middleware/Cached has the goroutines of
--                         a page whose tags are cached: Cached/Runs is about what they send, Answers and Arrived
--                         about the tags put together again and sorted, Writes about the calls of the next
--                         handler, Heads about the header and the code, and Cached/Serves about the whole.
--                         Middleware/Handle is `ServeHTTP` from the header command to the client, one request after the other; its children are about the cache.
--   EsiTag/Tests/...      runs on concrete inputs.
--
-- Positions and counters of the Go type int are native numbers, as they only add lengths up; relative
-- positions are integers. The uint64 and int64 of the circuit breaker wrap around at 2 ^ 64. A slice
-- expression out of range and an index out of range are results of their own, as is a failed write.
-- The loop over the tokens of bufio.Scanner has fuel 2 * n + 1 for a document of n bytes: each round
-- consumes a byte, or finds a tag whose last byte the next round reads again. The loop of `Replace` has
-- one unit of fuel more than the string has bytes, as each round strips two bytes or more. The loops of
-- the setup have one unit more than there are tokens, as each line is behind the one before it.
--
-- Parameters: the windows in which bufio.Scanner passes the page on (any sequence of sizes), the
-- writers, sort.Sort, the detection of the content type, strconv, the matching of paths, a hash
-- function, the replies of the backends, the calls of other requests whose results singleflight shares, the
-- clock, the name of the host, the tokens of the Caddyfile, the file system, the decoders of JSON and XML,
-- humanize.ParseBytes, and functions of net, net/url, path, time and unicode.
--
-- Not modelled: what a cache does, as `NewCacher` and the operations of `Caches` are stubs, two
-- requests that parse the same page at once (the group of singleflight around `Parse`), the server
-- itself, and logging. The clients of backend services are libraries and network; generated code
-- (easyjson, protobuf), tests and demonstrations are no part of the program's logic.
pub mod Prelude
pub mod Writer
pub mod Http
pub mod Helper
pub mod BufPool
pub mod EsiCache
pub mod EsiTag
pub mod Response
pub mod Config
pub mod Middleware
pub mod Backend
