-- ===== src/Lib.antt =====
-- The core logic of testcafe-hammerhead, a URL-rewriting proxy that stands between a browser and the
-- sites under test.
--
-- A page that the proxy serves sees only proxy URLs; each carries, in front of the destination URL, a
-- descriptor of the session, the window and the type of the resource (ProxyUrl). The proxy takes such
-- a request through its stages (Pipeline): it puts uploaded files into the body (FormData), changes the
-- headers (HeaderTransforms), sends the request to the destination (DestinationRequest), tells what
-- came back (ContentTypes), calls the hooks of the tests (RequestHooks), decodes the body by its
-- charset (Charset), rewrites it and answers; a response to a request of another origin is held back unless
-- the destination allows it (SameOrigin). In scripts,
-- calls and properties that would lead past the proxy become calls of its own functions (Script), and
-- what the page asks of the proxy itself is found among its routes (Router). In the page, a script stands in for the browser's own
-- storages (Storage) and event listeners (Listening) and sends messages to the proxy over a socket
-- (Transport), and the windows and the server keep their cookies in step through synchronization
-- cookies (Cookie).
--
-- The files and the code that they model:
-- - Pipeline: the stages of src/request-pipeline/stages.ts, with utils.ts and index.ts beside it.
--   Pipeline/RequestContext: the context of src/request-pipeline/context/index.ts and base.ts. What the
--   stages do to the outside is a list of actions; what the outside answers is an environment.
--   Pipeline/Hooks: errors, headers and hooks, Pipeline/Sending: how a response comes about.
-- - FormData: src/upload/form-data.ts; FormData/Entry: form-data-entry.ts beside it, FormData/Uploads:
--   the injection of files and index.ts, FormData/Lines: src/utils/buffer.ts. FormData/Messages says
--   what a multipart message is, as lines. Texts in buffers, base64 and JSON are a `Codec`.
-- - HeaderTransforms: src/request-pipeline/header-transforms/index.ts; HeaderTransforms/Transforms:
--   transforms.ts beside it, HeaderTransforms/Prefixes: src/utils/headers.ts.
-- - RequestHooks: src/request-pipeline/request-hooks/events/event-provider.ts, the files of its events,
--   and the methods of src/session/index.ts for the data of response events.
-- - Script: src/processing/script/transformers with node-builder.ts, destructuring.ts, instrumented.ts
--   and instruction.ts, and the loop of transform.ts that rewrites one node. A node is its type, its
--   places and its fields; the place of a node in its parent stands for the tests of identity that the
--   conditions make. The loop has three rounds of fuel: `+=` becomes an assignment, an assignment becomes a call
--   or a sequence, and for these there is no transformer. A pattern is taken apart with its depth and
--   one, since each step goes to a part of the pattern, or to one that is missing.
-- - Router: src/proxy/router.ts. The expression of a route with parameters is the list of its parts, if
--   no token has a character that is special in expressions, else the source for the language's RegExp.
-- - ContentTypes: src/utils/content-type.ts and is-redirect-status-code.ts beside it.
-- - ProxyUrl: `getProxyUrl`, `parseRequestDescriptor`, the resource types and the short origins of
--   src/utils/url.ts. ProxyUrl/Codec states what is used of `encodeURIComponent` and
--   `decodeURIComponent`, ProxyUrl/Split and ProxyUrl/Session take a descriptor apart.
-- - Charset: src/processing/encoding/charset.ts; Charset/Labels: src/processing/encoding/labels.ts and
--   src/utils/string-trim.ts.
-- - DestinationRequest: src/request-pipeline/destination-request/index.ts and agent.ts beside it;
--   DestinationRequest/Auth: auth-credentials.ts. The methods are functions from an object to an
--   object; requests that are sent and events that are emitted are a list of actions, and `run` feeds
--   an object any sequence of responses, timeouts and errors.
-- - SameOrigin: src/request-pipeline/same-origin-policy.ts, over the part of a context that it reads.
-- - Transport: src/client/transport/transport-in-socket.ts and transport-base.ts, with
--   src/client/utils/integer-id-generator.ts. `run` feeds a transport any sequence of sent messages
--   and events of the socket.
-- - Storage: src/client/sandbox/storages/wrapper.ts. The state that the wrapper keeps, the page's own
--   properties and the native storage are fields of a record, and events are a list. Listeners, which run
--   while an event is emitted, are a function on the wrapper.
-- - Listening: src/client/sandbox/event/listening-context.ts. Calls of the browser's own
--   `addEventListener` and `removeEventListener` are a list.
-- - Cookie: src/utils/cookie.ts and the records of src/typings/cookie.d.ts.
-- - Common: lists, texts, association lists, integers and tests on native numbers.
--
-- Objects that the code changes are records, and an operation gives the changed record; a value that
-- the code may leave undefined is an `Option`, or an empty text where the code only tests its truth.
-- Texts that are taken apart are lists of character codes; regular expressions are functions on them,
-- and letters of either case are those of ASCII. Loops are structural recursion, but
-- for those of scripts named above and for the outer loop of `sortByOutdatedAndActual`, which shortens
-- the array it runs over: it has as many rounds as the array has elements, and each round takes at
-- least one of them away.
--
-- Not modelled: the Node and browser interfaces themselves (sockets, streams, files, the DOM), the
-- packages that the code calls, and the logging. Of the program's own parts, the rest of the sessions,
-- the rewriting of pages and styles, the traversal of a script's tree, the parser and the printer
-- of scripts, the servers, and the other sandboxes of the client are
-- outside.
pub mod Common
pub mod Charset
pub mod Cookie
pub mod Storage
pub mod DestinationRequest
pub mod Listening
pub mod ProxyUrl
pub mod SameOrigin
pub mod Script
pub mod Router
pub mod Transport
pub mod ContentTypes
pub mod Pipeline
pub mod FormData
pub mod HeaderTransforms
pub mod RequestHooks
