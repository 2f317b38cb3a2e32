-- ===== src/Lib.antt =====
-- rag-chat-cli: the two TypeScript clients of a chat service with retrieval, a terminal client
-- (clients/tui) and a web client (websites). Both keep a chat as a store of messages, which the
-- user's actions and the events of a streamed reply change in turn; the web client keeps its session
-- in cookies, which a gate, the pages and two routes read and rotate.
--
-- The parts and their files:
-- - Wire: the types that the backend sends, clients/tui/src/api/types.ts and enums.ts. `done` and
--   `error`, with the other events, are the constructors of StreamEvent. A JSON number with a fraction
--   and the arguments of a tool call are kept as their text.
-- - Text: strings as lists of UTF-16 code units, with the methods of strings that the code calls; its
--   children hold their laws, lines, objects as association lists, and decimal numerals.
-- - Sse: the readers of server-sent events, clients/tui/src/api/sse.ts and
--   websites/src/lib/sse/client.ts, which have the same code. parseFrame is parse_frame, readSse is
--   read_sse. The inner loop runs on fuel, one more than the length of the buffer, and each round takes
--   two code units at least. A body is the list of its decoded chunks and how it ends; JSON.parse is
--   a parameter.
-- - Tui.Chat: clients/tui/src/store/chat-store.ts. Message has hydrate and applyEvent, Store the
--   state and the actions that do not wait, Stream consumeStream (on_event, on_end) and
--   handleStreamError (on_error), and send and regenerate over a schedule: the events that the loop
--   receives with what other actions do between them. Abort controllers are numbers, and those aborted
--   are listed in the state.
-- - Tui.Api: the transport of clients/tui/src/api/client.ts (request_raw is requestRaw, once more as
--   request_again), its token file (token-store.ts beside it), login, me and logout, and the actions of
--   clients/tui/src/store/auth-store.ts. The server is a parameter, a function of its own state; a world
--   holds its state, the client's tokens, the file and the requests that were sent. Calls has the methods
--   of the client that ask for JSON, with encodeURIComponent as a parameter.
-- - Tui.Sessions, Tui.Providers, Tui.Ui: session-store.ts, provider-store.ts and ui-store.ts beside
--   it, with what /logout of clients/tui/src/commands/registry.ts does to the providers. An action that
--   awaits the API is its start and what follows an answer or a failure; where it matters which of
--   them runs (promises, timers), a world holds the store and them. Date.parse is a parameter.
-- - Tui.Commands, Tui.Format: the registry of clients/tui/src/commands/registry.ts (registerCommand,
--   findCommand, parseCommand), with toLowerCase as a parameter, and the formatters of
--   clients/tui/src/util/format.ts.
-- - Tui.Layout: Lines is clients/tui/src/util/ansi-line.ts, whose loops over an index are recursion over
--   the pieces of a text, its colour sequences and code units; Columns and Tables are fairShare and
--   renderTable of clients/tui/src/markdown/render.ts, whose loop runs on fuel, the sum of the widths, and
--   each round takes one from it. The width of a text is a parameter. Where a row of Lines has a
--   width, it is the sum of the widths of its code units, each measured alone, as the loops count. A line of
--   a table is measured for texts of printable ASCII, box characters and colour sequences, each
--   character a column wide.
-- - Web.Api: a request of the web client. Browser is bff of websites/src/lib/api/browser/client.ts, Bff the
--   wrapper withAuth of websites/src/app/api/_bff.ts, and Server apiFetch of
--   websites/src/lib/api/server/client.ts. Calls has the methods of websites/src/lib/api/browser/index.ts as
--   requests, Routes the route files below websites/src/app/api, one function for each, and Upstreams the
--   functions beside the server's client as what they ask for; what they unwrap of a page
--   is in Served. The framework's lookup of a route file is a parameter, assumed to do what Router writes down of its documentation. Served puts them together.
--   fetch and JSON are parameters; the JSON codec is assumed to read back what it wrote.
-- - Web.Chat: websites/src/features/chat/stores/chat-store.ts. Message has hydrateMessages and
--   applyStreamEvents, Store the actions, Stream the queue of runStream with its flush timer, Refetch
--   the ids that are adopted from the persisted messages, Turn all of it together. Attachments is
--   outgoing-content.ts and split-attached-images.ts of websites/src/features/chat/utils; its replace runs on
--   fuel, the length of the text, of which each match takes some.
-- - Web.Auth: Cookies and Session are websites/src/lib/auth/session.server.ts, Proxy is
--   websites/src/proxy.ts with requireAccessToken and the routes refresh-and-back and clear-and-login
--   below websites/src/app/api/auth. The codec of a cookie and the backend's refresh are parameters;
--   the codec is assumed to read back what it wrote, never as an empty text. Cookies have no domain.
-- - Prelude: tests on numbers, lists and options; Tests: the theorems at concrete inputs.
--
-- The chat stores feed on the readers: an event of read_sse is a StreamEvent once its payload is
-- taken for the type that its name says, as the code does with a cast.
--
-- Not modelled: rendering (Ink, React), what the commands do, uploads and streams through the BFF, the
-- markdown parser and highlighter, the UTF-8 decoder, the abort listener of the readers,
-- logs and toasts of errors, and the backend in Python.
pub mod Prelude
pub mod Text
pub mod Wire
pub mod Sse
pub mod Tui
pub mod Web
pub mod Tests
