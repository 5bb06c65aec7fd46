-- ===== src/Lib.antt =====
-- gokalshi: a Go client of the Kalshi exchange, its WebSocket feed and its HTTP API.
--
-- The parts and how they interact. An HTTP call (client.go) resolves what it costs from the table
-- of endpoint costs (endpoint_cost.go), waits until the token bucket (ratelimit.go) grants the
-- cost, and then sends the request, again after each 429, until an answer, an error or the last
-- retry. `ConfigureRateLimits` fetches the table and the limits with two such calls. The endpoint
-- methods of the other files each make one such call, with a path of paths.go and parameters that
-- query.go puts together. The key that auth.go loads and the URLs come from the environment
-- (config.go). The WebSocket client (ws_client.go) keeps the channels, the subscription ids and the
-- awaited requests; the user's calls change them and send commands, the reading loop handles what
-- the server sends, and `ListenLoop` connects, and subscribes anew after a loss.
--
-- Files. `Base` has the shared tests, lists, maps, integers and texts. `Ws` is ws_client.go with
-- ws_types.go and ws_options.go: `Ws/State` the fields of `WSClient` and `ChannelState`, `Ws/Send`
-- `sendSubscribe` to `writeJSON`, `Ws/Incoming` `handleIncoming` and its handlers, `Ws/Api` the
-- five calls of the user, `Ws/Loop` `Connect`, `Close`, `readLoop`, `ListenLoop` and the recovery.
-- `EndpointCost` is endpoint_cost.go, `RateLimit` ratelimit.go, `Client` client.go: there
-- `Client/Errors` is the API error of errors.go, `Client/Configure` is `ConfigureRateLimits`, and
-- `Client/Create` is `NewClient` with its options. `Query` is query.go, `Endpoint` paths.go and the
-- convenience methods of client.go, with a child for each file of endpoint methods, `Auth` auth.go,
-- `Config` config.go, `Errors` the error types of errors.go. `Float` is the interface of float64.
-- The other files have theorems, `Tests` runs at concrete inputs. Names are those of the code in
-- snake_case. `Generate` is tools/generate_types/main.go with the snapshot of
-- tools/internal/specsrc/specsrc.go: a development tool that writes types_generated.go from the
-- OpenAPI specification. `WsTypes` is tools/generate_ws_types/main.go, which writes
-- ws_messages_generated.go in the same way.
--
-- How the code corresponds. A `*ChannelState` is an address into `cells`, so that `channels` and
-- `sid_map` share an object. A mutex makes a handler one step; where the code gives the lock up to
-- send, a `Window` holds what other goroutines do meanwhile and whether the write succeeds. A loop
-- runs against a list of rounds that holds what the network, the timers, the context and the clock
-- do in each, and its end without a result is told apart. A Go set is a list without repetitions,
-- and the order in which a map is ranged over is an argument, or does not matter for what is
-- stated.
--
-- Bounds and fuel. Message ids, sequence numbers and subscription ids are natural numbers.
-- Durations are nanoseconds; the products of the retry wait and of the reconnect pause wrap at 64
-- bits. The send of a text on the message channel waits for room; whether it ends is told by an
-- event (`taken`), and a handler whose send waits for ever is told apart as one that has not ended.
-- The size of the channel is not modelled. The flush of queued markets has fuel, one unit for each
-- round, and two units are enough while nobody queues more; the search of the type generator has
-- one unit for each name and one more; the fuel of the WebSocket type generator bounds how deep it
-- looks into a schema and its references, and where these do not lead back to themselves, a
-- schema's rank and one more is enough (`WsTypes/Fuel`). Floats are of any type with the operations
-- of `Float`; what is used of their order and arithmetic is in `IsOrdered`, which whole numbers
-- meet.
--
-- Not modelled: logging, upper case of letters other than ASCII, the generated types of bodies and
-- results, and the other tools. encoding/json, net/http, net/url, the crypto packages, the
-- environment variables and the WebSocket library are parameters or events. In
-- `ConfigureRateLimits` the limits and the costs are taken as the floats that the code converts
-- them to, and in an HTTP call the signed headers are part of what it meets.
mod Base
pub mod Ws
pub mod EndpointCost
pub mod Float
pub mod RateLimit
pub mod Client
pub mod Query
pub mod Endpoint
pub mod Errors
pub mod Auth
pub mod Config
pub mod Generate
pub mod WsTypes
