-- ===== src/Lib.antt =====
-- Ombot, the relay between a phone client, the Ombers middleware and an OpenClaw gateway.
--
-- The program and its models. Paths are from the repository's root.
--
-- - index.js listens for clients. `Server` has the rate limit and the readiness answer,
--   `Server.Connection` the handlers of a client's socket, and `Server.Life` the events that a
--   connection and its session can go through, in any order, with the clock and what else a handler
--   reads from outside at each. An exception that nothing catches is the outcome `crashed`.
-- - machineRelaySession.js keeps one session per client. `Session` has its state, field for field,
--   and its simple methods; `Session.Register` the exchange of box keys, with its children
--   `Compatibility` (version and capabilities) and `Challenge` (the register message, the challenge
--   and its answer); `Session.Relay` the frames to and from a client (requests, heartbeats,
--   encrypted frames); `Session.Middleware` the connection to the middleware, its handlers and its
--   timers. What a session does to the outside is a list of effects, the last one first; what it
--   reads is a `Moment`. A socket is its `readyState`.
-- - securityGuards.js: `Guards.Payload` has the three signing texts of a request, `Guards.Request`
--   `validateReqSignature` with its Map of nonces as a list in the order of insertion, and
--   `Guards.Register` `validateRegisterChallengeResponse`.
-- - sessionKey.js and gatewayTurnAgentId.js are `SessionKey`; boxCrypto.js is `BoxCrypto` and
--   ed25519.js `Ed25519`, both over the packages as parameters.
-- - gatewayResponseText.js, gatewayAssistantDispatch.js and gatewayErrorClassifier.js are
--   `Gateway.ResponseText`, `Gateway.Dispatch` with `Gateway.Deduper`, and
--   `Gateway.ErrorClassifier`.
-- - gatewayAgentClient.js: `Gateway.Client` has the queue of turns and the connection,
--   `Gateway.Client.Scopes` the scopes that it asks for, `Gateway.Client.Connect` the parameters of
--   its connect request, and `Gateway.Client.Handshake` the frames: the challenge, the request and
--   its answer, and the answers to turns. A `Link` is a client with the connect requests that wait.
-- - gatewayDeviceIdentity.js: `Gateway.Device.Payload` has the text that a device signs, and
--   `Gateway.Device.State` the file that keeps the identity, the token and the scopes.
-- - chatroomStorage.js: `Chatrooms.Names` has the names and paths of key files, `Chatrooms.Vault`
--   their encryption, and `Chatrooms.Storage` what is kept in them. The disk is a list of paths.
-- - openclawGatewayBridge.js: `Bridge` has the state, the gates and the queue of the phone's messages,
--   `Bridge.Gateway` the connection to the gateway with its handshake, answers and keepalive, and
--   `Bridge.Active` the bridge that runs. providerFallbackClient.js is `Gateway.Fallback`.
-- - singleClientGateway.js is `Gateway.Shared`: the active session and what is delivered to it.
-- - openclawConfigSelfHeal.js: `SelfHeal` has the settings, `SelfHeal.Wait` the waiting for the
--   gateway's port, `SelfHeal.Assess` the state of the configuration files, `SelfHeal.Restart` the
--   other programs that are run, and `SelfHeal.Repair` the repair and the watchdog. What a repair
--   meets outside, in its order, is a `Meets`.
-- - tools/openclaw-json-merge.mjs is `ConfigMerge` (the merges) and `ConfigMerge.Repair`.
--
-- A client's message goes from `Server.Connection.on_client_message` through the rate limit and the
-- parser to the session's methods; a request goes on through the guard, and becomes a turn of the
-- gateway in single-client mode or an encrypted frame to the middleware otherwise.
--
-- JavaScript. `Js.Value` has the values that `JSON.parse` makes, with `undefined`, truthiness,
-- `String(v)` and property access; a number is an integer, an infinity or NaN. `Js.Text` has what
-- the source uses of strings, `Js.Json` `JSON.stringify` and the order of keys. `Js.Runtime` is the
-- record of what is not in the repository: `tweetnacl`, the hashes, base64, the JSON parser, the
-- conversion of a text to a number, and the environment; `Chatrooms.Vault.Gcm` has AES-256-GCM and
-- `Gateway.Device.Payload.DeviceKeys` the keys of a device. Theorems hold for every such record.
--
-- Recursion is structural, so no fuel is used but in one place: the searches through a frame and the
-- merges recur on the value, the eviction loop on the array, one entry a round. The waiting for the
-- port has fuel for max_wait + 1 rounds: a round takes at least a millisecond, and no round begins
-- once max_wait milliseconds are over.
--
-- Not modelled: the Hermes bridge (hermesAgentBridge.js), of openclawConfigSelfHeal.js the timers, the
-- paths and the rewriting of fragments, and logging, metrics and the command-line tools, which are
-- files, processes and network. Objects whose
-- own fields shadow `toString`, and the key `__proto__`, are outside the models of values.
pub mod Bridge
pub mod Chatrooms
pub mod Prelude
pub mod Js
pub mod Ed25519
pub mod BoxCrypto
pub mod SelfHeal
pub mod SessionKey
pub mod Guards
pub mod Session
pub mod Gateway
pub mod Server
pub mod ConfigMerge
pub mod Examples
