-- ===== src/Lib.antt =====
-- Verification of the core of OpenKit Native, the C++ library that collects what an application does
-- and sends it to a Dynatrace server.
--
-- An application's calls become records of text. `BeaconCache` keeps the records of each session (a
-- beacon), `Beacon::send` takes them out in chunks and makes the requests, and a thread evicts
-- records when the cache grows too large or too old. The answers of the server configure what is
-- collected and sent next.
--
-- Prelude: numbers, words of 32 and 64 bits, lists, and splitting on computed values. Machine
-- integers are bit patterns, and their sums wrap around.
-- Text: `UTF8String` (src/core/UTF8String.cxx) as bytes and a count of characters; Validation is its
-- constructor, a fold over the bytes. Its counters are of type `int` in the source; the model is that
-- of texts of less than 2 ^ 31 bytes, where they do not overflow.
-- Caching: src/core/caching. Record is BeaconCacheRecord, Entry is BeaconCacheEntry, Key is
-- BeaconKey, Cache is BeaconCache, and Eviction holds SpaceEvictionStrategy and
-- TimeEvictionStrategy. A function has the name of its method; each changes the state that is passed
-- to it and runs as one step. The map of the cache is a list of pairs. The loop of the space strategy
-- runs on fuel, since it need not end, and other threads change the cache between its calls.
-- Protocol: Attributes is src/protocol/ResponseAttributes.cxx with its defaults, StatusResponse is
-- src/protocol/StatusResponse.cxx, BeaconSend is `Beacon::send` of src/protocol/Beacon.cxx. The loop
-- of the latter runs on fuel; more fuel than there are records is enough if a prefix leaves room.
-- Protocol.JsonResponse: src/protocol/JsonResponseParser.cxx. Body reads the text with the lexer and the
-- parser of Json; Settings says independently what each attribute is. Protocol.KeyValueResponse is
-- KeyValueResponseParser.cxx with `split`, `getIndexOf` and `substring` of Text.Parts, and
-- Protocol.Responses is ResponseParser.cxx and `handleResponse` of HTTPClient.cxx, both of src/protocol.
-- `std::stoi` is a function by clauses. The loop of `substring` has a unit of fuel for each byte, and runs
-- out of it at a byte that begins no character.
-- Protocol.BeaconEvents: the events of src/protocol/Beacon.cxx, as far as they are values, named events, errors with
-- a code, users, actions, web requests, and the start and end of a session. An event is compared with the text of its key-value
-- pairs. What an operation reads is a record. Configuration.Privacy is PrivacyConfiguration.cxx.
-- Configuration: Server is src/core/configuration/ServerConfiguration.cxx and Beacon is
-- BeaconConfiguration.cxx beside it. An update that would follow a null pointer gives none.
-- Objects: Session is the life of a session of src/core/objects/Session.cxx; a child is a number.
-- SessionProxy is when the current session of src/core/objects/SessionProxy.cxx has to be split, by
-- events or by time, and the server configuration that decides it; the making of the next session is
-- not modelled.
-- Communication: src/core/communication. Context is BeaconSendingContext with the sending states as
-- data, Requests is BeaconSendingRequestUtil, States has `doExecute` of each state, and Machine has
-- AbstractBeaconSendingState, `executeCurrentState` and the loop of src/core/BeaconSender.cxx. The loop
-- of the initial state runs on fuel, since it ends only by a success or by a shutdown. The thread's
-- surroundings are a record: the n-th answer, the n-th reading of the clock, whether the n-th
-- question for a shutdown finds one, and what `Beacon::send` gives for a session,
-- if it returns: the loops over sessions have no result where it does not. When it returns, and when it
-- does not, is what Protocol.BeaconSend is about.
-- Watchdog: src/core/SessionWatchdogContext.cxx, without the splitting by time.
-- UrlEncoding: src/core/util/URLEncoding.cxx. Its loops work on bytes, and the constructor of UTF8String,
-- which validates, makes the text that is returned.
-- Json: src/util/json. Value has the values of objects/, Parser is JsonParser.cxx with its two stacks,
-- Lexer is lexer/JsonLexer.cxx on the bytes that its reader has not read, Number is
-- objects/JsonNumberValue.cxx, and Writer is JsonWriter.cxx with `writeJsonString` of the values. The
-- parser is compared with the trees of the JSON grammar (Parser/Syntax), and its stacks with a place in
-- such a tree (Parser/Places, Parser/Simulation). The parser asks a lexer for tokens; here it gets the
-- answers of `nextToken`, call after call. A text has one unit of fuel for each byte and one more, and
-- a string token one more than there are bytes. A map is a list of pairs, written in its order.
-- Tests: runs at concrete inputs.
--
-- A session, which the source compares by its pointer, is known by its address. The loops over a copy
-- of the sessions see them as they were when the copy was made, which is how they still are: no other
-- session is changed meanwhile. Closing a child of a session adds to the cache in the source, and does
-- not here.
--
-- Parameters are what the standard library reads and prints for a double and how it converts one to an
-- integer, the clock, the stop requests, the answers of the HTTP client to the loops that send, and the
-- part of a prefix that changes. Locks, threads, loggers, interceptors and input and output are not
-- modelled, nor is the C interface, which only wraps the objects.
pub mod Prelude
pub mod Text
pub mod Configuration
pub mod Caching
pub mod Protocol
pub mod Objects
pub mod Communication
pub mod Watchdog
pub mod UrlEncoding
pub mod Json
pub mod Tests
