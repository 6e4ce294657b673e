-- ===== src/Lib.antt =====
-- Models of the control plane of yunmao, a platform for feeding cats over live video: the Go services
-- and packages under go/. A viewer asks feeding-svc for a portion; the service tests flags, limits and
-- thresholds, reserves the price at billing-svc, drives the request through a state machine, hands the
-- command to the device over the transactional outbox, and confirms or cancels the reservation when
-- the device answers, the viewer cancels or a timeout strikes.
--
-- The parts, each with its file and the code that it models:
--   FeedState       go/pkg/yunmao/feedstate/feedstate.go: State, allowedTransitions, Transition,
--                   IsTerminal.
--   FeedingService  go/services/feeding-svc/internal/service/service.go: transitionLocked, Get; its
--                   children Admission and Create have Create and allowRegionQps, its child Handlers has
--                   HandleAck, Cancel and TimeoutScanRun. The interface BillingHook (billing.go) and the
--                   key-value store are records of operations over a state of their own, so the
--                   theorems hold for every implementation.
--   FeedStore       go/services/feeding-svc/internal/store/store.go (MemoryStore) and the listener of
--                   go/services/feeding-svc/internal/service/outbox_listener.go, which turns every
--                   change of state into a stored row and outbox messages.
--   BillingStore    go/services/billing-svc/internal/store/store.go: memoryStore with orders, wallets
--                   and the holds of the wallet saga.
--   BillingService  go/services/billing-svc/internal/service/wallet.go, and its child Orders service.go:
--                   the calls above that store, with their validation and errors.
--   Cache           go/pkg/yunmao/cache: the interface Store, K, Idempotent and RateLimiter; the
--                   children are Memory (MemoryStore of cache.go) and Cooling (cooldown.go).
--   Cooldown        go/pkg/yunmao/cooldown/cooldown.go: the in-process limiter.
--   Idempotent      go/pkg/yunmao/idempotent/idempotent.go: the in-process cache of keys.
--   FeedingSafety   go/pkg/yunmao/feedingsafety/feedingsafety.go: thresholds from defaults,
--                   environment and overrides.
--   Outbox          go/pkg/yunmao/db/outbox.go: the relay's batch over the tables.
--   FeatureFlags    go/pkg/yunmao/featureflags/featureflags.go: the in-process store, the manager and
--                   the gray release by a hash of the room.
--   EventBus        go/pkg/yunmao/eventbus/eventbus.go: the topics, the envelope and MemoryBus.
--   Mqttx           go/pkg/yunmao/mqttx/mqttx.go: topics, filters, MemoryBroker and MemoryClient.
--   DeviceStore     go/services/device-svc/internal/store/store.go: memoryStore.
--   DeviceService   go/services/device-svc/internal/service/service.go: registration, updates, rooms
--                   and states over that store; its child Issuing has the MQTT credentials.
--   Bridge          go/services/device-svc/internal/bridge/bridge.go: commands from the bus to MQTT and
--                   events from MQTT to the bus; its child Server wires it to MemoryBus, MemoryBroker and
--                   the device service as go/services/device-svc/server/server.go does. The child
--                   Downlink feeds it the outbox messages of FeedStore.
--   Pay             go/services/billing-svc/internal/pay: channel.go and mock.go, the channels with their
--                   registry and the mock channel; its child Reconcile has reconcile.go.
--   ChatStore       go/services/chat-svc/internal/store/store.go: memStore.
--   ChatService     go/services/chat-svc/internal/service/service.go: Send, Moderate, List and the limit;
--   ChatText        has what they do with texts.
--   AuthJwt         go/pkg/yunmao/authjwt/jwt.go: the signer and the verifier.
--   RoomStore       go/services/room-svc/internal/store/store.go: memoryStore.
--   RoomService     go/services/room-svc/internal/service/service.go: rooms, stream keys and the gray
--                   release; its child Subscription has IssueSubscription.
--   UserService     go/services/user-svc/internal/service/service.go over the memoryStore of
--                   go/services/user-svc/internal/store/store.go: logins by a code and for development.
--   Errors          go/pkg/yunmao/errors/errors.go: codes, HTTP status and AppError.
--   Base            Boolean tests, integers, texts, maps, instants and results that the parts share.
--
-- How the code becomes definitions. A method takes the state and returns its result and the state after
-- it. What it reads from the clock and from ids.New is an argument, in the order of the reads. A
-- method runs to its end before the next one begins, as under the service's lock; Create takes the
-- lock several times, and its steps are taken as one. A Go map is an association list whose order
-- stands for the order of a `range` loop. Text is the native string. An instant is the number of
-- nanoseconds since Go's zero Time; `add_time` stops at it. int64 is an integer with its
-- wrap-around written out (add64, sub64, mul64), uint32 a natural number with `% 2 ^ 32`. A Go `error`
-- is its text, or an AppError.
--
-- Recursion is structural. Three loops count down a number that is large enough: a decimal text of an
-- int64 has at most 20 digits, a year has no more digits than its value, and the relay makes as many
-- attempts as its configuration says, as the code does.
--
-- In FeedingService the listeners are the list of the events that they got. Without the outbox mode the
-- goroutine that publishes a command is the operation `published`, a step of its own. The publisher's
-- answer is an argument. In Outbox a transaction is the tables that it would commit; which statement
-- fails, which rows another worker has locked, and when the relay is stopped are arguments.
--
-- In EventBus a channel is a number and its buffer a list; publishing, receiving, subscribing and
-- closing are steps that may come in any order. In Mqttx a handler is a value, and publishing returns
-- the calls of handlers in their order. Bridge calls the JSON library and its neighbours through the
-- record Ports.
--
-- Pay, ChatService, AuthJwt, RoomService and UserService take hashes, JSON, the JWT library, random
-- bytes and the filter of words as arguments. ChatStore sorts by insertion; what `sort.Slice` leaves
-- open, the order of messages of one instant, is then the map's.
--
-- Not modelled: the PostgreSQL stores, Redis, Kafka, the Paho client, HTTP and gRPC, JSON, key stores,
-- metrics, tickers and goroutines that only call what is modelled, generated code, and the parts of
-- the system in other languages; of the Go code, the admin service, the TURN credentials and the ICE
-- servers, the moderation providers and the filter of words, and the payment channels other than the
-- mock (wechat, alipay, appleiap). Create reads the flags through a record of three functions, which
-- the manager of FeatureFlags fills.
pub mod Base
pub mod FeedState
pub mod Idempotent
pub mod Cooldown
pub mod FeedingSafety
pub mod BillingStore
pub mod Errors
pub mod Cache
pub mod FeedingService
pub mod BillingService
pub mod FeedStore
pub mod Outbox
pub mod FeatureFlags
pub mod Mqttx
pub mod EventBus
pub mod DeviceStore
pub mod DeviceService
pub mod Bridge
pub mod Pay
pub mod ChatStore
pub mod ChatText
pub mod ChatService
pub mod AuthJwt
pub mod RoomStore
pub mod RoomService
pub mod UserService
