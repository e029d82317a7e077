-- ===== src/Lib.antt =====
-- A verification library for the messaging system: the state that the web client keeps
-- (apps/web-client) and the handlers of the messaging service (apps/messaging-service).
--
-- The client's slices are Redux reducers: each is a record for the state, a function for each
-- reducer, and one function of an action that dispatches them, so that a run of the client is a list
-- of actions.
--
-- * Web/Messaging models apps/web-client/src/modules/home/stores/messagingSlice.ts: State has the
--   types and the hybrid envelope test of common/crypto/messageHybrid.ts; Merge the merges of a
--   server message with what the client holds; Hydrate `hydrateMessagesFromFetch`; Thread
--   `appendMessageFromSend`, `appendIncomingMessageIfNew`, `replaceOptimisticMessage` and
--   `removeOptimisticMessage`; Session the smaller reducers; Receipts the two receipt merges;
--   Reducer the dispatch. Its Laws have the invariant of the slice (WellFormed, Ids, Frame,
--   Hydration, Settling, Runs), the race of an ack with the sender's echo (Race), and the merges
--   (Merging, Receipts).
-- * Web/ReceiptTicks models the ticks of home/stores/messagingSelectors.ts, which read that state.
-- * Web/Call models home/stores/callSlice.ts and home/utils/peerCallEndLabel.ts.
-- * Web/Notifications models app/stores/notificationsSlice.ts, and its child Payload the validator
--   common/realtime/socketNotificationPayload.ts.
-- * Web/DeviceKeys models crypto/stores/devicePublicKeysSlice.ts.
-- * Api/Receipts models, under apps/messaging-service/src/data, messages/messageReceiptOps.ts with
--   the parts of messages/repo.ts, conversations/repo.ts, conversationReads/repo.ts,
--   messaging/receiptPublish.ts and messaging/rabbitmq.ts that it calls. Api/Documents has the
--   documents, Api/Service the outcomes with their errors, and Api/Mongo the collections: an
--   interface of operations with the behaviour that the MongoDB driver documents as laws, which
--   Api/Mongo/Table fills with a concrete database.
-- * Api/Send models messages/sendMessage.ts beside them, with messages/guestMessagingAuthz.ts,
--   messages/messageApiShape.ts, `insertMessage`, the creation of a direct conversation and
--   `findUserById`, over the same database. Addressing is about the recipient.
-- * Api/RateLimit models utils/auth/rateLimitRedis.ts and the limiters over it (under
--   data/messages, data/calls, utils/auth and utils/rateLimit). Redis has the interface of
--   Api/RateLimit/Redis; Window and Budget are about one key, Sends and PerUser about the three
--   checks of a send together.
-- * Api/Paging models data/messages/listMessages.ts and data/conversations/listConversationsForUser.ts
--   with the queries and cursors that they use (Cursor). Find has the laws of a sorted query, Keyset
--   the order, Walk a client that follows the cursors, with fuel for one request more than there
--   are rows.
-- * Api/Sessions models utils/auth/accessToken.ts, resolveBearer.ts and middleware/requireAuth.ts;
--   its child Rotation refreshTokenRedis.ts, issueTokens.ts and the refresh and logout handlers of
--   controllers/auth.ts. Tokens has what they rely on: `jose`, Redis texts and JSON, which Memory
--   fills. Access and Authority are about requests, Refresh and Eligibility about refresh tokens.
-- * Api/Signaling models utils/realtime/webrtcSocketHandlers.ts with data/calls/webrtcSignalingAuthz.ts
--   and the call notification; its child Schemas the parse of what a client sends, and Schemas/Fields what
--   a parsed signal has of it. Api/Signaling uses the limits
--   of Api/RateLimit, and the users, the broker and the guest rule of Api/Send.
-- * Api/SocketAuth models utils/realtime/socketAuth.ts, over the tokens and users of Api/Sessions; its
--   result is a part of a connection in Api/Signaling.
-- * Web/ConversationList models home/utils/conversationListCache.ts without the cache of SWR that its
--   last function changes, and Web/Retry common/utils/retryAsync.ts, whose function is an argument.
-- * Web/ReadDedupe models home/utils/receiptEmitGuards.ts, over the messages and receipts of
--   Web/Messaging.
-- * Common has the Boolean tests, lists of ids, texts with `trim`, and dictionaries.
--
-- The receipts that the service publishes (`receipt_for`) are what the client's socket events
-- `mergeReceiptFanoutFromSocket` take; the socket layer between them is not modelled.
--
-- A JavaScript object that is used as a map is a function of the key (`Dict`), a field that may be
-- missing or null an `Option`, a text a native text, whose length counts code points. Clocks and
-- random ids are arguments. Dates and counters are natural numbers. All loops are structural
-- recursion on a list; the one number that is printed has fuel for one digit more than its value.
-- The handlers of the service run one after another, without other writers between their calls.
--
-- Not modelled: the listing of receipts, key synchronisation, registration and login, and
-- the rest of the socket layer of the service; the cryptography of the client, which calls Web Crypto; its React
-- components; generated code.
pub mod Common
pub mod Web
pub mod Api
