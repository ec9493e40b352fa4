-- ===== src/Lib.antt =====
-- A second-hand market behind a REST API (NestJS over Prisma and PostgreSQL, MongoDB and RabbitMQ; src/):
-- users offer products, write to each other about them, order them, and review each other afterwards.
--
-- Parts. Each service of src/modules is a class whose methods check a request against stored rows and
-- write rows through repositories, which call the Prisma client. OrdersService reads and writes
-- products through ProductsRepository. Messages are kept twice over, by MessagesService in PostgreSQL and
-- by MessagesMongoService in MongoDB; both emit events in the process. EventPublisherService publishes
-- events to RabbitMQ, on channels that it borrows from the pool of RabbitMQConnectionService. The guards of
-- src/modules/auth stand before the controllers.
--   Http, Exec      the exceptions of @nestjs/common; a method is a function from a state to a result
--                   (a value or an exception) and a next state, written in do blocks: what was written
--                   before an exception stays written, except in a transaction
--   Prisma          the client that Prisma generates for one model: a record of its operations and of the
--                   laws relied on, in the form of what a lookup by id finds afterwards, and of the order of
--                   sorted rows; Prisma/Memory is a table in memory that meets them
--   Schema, World   the rows of prisma/schema.prisma with their unique columns; the state of a request
--                   (tables, emitted events, readings of clock, random numbers and ids)
--   Products        src/modules/products: Products/ProductsRepository and Products/ProductsService, a
--                   function per method; the theorems stand in Products/Owners, Reopening and
--                   Search; Products/Matching says what a search asks for
--   Orders          src/modules/orders: Orders/OrdersRepository and Orders/OrdersService, a function
--                   per method; Orders/Transitions is validateStatusTransition. The theorems stand in
--                   Orders/Permissions, Numbering, Placing, Race, Endings, and Requests
--   Market          an abstract market, in which an order moves along the graph of states and a product is
--                   reserved, released or sold with it, and its invariant; Orders/Refinement and
--                   Orders/Ordering show that the order service takes its steps
--   Pagination      src/common/utils/pagination.util.ts with its types, DTO and pipe; the theorems stand in
--                   Pagination/Pages and Pagination/Ranges
--   Reviews         src/modules/reviews: Reviews/ReviewsRepository and Reviews/ReviewsService;
--                   Reviews/TrustScore is the arithmetic of calculateTrustScore and Reviews/Scores what it
--                   yields; the theorems on the service stand in Reviews/Posting and Reviews/Rescoring
--   Users           src/modules/users: Users/UsersRepository and Users/UsersService, with bcrypt and jwt in
--                   Users/Security; the theorems stand in Users/Accounts, Logins, Leaving and
--                   Remaining; Users/Trades is about the trades of a user who leaves
--   Categories      src/modules/categories: Categories/CategoriesRepository and Categories/CategoriesService;
--                   Categories/Forest is the tree of categories, Categories/Descent is about isDescendant,
--                   Categories/TreeQuery is findTree, with Categories/Loading about it, and Categories/Moving,
--                   Tree, Planting and Upkeep are about the methods that write
--   Favorites       src/modules/favorites: Favorites/FavoritesRepository and Favorites/FavoritesService; the
--                   theorems stand in Favorites/Liking
--   Messages        src/modules/messages: Messages/MessagesRepository and Messages/MessagesService;
--                   Messages/Rooms and Membership are what every state has, Messages/Requests shows it, and
--                   Messages/Unread is about sending and reading
--   MessagesMongo   src/modules/messages-mongo: ChatRoomRepository, ChatRoomService, MessageRepository,
--                   MessageService and MessagesMongoService (leaveChatroom); MessagesMongo/Occupancy is
--                   what every state has, Leaving and Requests show it, Parting is about leaving
--                   and writing, and Orphans about the two at once
--   Notifications   src/modules/notifications: Notifications/NotificationsRepository and
--                   Notifications/NotificationsService; the theorems stand in Notifications/Owners
--   Auth            src/modules/auth: Auth/Strategies and Auth/Guards, over passport as a parameter; the
--                   theorem stands in Auth/Access
--   Rabbitmq        src/rabbitmq: Rabbitmq/ConnectionService, with the exchanges and queues in
--                   Rabbitmq/Topology; Rabbitmq/Sharing is the steps of tasks that share the pool, and
--                   Rabbitmq/Pooling what holds after any of them
--   Events          src/events: Events/EventTypes, EventPublisher and EventHandler; the theorems stand in
--                   Events/Publishing and Events/Routing
--   Crypto          src/common/utils/crypto.util.ts: encrypt and decrypt, with Crypto/Text for `split`; the
--                   theorem stands in Crypto/Secrets
--   Filters         src/common/filters: Filters/HttpExceptionFilter; Filters/Answers is about what a user learns
--                   from the answer to a call that is refused
--   Tests           runs on a small market, and the results below applied to it
--
-- Correspondence. Functions, fields and constructors keep the names of the source in snake case. A
-- check that throws is `throw_if`, in the order of the source. Relations that a query includes in its
-- result are left out. `updateOrderDto` and the like are functions on rows; an update that may name a
-- unique column is checked against the other rows as the database does.
--
-- Bounds. Numbers are naturals; amounts, pages and limits are what the DTOs admit.
-- generateOrderNumber loops until a number is free, with no bound: the model takes fuel, ends with
-- `exhausted` without it, and a theorem gives enough fuel; isDescendant and findTree, which follow
-- children of children without a bound, take fuel for the levels, with theorems too. Scores and
-- averages, which the code rounds to one decimal, are numbers of tenths, computed exactly where the
-- code has floating point. The retries of a publication and of a handler are counted down, as the
-- code does.
--
-- Not modelled: controllers, logging, configuration, the shapes of responses, and the Redis client.
-- The database's test of a keyword and the distance of two places, which is floating point, are
-- parameters, and so are the broker, passport, node's ciphers and the match of a routing key with a
-- pattern. A row that a foreign key names is taken to exist; the databases answer every call, and
-- calls overlap only where a theorem says so. Rows with equal sort keys are taken to come in the same
-- order in every query with the same filter while the table stays, which PostgreSQL does not promise and
-- the pages of a list rest on. The column updatedAt, which the client sets by itself, is left out, except
-- for chat rooms.
mod Prelude
pub mod Http
pub mod Exec
pub mod Prisma
pub mod Schema
pub mod World
pub mod Products
pub mod Orders
pub mod Market
pub mod Pagination
pub mod Reviews
pub mod Users
pub mod Categories
pub mod Favorites
pub mod Filters
pub mod Rabbitmq
pub mod Crypto
pub mod Events
pub mod Auth
pub mod Messages
pub mod MessagesMongo
pub mod Notifications
mod Tests
