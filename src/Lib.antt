-- ===== src/Lib.antt =====
-- MyChatProject: a chat server (src/server, include/server) on muduo, MySQL and redis, and a terminal
-- client (src/client/main.cpp), with an encrypted message format that both share (include/public.hpp,
-- src/server/encrypt.cpp).
--
-- How the parts interact. The client makes a request as a json object with a message id, encrypts it
-- behind a header, keeps it among the waiting messages and sends it; a timer sends it again until an
-- ACK with its id arrives or RETRY_MAX is reached. The server's onMessage decrypts what arrives and
-- calls the handler of the message type. A handler reads the tables, writes to connections, publishes
-- to redis for users of other servers, and queues its database writes for one worker thread.
--
-- Files, with the code that each is about:
--   Prelude and below      the names shared by all modules; `int` and `uint32_t`, std::string as a
--                          list of bytes, std::to_string and atoi, and their laws
--   Exec, Exec/Keeps       code with a state that may throw or be undefined, and invariants of it;
--                          Exec/Threads: code in steps, alone and among other threads
--   Externals              nlohmann::json, the MySQL client library, hiredis, OpenSSL's EVP functions,
--                          send(2) and SQLite, as records of functions that the model takes as
--                          parameters; the documented behaviour of EVP and json that is relied on
--   Protocol/Header        EnMsgType, MsgHeader, buildACKPacket, isACKValid; Layout: its bytes
--   Protocol/Cipher        aes256CBCEncrypt, aes256CBCDecrypt; Roundtrip: both together
--   Protocol/Frame         encryptedMessage_Svr; Open: what a receiver makes of it
--   Protocol/MsgId         generateUniqueMsgId, with the time as an argument; Repeats: equal ids
--   Model                  User, groupUser, Group (include/server/model), DbTaskArgs
--   Db and below           MySQL (src/server/db/db.cpp) and UserModel, friendModel, groupModel,
--                          offlineMsgModel (src/server/model); Bounds, Queries: their theorems
--   Redis                  src/server/redis/redis.cpp, a round of the loop that listens included; Flush:
--                          the write loop
--   DbTask                 DbTaskQueue and dbWork (src/server/redis/dbtask.cpp); Order: of tasks;
--                          Bounds: of their SQL text
--   Service                ChatService (src/server/chatservice.cpp): the state and what the handlers
--                          share; Conns: _userConnMap; Account: login, reg, logout,
--                          clientCloseException, reset; Chat: oneChat, groupChat, addFriend,
--                          handleRedisSubscribeMessage; Group: createGroup, addGroup; Dispatch:
--                          getHandler; Invariant: who changes the map; Effects: what is sent,
--                          queued and stored (Close: a closed connection; CreateGroup: the creator)
--   ChatServer             ChatServer (src/server/chatserver.cpp): onConnection, onMessage; Messages:
--                          what they throw; Requests: from a frame to its handler;
--                          Events: the server over any history of events; Start: the constructor of
--                          ChatService, and the process of src/server/main.cpp until its end;
--                          Threads (Account, Chat, Tasks): the handlers, the messages from redis and
--                          the database thread in steps that interleave; Alone, Guards, Safety,
--                          Missed, Lost: what each is alone, and what they do together
--   Client and below       src/client/main.cpp: Pending: the maps of waiting messages; Reliable:
--                          encryptedMessage, checkTimeOutAndResend, onReceiveAck; Commands: mainMenu
--                          and its commands; Receive, Login: readTaskHandler and the responses;
--                          Screen: showCurrentUserData; Clock: getCurrentTime; History:
--                          src/server/model/chathistory.cpp; Retries (Rounds): the maps together,
--                          one message seen alone, and the timeout thread; Session: main and its
--                          threads as one machine
--   Exchange and below     server and client together: Reading, Rows, Lists, Texts: the client's
--                          readers on the server's objects; Frames, Recv: a frame on arrival; Acks, Chat,
--                          Forward, Group, Registration, Login (with Answer, Loading): what the
--                          one makes of the other's message; Typing: a private message from the
--                          typed line on; Delivery, Shown, Resent: arrivals of one frame;
--                          Accepted, LoggedIn: the whole way of a login
--   Tests and below        runs, over small instances of the libraries
--
-- State and operations. A class is a record of its fields, a method a function that returns its
-- outcome (a value, an exception, or undefined behaviour) beside the state, which keeps what was
-- written before an exception. The sockets are lists of what was sent, oldest first, with a number for
-- each connection. Clocks and random bytes are arguments or come from a library's state.
--
-- Bounds and fuel. A typed line has at most 4095 bytes, and a recv of the client gives at most 4096
-- (`read_task`; `receive` is what it does with the bytes that recv gave). An `int` is read from
-- json modulo 2 ^ 32; message ids and header fields are uint32_t. The SQL buffers have 1024 bytes,
-- the history's 2048. The loops of subscribe and unsubscribe run on one unit of fuel more than
-- there are bytes to write, the client's send loop on as many units as there are bytes; both are
-- enough, since each round moves a byte. Decimal text takes as many rounds as the number is large.
--
-- Not modelled: muduo's event loop and the making of threads; log output, error messages and the
-- text of menus, which are only printed; the clocks, which are arguments (Client/Clock has the text
-- that getCurrentTime makes of a time, and a step is given that text); the destructor of Redis, and
-- what hiredis does with the null context of a connection that failed; the ids that are printed
-- with a chat line; muduo and json.hpp, which are other people's code. In ChatServer/Threads each
-- section of the server under a mutex and each other call is one step of a thread, and the threads
-- interleave in any way; elsewhere a handler of the server is one step, and so is each operation of
-- a thread of the client, whose maps no mutex guards. Bytes are numbers that need not be below 256.
pub mod Prelude
pub mod Exec
pub mod Externals
pub mod Protocol
pub mod Model
pub mod Db
pub mod Redis
pub mod Exchange
pub mod DbTask
pub mod Service
pub mod ChatServer
pub mod Client
pub mod Tests
