-- ===== src/Lib.antt =====
-- The exchange of xbridge (XBridge hub, src/): orders for an exchange of two currencies, the trades
-- that come of two orders that match, and the packets by which the hub leads the two clients of a
-- trade through its phases. The development follows the C++ source function by function; a name of the
-- source in camel case is the same name here in snake case.
--
-- Parts, and the files that model them:
--   Prelude            words, byte strings and reads of buffers (Octets, Parts), tests into Bool (Tests),
--                      lists (Lists), std::map as a list of pairs (Map), 64-bit numbers with a sign (Integers)
--   Packet             src/xbridgepacket.h: the vector, the header's words, the setters and appends;
--                      Fields, Append, Parts and Data hold the lemmas
--   Hash               src/util/util.h: util::hash over SHA256, and uint256 as a number
--   Hex                src/util/util.h and src/util/util.cpp: HexStr and ParseHex
--   Transaction        src/xbridgetransaction.cpp: one trade and its state; Phases and Protocol are about
--                      increaseStateCounter, Join about tryJoin, Trades and Currencies about what the methods keep
--   Exchange           src/xbridgeexchange.cpp: the maps of orders and trades; Invariant says when they are
--                      sound, Matching how orders meet, Over which trades a sweep selects, Confirm
--                      what a wallet's report does
--   Session            src/xbridgesession.cpp: the node's state and what the handlers share;
--     Session.Hub        processTransaction, HoldApply, Initialized
--     Session.Settle     Created, Signed, Commited, Confirmed, the report of a wallet's transaction
--     Session.Upkeep     cancellation and the timer's work
--     Session.History    sequences of packets and timer turns (XBridge::onTimer of src/xbridge.cpp)
--     Session.Client     the client's Hold, Init, Confirm, Finished, Dropped, PendingTransaction
--     Session.Wallet     the client's Sign, Commit, Rollback and requestUnconfirmedTx, with its wallet
--     The other modules of Session (Updates, Sound, Sweep, Expiry, Total, Crossing, Cancel, Answers,
--     Heard, Carried, Payments, Round, Protocol, Finish, Hold, Bounds, Rollback) hold the proofs
--     Session.Payment    the client's Create for a Bitcoin and for any other wallet, which build the payment
--                        and the refund; Coins, Amounts, Asked, RoundTrip and Sound hold the proofs
--     Session.Socket     how a session reads packets from its socket; Buffer, Stream and Whole hold the proofs
--   App                src/xbridgeapp.cpp: how a client places and cancels an order, and the queue of messages
--     App.Sessions       the sessions by address and by currency, known messages, the address book
--     App.Dispatch       XBridgeSession::processPacket with init()'s table, and how a packet gets there
--     App.Loop           the turns of dhtThreadProc: searches, and the queue of messages
--     App.History        sequences of all that can happen to the program; Dispatched, Handlers, Sound, Quiet, Once,
--                        Searches, Retry and Announce hold the proofs
--   Ui                 src/ui/xbridgetransactionsmodel.cpp: the window's rows; Timer, Rows and Window hold the proofs
--   Rpc                src/bitcoinrpc.cpp: the client of a wallet's JSON-RPC server
--     Rpc.Text           getline, trim, atoi and decimal numbers, on bytes
--     Rpc.Http           HTTPPost, ReadHTTPStatus, ReadHTTPHeader, ReadHTTP
--     Rpc.Replies        what CallRPC and each call make of the bytes that come back
--     Rpc.Calls          CallRPC and the calls, on a server with a state; Lines, RoundTrip, Reply, Outcomes and
--                        Answered hold the proofs
--   Tests              a hub, two clients and their orders, to which the theorems are applied
--
-- State. XBridgeExchange is the record Exchange, its maps are lists of pairs in which `insert` puts a key
-- in the place of its order. A shared pointer of a map is the entry itself: a handler takes the object
-- out (`transaction`), changes it, and writes it back (`store`), and what it does to an object that
-- stands in no map is lost. A node joins the exchange, the queue of messages that XBridgeApp::onSend
-- fills, the client's tables, whose pointers share a heap, and the raw transactions that its wallets were
-- handed. The time is an argument, in seconds. XBridgeApp is a node with the maps of sessions, which are pointers,
-- and with what the network has been given. A Program is what never changes (SHA256, the arithmetic of double,
-- the Bitcoin client's code, base64, base58, the node's id); a World is what the surroundings answer during one
-- event (the time, each session's wallet, the network, and whether dht_search finds a search done while it runs, which
-- calls callback; a search that ends in dht_periodic calls it with a null pointer and is an event of its own).
--
-- Bounds. A uint256 is a number, written and read as 32 bytes; amounts are numbers that a packet keeps
-- in 8 bytes; the size field and the counter of confirmations wrap at 2 ^ 32. The value of a transaction's output is an integer,
-- read from a word of 64 bits with its sign. A read or a write outside
-- a vector gives `none`, and so does std::copy of a currency of more than eight bytes. Every function is
-- structural but the loop on the headers of HTTP, whose fuel is the length of the stream and one, and the
-- printing of a number in decimal, whose fuel is the number and one: a line takes a byte and a digit a tenth.
--
-- Left out: threads (each event runs alone; of the locks only m_sessionsLock is modelled, where a thread that
-- holds it takes it again, which never returns and gives `none`), logs, the windows but for the table of
-- orders, the copies of other projects (dht, json_spirit, FastDelegate, breakpad), and what
-- is taken over from the Bitcoin client (script, keys, transactions, serialization). Parameters of which nothing
-- is assumed: SHA256, double, base64 (but that an address comes back from it, where a search is to find it), base58, the texts and hashes of transactions and the scripts of addresses, the answers
-- of a wallet over JSON-RPC with the lock time of a decoded transaction (Rpc, Wallet), and the network's;
-- for the JSON-RPC client itself json_spirit (Json) and the bytes that a server sends back (Server).
-- Of a socket it is assumed that a read brings at most as many bytes as its buffer holds (Fits).
pub mod Prelude
pub mod Packet
pub mod Hash
pub mod Hex
pub mod Transaction
pub mod Exchange
pub mod Session
pub mod App
pub mod Ui
pub mod Rpc
mod Tests
