-- ===== src/Lib.antt =====
-- A model of the web server: its clients, its servers and what stands between them.
--
-- A descriptor of a client has a `Client`, which keeps the bytes that it has not read yet and a deque of
-- transactions. A transaction (`Re3`) owns a request, a response and a resource, each by a pointer
-- that may be null. `Client::recvRequest` parses what arrives and passes every finished request to
-- the client's `PortManager`, which picks the `Server` that the host header names; `Server::makeResponse`
-- then makes the response, or opens a file or starts a child process and tells the event loop to wait
-- for it. `Client::passResponse` hands out what is ready to be sent. Before all of that
-- `ConfigParser::setData` reads the configuration and hands the servers over.
--
-- Which file models which part:
--   Base            numbers, lists and the outcome of code that can throw
--   Text            std::string and std::istringstream as the code uses them, on lists of bytes
--   StringMap       std::map with strings as its keys
--   Webserv         include/Webserv.hpp and the table of src/main.cpp
--   Message         Request, Response and Resource
--   Re3, Location   src/Re3.cpp and src/Location.cpp
--   TermPrinter     src/TermPrinter.cpp
--   Client          src/Client.cpp: Parse (chunkedParser, lengthParser, headerParser, reqLineParser),
--                   Receive (initParser, recvRequest), Send (putRspIntoBuff, passResponse)
--   Server          src/Server.cpp: Route (currLocation, requestValidCheck, handleCGI), Pages
--                   (makeHTMLPage, makeAutoIndexPage, contentTypeHeaderInfo), Respond
--                   (makeRedirectResponse, makeErrorResponse), Methods (makeGETResponse,
--                   makePOSTResponse, makeDELETEResponse), Answer (makeResponse)
--   CgiConnector    src/CgiConnector.cpp
--   PortManager     src/PortManager.cpp
--   ConfigParser    src/ConfigParser.cpp: Reader (getSemanticLine, getLineElements, trimWhitespace),
--                   Directives, LocationLines and ServerLines (the lines of a block), Blocks (getIntoBlock,
--                   getPath, locationBlock, serverBlock), Http (httpBlock, setData); Safe holds what the
--                   proofs share
--   ServerManager   src/ServerManager.cpp: State, Tables (setEvent, callKevent, setClients, setRe3s,
--                   makeClient, clientSocketClose, the destructor and the branches of processEvent that
--                   only change the tables), Sending (clientWriteEvent), Terminal (checkStdBuffer), Start
--                   (initServerManager)
--   System          the calls of the operating system, as a record of functions on a state of any type
--
-- A function that changes an object returns the object's new value. Where C++ throws, follows a null
-- pointer or fails an assert, the model gives a fault with the reason (Base.Fallible). An integer that is
-- read from text has the bound of its type, and a number that the code reads before it is set is a
-- parameter, `undef`. Getters are projections.
--
-- A loop without a structure to follow counts rounds. The bounds are the length of the buffer and one or
-- two more for the parsers, since a round removes the bytes of at least one line end, the same for
-- `recvRequest`, since a finished request takes at least its line, and three rounds for each
-- transaction and one more for `passResponse`, since a transaction takes at most a round for its head,
-- its body and its removal. The loops of `ConfigParser` have the bytes that are left and two more, since
-- a line takes at least one byte and the end of the file is met once.
--
-- A pointer in a table of the event loop is NULL, or to a deleted or a living object (ServerManager.State). Deleting a
-- client leaves it and the pointers to its transactions dangling; that `passResponse` destroys a transaction it has
-- sent does not show in the table of transactions.
-- The port managers there share their servers, which they hold by position; `PortManager` has copies.
--
-- Not modelled: the handlers of the event loop that read and write (clientReadEvent but for the branch
-- of a request that cannot be read, resourceReadEvent, resourceWriteEvent, setAndPassResource) and the
-- dispatch of processEvent, main, and the example program reveal_cgi.cpp. What the system calls do, the
-- date and the content of directories included, is not fixed: they are the fields of `System` and of
-- `Sockets`, and the theorems hold for each such record. Lines that the code prints on std::cout for
-- debugging, and the message of `chunkedParser`, are left out.
pub mod Base
pub mod Text
pub mod Webserv
pub mod StringMap
pub mod TermPrinter
pub mod Message
pub mod Re3
pub mod Location
pub mod System
pub mod Client
pub mod CgiConnector
pub mod Server
pub mod PortManager
pub mod ConfigParser
pub mod ServerManager
