-- ===== src/Lib.antt =====
-- A model of the HTTP server of this repository: it reads a config in the style of nginx, listens
-- on the port that the config names, and answers requests by handlers that it finds by the
-- longest location that begins the target.
--
-- Parts, and how they interact. `main` (src/server_main.cc) has the config parsed
-- (src/config_parser.cc), asks it for the port and for the map of locations, and starts a server.
-- `Server::create_factory_map` (src/server.cc) makes a map from locations to handler factories.
-- `RequestHandlerDelegate::processRequest` (src/request_handler_delegate.cc) matches a request
-- against that map, creates a handler (src/request_handler_factory) and lets it fill the response
-- (src/request_handler). `Server::start_accept` and `Server::handle_accept` make a session for
-- each connection. A `Session` (src/session.cc) runs `processRequest` for each read of a
-- connection, and writes the response before the next read; Connections puts these two together.
-- The API handler works on a `FileSystem` (include/file_system.h), the palette handler on pages
-- of the network (src/palette_api.cc).
--
-- Files. Config, with a child for the tree (Types), the tokenizer (Token), the two `Parse`
-- methods (Parser, File), `ToString` (Printer), `getPort` (Port), and the location methods
-- (Locations), is config_parser.cc; its other children hold the proofs. Main is server_main.cc
-- and the port in server.cc, up to the constructor of the server; Main/Deployed goes from `main`
-- to the answer to a request, Main/Served to the file that is sent. Config/Parser/Report,
-- Config/Port/Report and Main/Report are `Parse`, `getPort` and `main` with the lines they write
-- to the log. Http is request_handler.cc; Handlers has echo, sleep, health, error, bad request,
-- static and color; Api is api_handler.cc, with Api/Store for what it relies on of a file system;
-- Palette is palette_handler.cc and palette_api.cc; MimeTypes is mime_types.cc. FileSystem is the
-- interface, with FileSystem/Fake for fake_file_system.cc, FileSystem/Real for
-- real_file_system.cc, and FileSystem/Agreement on the two; FileSystem/Real/Threads is the calls
-- of several threads as steps of one system. Server is the accept loop of server.cc;
-- Config/Executable is config_parser_main.cc. Routes is the factories, `create_factory_map` and
-- `longest_prefix_matching`; Delegate is `processRequest`, and Delegate/Metric the same with its
-- log; Log is logger.h; Session is session.cc; Connections has the callbacks of server.cc and
-- session.cc as steps of one system. Base, Number and StdMap have what the parts share: byte
-- strings, the outcome of a run, `atoi`, `std::stoi`, `std::to_string` and `std::map`. Examples
-- has the theorems at concrete inputs, and runs.
--
-- Conventions. A `std::string` is the list of its bytes. A call that can fail is a `Run`: a
-- result, an exception, `undefined` for behaviour that C++ leaves undefined (a null pointer, an
-- index out of range, an overflow of `int`), or `spent` where the fuel of a loop is used up.
-- State is passed on. The methods keep their names, in snake case. `std::map` is a sorted list of
-- pairs.
--
-- Fuel. The loop of `Parse` has a round for each byte and one more; every token but the last
-- takes a byte, so that is enough. The search for colours has a round for each byte of the page
-- and one more, and moves on at each. `std::to_string` has a round for each digit and more.
--
-- Parameters. The request parser, `operator<<` of a request, `prepare_payload`, the extension and
-- the parent of a path, `is_relative` and the JSON parser belong to boost; the text of a client's
-- endpoint is that of `remote_endpoint`, or what this throws; the acceptor on a port, which may
-- throw, to boost::asio (`bind_port`); the files and the network belong to the machine. They are
-- fields of `Library`, `Machine`, `Disk` and `FileSystem`, or arguments. What POSIX says of files
-- and directories stands in `DiskLaws` and `DirectoryLaws`; what the API handler needs of a file
-- system stands in `StoreLaws`, which the fake one fulfils; of the real one, whose writes end in
-- undefined behaviour, they are not supposed.
--
-- Callbacks. A step of Connections is one completed accept, read or write, with the whole
-- callback behind it. A handler of files throws where boost::filesystem does, as for a name that
-- is too long. A callback that throws, or runs into undefined behaviour, has no step: an
-- exception leaves `io_service::run` in a thread of the pool and ends the program; `Crashes`
-- holds of a state in which a read can end so. Callbacks of several threads of the pool follow
-- one another here; Threads has what the calls of a file system do when they run at the same
-- time.
--
-- Threads. A step of Threads is one call on the mutex, the disk or the stream. At the end of a
-- write C++ leaves undefined both the `funlockfile` on a closed stream and the second `unlock`,
-- by the destructor of the `unique_lock`. FileSystem/Real has them as undefined. In Threads the
-- first does nothing and the second frees the mutex, whoever owns it, as where the system does
-- not look for the owner; Examples/Threads has a run in which two calls come to the same number
-- so. Calls of `remove` take no mutex; what is said of numbers supposes that there are none.
--
-- Not modelled. What boost::log does with a line (src/logger.cc), and the lines that the request
-- handlers, palette_api.cc, real_file_system.cc and the constructor of the server write to the
-- log; boost::asio itself; the frontend, the tests, and the build.
pub mod Base
pub mod Number
pub mod StdMap
pub mod Config
pub mod Main
pub mod Http
pub mod MimeTypes
pub mod FileSystem
pub mod Handlers
pub mod Api
pub mod Palette
pub mod Routes
pub mod Delegate
pub mod Server
pub mod Session
pub mod Log
pub mod Connections
pub mod Examples
