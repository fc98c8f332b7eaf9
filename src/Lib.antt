-- ===== src/Lib.antt =====
-- SimVisionSDK is a simulator of a stereo camera. A capture thread builds frames, for the data types that
-- some client subscribes to, and pushes them into three queues, one for each group of types; a publisher
-- thread takes them out and sends them on three ZMQ channels; an HTTPS server accepts commands that
-- connect clients, subscribe them, force types on and off, and set parameters.
--
-- Paths below are from the repository's root.
--
--   Types           src/common/Types.cpp and include/sim_vision/common/Types.h: the data types, their
--                   groups and names; Types/Frame the frames, Types/Clock the readings of the clock.
--   Queue           src/data/SPSCQueue.cpp: the ring buffer with growing counters. Queue/Fifo is its
--                   specification, a bounded FIFO; Queue/Valid the invariant, Queue/Refine the view of a
--                   ring buffer as a FIFO, Queue/Loop the loops that empty a queue. Queue/Threads has
--                   the same code in steps of one producer and one consumer, one for each access to
--                   shared memory; Queue/Sound, Queue/Filled, Queue/Producing, Queue/Consuming and
--                   Queue/Interleaving what holds in any order of the steps; Queue/Alone a call whose
--                   steps are not interrupted; Queue/TwoConsumers a second consumer.
--   Pipeline        src/data/DataPipeline.cpp: `push`, `pop_all` and `drain` over the three queues;
--                   Pipeline/Pushed several pushes.
--   Channels        src/data/ChannelManager.cpp: subscriptions, counts and forced types.
--                   Channels/Abstract is its specification, who wants what; Channels/History what the
--                   queries answer after any calls, Channels/Groups when a group is active.
--   Config          src/common/Config.cpp: the configuration; Config/Load reads it from a JSON document,
--                   Config/Checked what a loaded configuration can be relied on for.
--   Parameters      src/common/Parameter.cpp; Startup what src/main.cpp registers for a configuration,
--                   and how it loads and saves the camera's settings; Startup/Items and Startup/Saved
--                   what is restored, Startup/Main `main` as far as it starts, Startup/Ready what it
--                   starts.
--   Source          src/datasource/SimDataSource.cpp: the loaded stereo pairs. Source/Read has the reads
--                   of a file's bytes, Source/Probe the headers of images, Source/Bounds its reads,
--                   Source/Jpeg the headers of JPEG files, Source/Load the listing of a directory,
--                   Source/Slots its loop, Source/Names, Source/Placed and Source/Latest which entries
--                   count, Source/Loaded what is loaded, Source/Generate the maps and the point cloud,
--                   Source/Sensors the small sensors.
--   Capture         src/capture/CaptureEngine.cpp: a frame from the active types of a group, and the
--                   groups of one round; Capture/Frames what it holds, Capture/Generating that it is
--                   built, Capture/Rounds the loop in rounds, Capture/Pushes what a round pushes,
--                   Capture/Wanted that an active type makes it push, Capture/Sent a round of capture
--                   with one of the publisher.
--   Zmq             libzmq, as an interface that the model takes as a parameter.
--   Publisher       src/data/DataPublisher.cpp: the multipart message of a frame; Publisher/Wire what a
--                   socket has accepted, Publisher/Running `start`, a round of the loop, and the
--                   shutdown message, Publisher/Started and Publisher/Counted what they leave,
--                   Publisher/Delivered what the sockets have accepted after a round, Publisher/Round a
--                   round of `run` from the queues to the sockets.
--   Sessions        src/api/SessionManager.cpp
--   Response        src/common/Response.cpp
--   Json            nlohmann::json and `double`, as an interface that the model takes as a parameter;
--                   Json/Tree an instance of it for the tests.
--   Commands        src/api/CommandHandler.cpp: Commands/Parse reads a request, Commands/Report writes
--                   the answers of the queries, Commands has a function for each command and `handle`.
--                   Commands/Program has the commands as sequences of calls, Commands/Workers several at
--                   once, Commands/Kept what every interleaving keeps if each call does,
--                   Commands/Interleaved that of the objects and of the parameters' types, Commands/Race
--                   two that get in each other's way.
--   Server          src/api/AdminServer.cpp: Server/Reading and Server/Sending are its loops over the
--                   TLS library, Server/Request the parser, Server/Parsed what it reads,
--                   Server/Connection `handle_connection` as a whole, Server/Answered what it leaves,
--                   Server/Written the text of its answer, Server/Framing how it is read;
--                   Server/Listening `start`, Server/Pending the queue of connections and
--                   Server/Stopping `stop`, in steps of threads.
--   Logger          src/common/Logger.cpp
--   Tests           the theorems at concrete inputs, and runs.
--
-- State is passed on explicitly: an operation returns the new state with its result. A C++ exception of
-- nlohmann::json is the missing result `none`. `size_t` and `uint64_t` wrap at 2 ^ 64; the theorems on the
-- queue ask that its counters do not reach that, which at a million frames a second takes half a million
-- years. The `int` subscriber counts are natural numbers, since a count is at most the number of clients.
-- Each method that holds a mutex throughout is one step. The loops `while (try_pop(f))` run on fuel, the
-- number of frames in the queue and one more, which is enough when nobody pushes meanwhile. The one wait in
-- the modelled code, in `pop_all`, takes the pushes that happen during it as an argument.
--
-- What the TLS library returns is an argument: the results of the calls of `SSL_read` as a list, at whose
-- end the loop still waits, and the result of the k-th `SSL_write` as a function. `send_all` runs on fuel,
-- 65 for each byte and 66 more, which is enough since it gives up after 65 calls in a row with no byte
-- sent. The loop over the markers of a JPEG file runs on fuel, the file's length, which is enough since
-- each round moves on. In Commands a command is one step; in
-- Commands/Program it is a sequence of calls of the objects, each one step, between which other workers run.
-- The drains take no mutex: they run in the steps of `try_pop` of Queue/Threads, each on the queue as it then
-- is. `check_status`, `list_channels` and `group_active`, which lock several times, are one step each; the
-- capture thread and the publisher do not run there.
--
-- The subscriptions do not change while one frame is built. What the clock reads is an argument, as are the
-- directory's listing and the contents of files.
--
-- Not modelled: what OpenSSL and the sockets do, their options, signals and the process's directories, which
-- are calls of libraries only, and the lines of the log but for the logger itself. The capture engine takes
-- what is generated as an argument, with the exceptions of the three maps, which end its thread and the process.
-- The shutdown in `main` is left out, since the workers, the capture thread and the publisher run on between
-- its calls and how `zmq_ctx_destroy` ends is up to the library; Server/Stopping has the stop of the server.
-- Memory is never exhausted.
pub mod Prelude
pub mod Types
pub mod Queue
pub mod Pipeline
pub mod Channels
pub mod Json
pub mod Parameters
pub mod Config
pub mod Startup
pub mod Zmq
pub mod Source
pub mod Publisher
pub mod Capture
pub mod Sessions
pub mod Server
pub mod Logger
pub mod Response
pub mod Commands
mod Tests
