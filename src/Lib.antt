-- ===== src/Lib.antt =====
-- 9P2000.L for Go: the messages of p9/, how they are framed on a connection, the registry that makes and
-- reuses them, the server with its handlers, and the parts of the client that stand on them.
--
-- A client and a server exchange messages over a connection. A message is a header of seven bytes
-- (size, type, tag), the fields of its type, and for three types a payload behind the fields. `send`
-- encodes a message and writes the three parts; `recv` reads a header, takes a message of the type
-- from the registry, reads its fields and payload, and decodes it. The server gives messages back to
-- the registry when a request is done. The client takes tags and fids from a pool each, agrees with the
-- server on a version first, and cuts reads and writes to the payload size. The server starts the tag
-- of a request, gives the message to its handler, clears the tag and sends the answer. A handler looks
-- up the reference of a fid, which counts its owners and closes its file with the last of them, calls the
-- file, and gives the reference back. The server keeps a tree of path nodes, which all references to a
-- path share: removals and renames find the references that they concern there.
--
--   Base         what the modules share: lists and tests over the native numbers, masks of bits
--   Buffer       p9/buffer.go: a buffer is the record of its bytes and its overflow flag; a method
--                that reads is a Reader, from a buffer to a value and a buffer, a method that writes is a
--                Writer, from a buffer to a buffer. Buffer/RoundTrip has the rules that build the round
--                trip of a structure from those of its fields
--   Types        p9/p9.go: QIDs, attributes and their masks, directory entries, message numbers
--   Messages     p9/messages.go: the 65 messages by groups, each with decode and encode; Payload has
--                the three with a payload; Message is the interface `message`, a sum of them all
--   Registry     p9/messages.go: registry, with get, put, register and init
--   Transport    p9/transport.go: send and recv
--   Pool         p9/pool.go: pool
--   Version      p9/version.go: version strings
--   Client       p9/client.go, p9/client_file.go, p9/handlers.go: Chunk is the loop under ReadAt and WriteAt,
--                Handshake the version exchange and the handler of Tversion, Sizes the message size
--   Server       p9/server.go: fidRef with its count, and the table of fids of a connState; Server/Counts and
--                Server/Open have what handlers do with them in every order; Server/Tags has StartTag,
--                ClearTag and WaitTag, and the orders in which goroutines call them
--   PathTree     p9/path_tree.go: pathNode, one node with its maps as association lists
--   Linux        linux/errors.go, linux/errors_linux.go: errors of Go as a tree, and ExtractErrno
--   FileMode     p9/p9.go: types and bits of file modes, to and from os.FileMode
--   Handlers     p9/handlers.go, p9/server.go: FileSystem is the interface File of p9/file.go, a parameter.
--                State has connState, with what fidRef holds besides its count, and the monad of a handler;
--                Refs DecRef in full, and lookup, InsertFID and DeleteFID around it; Names the guards;
--                Make, Access, Transfer, Xattr, Remove, Walk and Rename the handlers `handle_<message>`, by
--                what they do; Dispatch connState.handle; Requests handleRequest and its loop, as steps of the goroutines
--                of a connection in any order. Owned has
--                what each handler leaves of the references that it owns, Refusals and Directories what is
--                answered without a call of the files, Permissions and Xattrs reading, writing and
--                attributes
--   Fsimpl       fsimpl/readdir, fsimpl/qids: the window of a directory, and the mappers of QIDs
--   Examples     runs at concrete inputs
--
-- Numbers are natural numbers; a conversion to w bits is written `% 2 ^ w`. A Go string is the list of
-- its bytes. `fid` is a uint64 in memory and 32 bits on the wire, which is why a message fits its layout
-- only if its fids are below 2 ^ 32. A method that sets fields of its message returns the message; a
-- decoder takes the message that it appends to. An offset of Tread or Twrite reaches the files as the
-- int64 of its bits. A
-- connection is the list of the bytes still to come, up to where the peer closed it. `Acc` bounds the one loop without a
-- counter, the decoding of directory entries, since each entry takes bytes off the buffer; the digits
-- of a version take a fuel of ten, which a uint32 never passes, and `chunk` takes one round more than it
-- has bytes. DecRef, which goes on at the parent, takes as fuel the number of references made, and what goes
-- down the tree of path nodes the number of nodes made. References and path nodes are known by number, as
-- by address in the source, and a map that is ranged over is gone through in the order of its list. A
-- handler is a function of the state that ends with a result, an error or a panic, and what it
-- defers is run in each case; an error of a deferred DecRef is not looked at. What readAt, writeAt and
-- sendRecv come to is a parameter, as are the files: any record of functions over a state of their own,
-- each of which may fail or panic.
--
-- Not modelled: the String methods, the logs, the pools of byte slices, which hold no data between
-- messages, but for the one that Tread takes its buffer from, whose size is the message size; errors
-- of the writer; how stop waits for the goroutines, what handleRequest gives back to the registry at its end, and
-- Serve, which listens for connections; the methods of the client's files and its table of pending responses; the File
-- implementations under fsimpl, for which the parameter stands, other than the window of a directory
-- and the mappers of QIDs; and the parts of the repository that are calls of the operating system. The
-- locks of the registry, the pool and the path nodes make each operation a single step; under
-- safelyRead, safelyWrite and safelyGlobal a handler is one step here, so handlers that take turns
-- within these locks are left out. What a Tflush waits for is in Server/Tags and Handlers/Requests,
-- not in its handler; a handler is one step of its goroutine there too. A rename changes the parents of references, so it is modelled but left out where
-- ownership is followed through requests.
pub mod Base
pub mod Buffer
pub mod Types
pub mod Linux
pub mod Messages
pub mod Registry
pub mod Transport
pub mod Pool
pub mod Version
pub mod PathTree
pub mod Server
pub mod Client
pub mod FileMode
pub mod Handlers
pub mod Fsimpl
pub mod Examples
