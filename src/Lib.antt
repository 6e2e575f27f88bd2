-- ===== src/Lib.antt =====
-- tnfsd, the daemon of the Trivial Network File System: a model of its C sources (src/) and the
-- theorems that its parts are built on.
--
-- The program. A client sends datagrams, or messages on a connection, that hold a header and a
-- command. `tnfs_decode` (src/datagram.c) finds the session that the header names in the table of
-- sessions (src/session.c), and passes the request to the function of its command: on files
-- (src/tnfs_file.c, with disk images made on the fly by src/atari.c), or on directories
-- (src/directory.c, src/traverse.c, src/fileinfo.c). The function asks the operating system and
-- answers by `tnfs_send`, which keeps the answer in the session for a client that asks again.
--
-- The model. `Os` is the operating system: a record of functions from the calls made before to an
-- answer, a parameter of everything that calls it. `Io` holds the calls made, `errno` and the
-- connections; `Ctx` adds the session at hand, and `Server` the table of all of them. A handler is a
-- function from the request's bytes and a `Ctx` to the `Ctx` after it. What was sent, and what was
-- asked of the system, is read off the calls. The files:
--   Base       numbers, lists and strings of bytes that the others share
--   Os, Tnfs   the system's calls; src/tnfs.h, src/config.h: the structures and limits
--   Endian     src/endian.c      Errortable  src/errortable.c      Strl  src/strlcpy.c, src/strlcat.c
--   Auth       src/auth.c and `tnfs_make_mode`
--   Send       `tnfs_send`, `tnfs_resend` and the replies of src/datagram.c
--   Path       the paths of src/directory.c and src/tnfs_file.c
--   Atari      src/atari.c
--   File       src/tnfs_file.c: Open, Transfer, Names, Device
--   DirList    the linked lists of src/directory.c and their sort
--   Dir        the handles of src/directory.c; Pattern: its wildcards; Load: the loading of a
--              directory, src/traverse.c and src/fileinfo.c; Commands and Listing: the commands
--   Shape      what no command changes of a session and of the connections
--   Sessions   src/session.c; Mount: MOUNT and UMOUNT
--   Server     Decode and Tables: `tnfs_decode`; Calls, ReadOnly and Confined: what a request can
--              make the server call; Sockets and Connections: the sockets of
--              src/datagram.c; Event: src/event_epoll.c, src/event_common.c, and below it
--              Select: src/event_select.c, Kqueue: src/event_kqueue.c; Loop: `tnfs_mainloop` and
--              src/stats.c, with the server as a step relation in Loop/Steps; Startup: src/tnfsd.c
--   Main       src/main.c: the options, the root and the port; Chroot: src/chroot.c
--   Tests      servers in concrete states
-- Names are those of the source. A function of the source that is long is several functions here,
-- one for each of its parts.
--
-- The build is that of src/Makefile for Linux: UNIX, NEED_BSDCOMPAT, ENABLE_CHROOT and NEED_ERRTABLE,
-- without TNFS_DIR_EXT, USAGELOG, DEBUG and WITH_ZIP. A string is the list of its bytes, a buffer the
-- list of what it holds, a pointer into a linked list the list from there on. Integers are natural
-- numbers with the wrap-around of their type written out. The draws of a session ID are 255, as in
-- the source; the merge sort runs on the length of its list as fuel, which is enough, as
-- DirList/Fuel shows; the loop of a read of an image on the number of bytes asked for, which is
-- enough too, as Atari/Image/Reading shows.
--
-- The main loop runs for as long as it is not stopped: it is a function of the number of passes, and
-- what is shown of it holds for every number. What an array on the stack holds before it is written is
-- a parameter, `garbage`; that a signal has asked the daemon to stop is another, `stopped`.
--
-- Of the three ways to wait for input, the main loop is modelled with epoll, the one of the build.
--
-- Not modelled: the matcher of src/match.c, which is another project's, and a parameter here, as are
-- `getopt` and `atoi`; the set-up of epoll and kqueue, the code for Windows, log lines (src/log.c) and
-- what else is printed. Memory is never short but for the allocations of a session and of its root,
-- which may fail, and what `realpath` returns fits its buffer.
pub mod Base
pub mod Os
pub mod Tnfs
pub mod Endian
pub mod Errortable
pub mod Main
pub mod Auth
pub mod Send
pub mod Shape
pub mod Strl
pub mod Path
pub mod Atari
pub mod File
pub mod DirList
pub mod Dir
pub mod Sessions
pub mod Server
pub mod Tests
