-- ===== src/Lib.antt =====
-- flud backup: the parts of the program that keep its state, and its wire format.
--
-- flud stores encrypted blocks of files on peers. A node finds peers through a Kademlia-style
-- routing table (flud/FludkRouting.py), and everything that it sends or keeps, requests as well as
-- the manifest and the metadata, is written in a URL-safe encoding of Python values
-- (flud/fencode.py).
--
-- Prelude holds what the parts share: lists and numbers, Python's exceptions as a result type with
-- `do`, dicts as association lists in insertion order, and the list methods that raise.
--
-- Routing models flud/FludkRouting.py. Node is the tuple (ip, port, id, key); NodeCache is the
-- replacement cache; Bucket is kBucket; Table is kRouting, where a bucket that the code shares and
-- changes is the element at its place in the list `kBuckets`. Their children prove: NodeCache/Fifo
-- against a bounded queue; Bucket/Valid for one bucket; Table/Search for the binary search,
-- Table/Split for the split, Table/Insert and Table/Halving for the insertion, Table/Operations for
-- the constructor and the reads, Table/Removal for the removals and Table/Closest for findNode. The
-- recursion of insertNode has fuel for 257 rounds: each split halves the range of the bucket, and
-- an id has at most 257 bits. The loop of findNode has a round for each bucket. What a full
-- bucket's oldest node is pinged for is up to the caller.
--
-- Fencode models flud/fencode.py: Base64, Integers and Utf8 are what the code uses of Python's
-- library, Values are Python's values, Encode is fencode and Decode is fdecode. The nesting of
-- fdecode has fuel for one level more than the text is long, and each of its loops has as many
-- rounds as its text is long; both are enough, since each element has a letter and a length field.
-- A letter is a character code, a text is a list of them, and a bytes is a list of numbers below
-- 256.
--
-- BlockFile models flud/protocol/BlockFile.py, the file of one stored block: a header with the
-- length of the data, the data, and the fencoded accounting of the nodes that own it. The file is
-- the list of its bytes with a place, in the modes `rb` and `rb+`; the header is the one of a
-- little-endian machine. The CRC-32 of the accounting's `repr` is a parameter of open and close.
-- Accounting is what the methods for nodes do to the accounting, Data what read, seek and write do
-- to the data, Reopen what close leaves to the next open, Convert what convert makes of a file,
-- and Opens the file and the mode of one that is opened.
--
-- Config models of flud/FludConfig.py what is not the reading and writing of the configuration
-- file: the known nodes, the reputations and the throttling of nodes, the choice of nodes by
-- reputation, which asks the routing table for each of them, and the manifest with the text of its
-- file, which fencode writes. Times are in seconds, the ends of pauses in fifths of a second, and a
-- node id is the number that the code makes of a string; the clock is an argument. Laws is about
-- reputations, Nodes about addNode, and Manifest about the manifest.
--
-- Lookup models the lookups of flud/protocol/ClientDHTPrimitives.py: FindNode is k_find_node,
-- FindValue is k_find_value and Store is k_store. What a request comes to is an argument, by the
-- round and the contact; the requests of a round are all made before the first answer is looked
-- at, as asyncio.gather does. The rounds have fuel; where each answer has the id of the contact
-- that was asked and the contacts are finitely many, each round closes a contact or shortens the
-- list of pending ones, so a bound from both is enough (Total, ValueTotal). Open, Ends and
-- ValueEnds have the measure, the number of contacts that are not queried and then the length of
-- the list of pending ones; Answer and Values are about what is returned, and Storing about
-- k_store with its lookup.
--
-- Peers models updateNode, updateNodes and requireParams of flud/protocol/FludCommUtil.py. A key
-- stands for its modulus, with the exponent that importPublicKey gives to one, and the id of a key
-- is a parameter. A call of GETID is a request in a list, and its answer is a call of
-- handle_get_id. Trust and Imposter are about keys and the ids that they come with, Once about a
-- failed request. Sending models the three requests of ClientDHTPrimitives.py with their retries;
-- its fuel is the limit on timeouts, and each round but the last adds one. Its bodies are read by a
-- parameter, which stands for Python's eval. Retries is about the attempts, Safe about the
-- configuration after a request.
--
-- Server models of flud/protocol/AiohttpServer.py the challenges and the authentication (Auth, with
-- Replay and Kept), and the requests of the DHT (Meta, with Stored and Requests): ID, nodes and
-- meta, where the key in the path is the name of a file. RSA, hashing, random numbers, base64 of a
-- header, and Python's int are parameters; the draws of a random challenge are a list, and its end
-- is the only limit that Python has not. A response is its status and what it says; headers are
-- left out, and so is the text of a key or a list of nodes.
--
-- Client models of flud/protocol/ClientPrimitives.py the answer to a server's challenge
-- (Challenge), the loop of a request with its retries and what is done with a response (Requests),
-- and the requests for an id and to store, retrieve, delete and verify a file (Files). What the
-- host answers is an argument; the client's private key, base64 of the header and the decoding of
-- a body are parameters. A request has at most five rounds, ended by timeouts, of at most five
-- requests each, one and then one for each answer to a challenge, so 25 are enough fuel. Rounds
-- and Bounds are about the loop, Safe about the configuration afterwards, and Handshake, with
-- Tokens, about the challenge, its answer and the server's check of it. Save is
-- _save_retrieve_response, whose files are a list of names with their bytes, under the target
-- directory that the names are joined to; the UTF-8 of the boundary and the decoding of a name are
-- parameters, and a file can always be written. Pieces, Multipart and Saved are about the pieces
-- of a body, and RoundTrip about a whole one. Aggregate is AggregateStore, where the times and the
-- lock are left out, a tarball is the list of its members and each file has a numbered waiter;
-- Waiters is about those who wait for a tarball, and Aggregated about its sending.
--
-- The rest of Server models the requests to store, retrieve, delete and verify a file. Files is
-- what they share: the directory of stored files, a dict from names to bytes; the reading and
-- writing of a tarball, which are parameters, and where a tarball can be read whole or not at all;
-- and the common beginning with the authentication. Store is _handle_file_post, whose form is
-- given by its fields, Retrieve is _handle_file_get, Multipart is _build_multipart, Delete is
-- _handle_file_delete, and Verify, with Probe, is _handle_hash_get, where the sizes of members,
-- the seek and read in one and the hash of bytes are parameters. The name in the path has no
-- separator where a file is opened, which only _handle_hash_get checks, and temporary files are
-- left out. Gate is about who may change or read what, Body and Parts about a multipart body,
-- Blocks, Removed and Verified about a block of its own file, and Loss about tarballs.
--
-- Tarball models verifyHashes and, in Removal, delete of flud/TarfileUtils.py over the list of a
-- tarball's members, as the library reads it; the hash is a parameter, and a member's name is
-- shorter than its field of the header. Named is about the names that verifyHashes returns.
--
-- Scheduler models checkFilesystem of flud/FludScheduler.py, the choice of the files to back up, on
-- a tree of files without links, which the walk goes down; Chosen is about the files that it
-- chooses.
--
-- Numbers of Python have no bound, and are natural numbers or integers here. Not modelled: the
-- graphical client, the process and event-loop glue, the wrappers of RSA, AES and erasure coding,
-- logging, the joining of tarballs, the file operations and the scheduler's loop.
pub mod Prelude
pub mod Routing
pub mod Fencode
pub mod BlockFile
pub mod Config
pub mod Lookup
pub mod Peers
pub mod Sending
pub mod Server
pub mod Client
pub mod Tarball
pub mod Scheduler
