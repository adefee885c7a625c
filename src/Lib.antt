-- ===== src/Lib.antt =====
-- A model of the Galene videoconference server, and proofs about it.
--
-- The server forwards RTP streams between the members of a group. A packet that comes in on a track
-- is stored in the track's packet cache (packetcache/packetcache.go), which also keeps the counters
-- for receiver reports and a bitmap of recent losses, and is written to every receiver. On its way
-- out it is renumbered by the receiver's packet map (packetmap/packetmap.go), since some layers of a
-- stream are discarded, and the map is read backwards when a receiver reports a loss.
--
-- Files:
-- - Base and the files below it: Go's words, slices and panics, and lemmas on bits and lists.
-- - Seqno: `compare` of both packet packages, on 16-bit sequence numbers.
-- - PacketMap: packetmap/packetmap.go. `Map.Map` is `map`, `Map.Reverse` is `reverse`, `Map.Drop` is
--   `drop`; the loops of `direct` and `Reverse` are `scan`, with the table's length as fuel, which
--   is enough since the loop goes round the table once. PacketMap.Bounds has the invariant,
--   PacketMap.Scan the loop, PacketMap.InOrder the stream in order, PacketMap.Lookup and
--   PacketMap.LongRun the way back.
-- - PacketCache: packetcache/packetcache.go. PacketCache.LossBitmap is the bitmap of losses,
--   PacketCache.Ring reads the array as a queue, PacketCache.Resize is about `resize`,
--   PacketCache.Retrieve about `GetAt`, PacketCache.Stats about the counters, and PacketCache.Nack
--   about `ToBitmap`.
-- - Estimator: estimator/estimator.go, the rate of a track, with the clock as an argument.
--   Estimator.Totals is about its counters.
-- - Jitter: jitter/jitter.go, the jitter of a track in units of 1/16; Jitter.Bounds is about its size.
-- - Unbounded: unbounded/unbounded.go, the channel that carries events to a client. Put is two steps,
--   one under the lock and one after it, and Unbounded.Wakeup is about any interleaving of them with
--   Get and with the reader of the channel.
-- - Description: group/description.go: the description of a group, the permissions of its users, and
--   `upgradeDescription`. Description.Admin has the calls that change users and descriptions in the
--   file; what each library call returns is an argument, and so is the format of an ETag.
-- - Tokens: the checks of token/stateful.go and token/jwt.go, for a token that has been parsed.
--   Tokens.Table: the table of token/stateful.go and its file. `load`, `list`, `add` and `rewrite` are
--   split where a library call may fail, and what each of these calls returns is an argument; so are
--   the format of an ETag and the sorting. Tokens.Table.Changes is about `Update`.
-- - Preconditions: webserver/precondition.go, the conditions of a request on the ETag of its object. The
--   loop of `etagMatch` has one more than the header's length as fuel, and each round shortens the
--   header; Preconditions.Missing is about this, and about an object that is not there.
-- - Access: group/client.go and `GetPermission` of group/group.go, with the hashes, `path.Clean` and the
--   library calls of a token's check as parameters. Access.Login is about who is let in.
-- - Group: group/group.go, with its chat history. Group.Members has `AddClient`, `DelClient`,
--   `SetLocked` and `autoLockKick`: the clock and the result of `GetPermission` are arguments, and the
--   calls that the group makes to its clients are a list of events. `join_group` is `AddClient` with
--   the `autoLockKick` of `Add`, taken as one step although `Add` releases the locks in between;
--   Group.Members.Autolock takes them apart. The other files below are about admission, ids, and what
--   clients are told; Group.History is about the chat history.
-- - Codecs: `RewritePacket` of codecs/codecs.go, which gives a packet the numbers that the packet map
--   chose; Codecs.Header is about the packet's header and the cases in which it returns. Codecs.Flags
--   has `PacketFlags`, Codecs.Keyframe has `Keyframe` and `KeyframeDimensions`; the parsers of pion/rtp
--   are parameters. The loops of `Keyframe` have as fuel one more than the payload's length (H.264,
--   where each unit takes two bytes or more), 4 (AV1, where the count of units has two bits) and 5 (the
--   bytes of a unit's length, of which there are 4 at most); Codecs.Keyframe.Total is about them.
-- - DownTrack: rtpconn/rtpconn.go, `rtpDownTrack.Write` and what it calls: the layers of a track, packed
--   in a word, the choice of layers by the bitrate, the packet map and the rewriting of the packet. The
--   clock is an argument, the codec is the one of the sender, and the network takes all the bytes.
--   DownTrack.Layers is about the layers, DownTrack.Forward about what is sent.
-- - UpTrack: `GetPacket` and `sendNACKs` of rtpconn/rtpconn.go and `nackWriter` of rtpconn/rtpwriter.go:
--   the packets that receivers miss and that the sender is asked for. At most 240 pairs go into one
--   NACK, which is the fuel of the loop of `sendNACKs`. `nackWriter` is two steps, one under the lock
--   and one after it. UpTrack.Nacks is about what is asked for, UpTrack.Writers about any order of
--   these steps.
-- - Feedback: `rtcpDownListener` of rtpconn/rtpconn.go on the packets that the library has parsed, with
--   `updateRate`, `handleReport` and `gotNACK`, which reads the packet map backwards, fetches the packet
--   by `get_packet` of UpTrack, and sends it by `write` of DownTrack. Feedback.Rates is about one
--   report, Feedback.Limits about all packets of a round, Feedback.Keyframes about the requests for a
--   keyframe.
-- - WebClient: rtpconn/webclient.go, a client on a websocket. `handle_client_message` is
--   `handleClientMessage` and `handle_action` is `handleAction`; each takes an `Environment`, which
--   holds what the group, the table of tokens and the peer connections answer, and gives the new
--   client, the list of the calls that it makes, and the error that ends the client. The values of a
--   message are those of Base.Json. WebClient.Connections has the up and down connections,
--   WebClient.Signalling the offers and answers, WebClient.Messages the messages, and
--   WebClient.Actions the actions; the files below them are about the tracks that are forwarded, the
--   postponed offers, the permissions that a call takes, what is still queued for a client that
--   has left its group, and the last operator of a group that loses its privileges.
--
-- A Go integer of w bits is a native number with its wrap-around written out; a method is a function
-- from the state to the new state and its results, and `none` stands for a panic. A mutex makes each
-- method one step, so calls from several goroutines are sequences of such steps; where a method goes
-- on after it has released the lock, as `Put` and `DelClient` do, `Put` is two steps, and the second
-- part of `DelClient` is taken to follow the first at once, except in Group.Members.Autolock, where
-- other steps come in between.
--
-- Not modelled: the parsing of descriptions and tokens; the goroutines that read and write the
-- websocket; the loops that read packets and hand them to the writers, and the sender and receiver
-- reports; the client of WHIP, the web server and the recording to disk. Below these parts, the
-- network (pion/webrtc), HTTP, files and logging are not modelled either.
pub mod Base
pub mod Seqno
pub mod PacketMap
pub mod PacketCache
pub mod Estimator
pub mod Jitter
pub mod Unbounded
pub mod Description
pub mod Tokens
pub mod WebClient
pub mod UpTrack
pub mod Feedback
pub mod Preconditions
pub mod Access
pub mod Group
pub mod Codecs
pub mod DownTrack
