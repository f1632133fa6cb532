-- ===== src/Lib.antt =====
-- A model of the channel service bot in C under Sources/, and proofs about it.
--
-- The bot is one process around a select() loop: lines from the IRC server come in through
-- buffers, the dispatcher calls a handler for each, commands of users are split into words, and
-- handlers read and write tables of users, channels, bans and ignores, and send lines back. What
-- has to be done later waits in a list of timed events.
--
-- How C becomes definitions: a function that changes state takes the World and returns it, with
-- what it sends in `out`, in order. A C string is the list of its bytes before the terminating
-- zero. Buffers that a caller declares are as long as the text that they get, save where a
-- definition cuts the text, as GetWord does at 75 bytes and AddBan at 79. Numbers are natural
-- numbers where the code keeps none below zero (times, levels, counters); a result of -1 is
-- `none`. Where the code follows a NULL pointer or reads what it has not set, `crashed` is set, or
-- the result is `none`. sprintf's arguments are joined by `++`. The accounting of TTLALLOCMEM, the
-- lines under DEBUG, and FAKE_UWORLD, NICKSERV, CHANNEL_LOG and DOHTTP, which config.h.dist leaves
-- out, are not modelled.
--
-- Files:
--   Prelude         names of the libraries, tests, lists by native numbers, C strings
--   Match/Case      Sources/match.c: mycasecmp, mystrcasestr, key_match
--   Match/Possible  Sources/match.c: xmatch, matchX; Hits says what a pattern means, Sound and
--                   Complete prove the two directions
--   Match/Mask      Sources/match.c: match; Meaning says what a mask means, Correct proves it
--   Match/Hostmask  Sources/match.c: compare; Parts has its law on whole masks, Fuel its bound
--   Buffer          Sources/buffer.c; Contents says what a chain holds, Writing, Reading and
--                   Looking have the laws of the operations
--   Event           Sources/events.c: InitEvent, AddEvent (Order); Event/Check has CheckEvent, over
--                   the record Handlers of the calls into other parts
--   Calls           Sources/events.c: the calls of CheckEvent as functions of the world
--   Words           Sources/main.c: ToWord, GetWord, GetnWord; Laws
--   World           Sources/struct.h and the lists of Sources/ignore.c as one record; Text has
--                   notice, servnotice and PutLog of Sources/main.c, Lookup the hashes and lookups
--                   of Sources/users.c, Sources/channels.c and Sources/userlist.c and broadcast of
--                   Sources/main.c, Channels the laws of ToChannel
--   Modes           Sources/modes.c: AddBan, RemBan (Bans), changemode (Queue), flushmode (Lines,
--                   Room, Flush); Flags has setchanmode, AddFlag, RemFlag and IsSet, and Meaning the
--                   list of modes that their text stands for
--   ModeChange      Sources/modes.c: ModeChange, bounce, clearmode and onclearmode; Opping has onop
--                   and ondeop, Fuel the bound of the loop, Victims the history of deops
--   Bans            Sources/bans.c: Masks has MakeBanMask, Commands has ban, mban, unban and
--                   showbanlist, Fuel the bound of their loops, Hits the masks made
--   Ignore          Sources/ignore.c: the list; Floods has the three checks that fill it, Expiry
--                   what is taken off
--   Kicks           Sources/kicks.c; Refused
--   ShitList        Sources/shitlist.c: Table has sl_hash, IsShit and CleanShitList, Commands has
--                   AddToShitList and RemShitList, Entries their law
--   Suspend         Sources/userlist.c: suspend and unsuspend; Bounds says whom they answer
--   Floodpro        Sources/floodpro.c; Window says when it acts
--   Ops             Sources/ops.c: op, deop and massdeop (Services)
--   Settings        Sources/channels.c: SetChanFlag; Denied says who changes nothing
--   Servers         Sources/servers.c: the tree of servers, onserver and showserv; Tree says what
--                   ToServer finds
--   Membership      Sources/channels.c: JoinUser and onjoin, and try_find of Sources/userlist.c;
--                   Creating has NewChannel, Topics topic, Leaving DelChannel, part, onpart and
--                   onkick, Bursting onburst with StringSize of Sources/main.c, Entering join,
--                   invite and GetOps. Lookups, Consistent, Names, Opening and Linking are about
--                   the steps that link and unlink users and channels, Steps about their runs;
--                   Runs, Joins and Bursts make runs of onpart, onjoin and onburst
--   Nicks           Sources/users.c: onaccount and the nick changes of onnick
--   Numerics        Sources/servers.c: inttobase64 (Digits)
--   Samples         tests, and each theorem at a concrete input
--
-- Hash tables are functions from the hash to a bucket. A pointer that a lookup returns and that the
-- caller writes through is `set_channel`, which changes the first node that the lookup finds, and
-- `set_user`, `set_user_nick` and `set_luser` likewise. An `auser` holds a copy of the user that its
-- pointer leads to, so that `set_luser` also writes to the copies; an `achannelnode` holds the name of
-- its channel. The
-- counts and flags that the C code keeps beside a list, such as `count` in flushmode, are computed
-- from it.
--
-- Fuel: xmatch is given the sum of the lengths of its patterns, since each nested call leaves a star
-- behind. match is given the product of the lengths of text and mask, since each of its stars is
-- taken back at most once for each byte of the text. CheckEvent is given the number of events, of
-- which each round takes off one. ban and unban are given the length of the list of words. The loop
-- of unban over the bans is given their number, of which each round removes one, and compare the
-- length of its first mask, of which each round uses up a separator. The loop of ModeChange is given
-- the length of the text, of which each round takes off a byte; op and deop the length of the list of
-- words, and `join 0` the number of channels of the user, of which each round leaves one.
--
-- Parameters: whether stat finds the file of a channel is an argument of join. The calls that
-- CheckEvent makes into other parts are fields of Handlers; Calls fills them with the functions
-- that are modelled, and takes those that write files, SaveShitList, SaveDefs and
-- CheckIdleChannels, as an argument. The C library is modelled where it is used: strcasecmp,
-- toupper and isdigit in the C locale, strtok, sscanf for "%d.%d.%d.%d", and atoi where the number
-- fits an int.
--
-- The multiplication of a duration in suspend wraps around at 32 bits. The answer of the database to
-- suspend is not modelled, only the query; the counters inuse, lastseen and modified of a RegUser and
-- lastact of an auser are left out.
--
-- The buffers newmode[15] of AddFlag and RemFlag, setflags[20] of IsSet and flags[20] of flushmode are
-- modelled: `crashed` is set where the code runs past them. The texts that match copies into
-- tmpstring[200] and tmpmask[200] are shorter than these, and the arguments of the modes of a burst
-- fit modestring[50].
--
-- A server has a name of less than 80 bytes, and its link `up` is its place in the tree.
--
-- Not modelled: string_swap and regex_cmp of Sources/match.c; ShowShitList and the file of
-- Sources/shitlist.c; the idle test and the reports of Sources/channels.c; onsquit and showmap of
-- Sources/servers.c; new users and onquit of Sources/users.c; the
-- access lists of Sources/userlist.c; the other commands; sockets, files, signals, the web server and
-- the tools.
pub mod Prelude
pub mod Match
pub mod Buffer
pub mod Calls
pub mod Event
pub mod Words
pub mod World
pub mod Modes
pub mod Bans
pub mod Ignore
pub mod Kicks
pub mod Suspend
pub mod Floodpro
pub mod Ops
pub mod ModeChange
pub mod Membership
pub mod Servers
pub mod Settings
pub mod Nicks
pub mod Numerics
pub mod ShitList
mod Samples
