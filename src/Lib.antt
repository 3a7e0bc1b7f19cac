-- ===== src/Lib.antt =====
-- mqtt-viewer: a desktop MQTT client without its drawing. The client around libmosquitto, which may
-- dial through an SSH tunnel, runs callbacks on a network thread, which hands received messages to
-- the render thread through a queue; the render thread puts them into a history, indexes their topics
-- in a tree, logs connection events, charts numbers of the payloads, shows a payload formatted, as a
-- diff or as a hex dump, and exports the history as CSV.
--
--   MessageBuf     src/model/message_buf.c: the history, a ring of records that own their payloads
--   SpscQueue      src/model/spsc_queue.c: the queue, called in turn; Threads: under two threads
--   Subscription   src/model/subscription.c: topic filters; Levels: MQTT 3.1.1 section 4.7
--   ConnectionLog  src/model/connection_log.c: the ring of connection events
--   CsvExport      src/model/csv_export.c: RFC 4180 rows of a topic subtree
--   Version        src/model/version.c: release versions
--   Util           src/model/util.c: bounded copies and payload previews
--   TopicTree      src/model/topic_tree.c: the index of topics, its counts and payloads
--   JsonPp         src/model/json_pp.c: the JSON formatter; Unescape, Format
--   TextEdit       src/ui/text_edit.c: one frame's edit of a text field; Format: its display
--   MqttClient     src/core/mqtt_client.c: the client around libmosquitto; Callbacks of its network
--                  thread, Connect, Session
--   SshTunnel      src/core/ssh_tunnel.c: the ssh process that forwards the broker's port
--   CborPp         src/model/cbor_pp.c: CBOR payloads as lines of the JSON formatter; Scalar, Item
--   MainLoop       src/main.c: a round of the main loop; Received: the drain, Requests
--   Db             src/platform/db.c: the flush of the history into the database, and the JSON
--                  text of a topic
--   JsonDiff       src/ui/inspector_widget.c: the line diff of two JSON payloads; Common: the longest
--                  common subsequence, Table, Script; View: what the diff view shows
--   HexDump        src/ui/inspector_widget.c: the hex dump; Lines, Dump
--   ChartSeries    src/model/chart_series.c: the samples of a chart; Append, Push, Extremes
--   ChartPanel     src/ui/chart_panel.c: the grid of the charts, and the capture of samples
--   ArenaAlloc     src/model/arena_alloc.c: blocks cut from growing chunks; Runs, Reset
--   PoolAlloc      src/model/pool_alloc.c: blocks of one size, cut from slabs
--   Base, Ring, Decimal  lists, bytes, ring arithmetic and "%u", shared by the modules above
--   Tests          concrete runs
--
-- State is passed explicitly: an operation takes its struct as a record and returns the new one,
-- beside what the C function returns. Arrays are lists, a heap block is named by a number, and a
-- function that frees blocks returns their numbers. `uint32_t` and `uint64_t` sums wrap (`add32`,
-- `add64`). A C string is given by its bytes without the NUL. Loops recurse on the rounds left or on
-- the text; walks to the root of the topic tree take as many rounds as the node has predecessors,
-- which is enough since a parent is made before its children. The JSON formatter's loops take as
-- many rounds as bytes are left, and its calls nest 65 times at most, one more than the depth it allows.
-- The diff's loops recurse on the numbers of lines, 256 each at most; the hex dump takes a round for
-- each line of 16 bytes, and the eviction of samples a round for each sample.
-- A flush takes as many rounds as messages are missing. The CBOR decoder refuses a container at depth
-- 63, so that its calls nest 64 times. What libmosquitto, `malloc`, the system and the floating point
-- numbers answer is a parameter, and the calls of libmosquitto, of the database and on the
-- tunnel's process are recorded in order. The two threads of the queue interleave step by step; memory
-- orders are not represented.
--
-- Not modelled: what SQLite, libmosquitto and ssh do inside, drawing, fonts, dialogs and the widgets of
-- the tree, the log, the profiles and the publishing, the clock and the calendar. `malloc` does not
-- fail where `alloc_check` ends the program; where the source goes on without the block, in `on_message`
-- and `ssh_tunnel_start`, the model does too.
pub mod Base
pub mod Ring
pub mod Decimal
pub mod MessageBuf
pub mod Util
pub mod SpscQueue
pub mod Subscription
pub mod ConnectionLog
pub mod Version
pub mod CsvExport
pub mod TopicTree
pub mod ArenaAlloc
pub mod ChartPanel
pub mod ChartSeries
pub mod HexDump
pub mod JsonDiff
pub mod JsonPp
pub mod TextEdit
pub mod PoolAlloc
pub mod SshTunnel
pub mod MqttClient
pub mod CborPp
pub mod Db
pub mod MainLoop
pub mod Tests
