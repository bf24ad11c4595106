-- ===== src/Lib.antt =====
-- nsq: a message queue. A topic of nsqd appends messages to a disk queue; each of its channels reads
-- them, sends them to clients, and confirms what was finished. This library models the parts of the
-- daemon in nsqd/ on which delivery rests, of the lookup daemon, of
-- the placement of topics in a cluster, and two helpers.
--
-- Base: names and lemmas that the modules share; Base.Bytes reads and writes big-endian words in
--   byte slices, where a read out of range is `panic`; Base.Map is a Go map with integer keys, Base.Dict
--   one with string keys, Base.Members membership in a list.
-- Message: nsqd/message.go. `write_to`, `write_to_client` and `write_delayed_to` (WriteTo,
--   WriteToClient, WriteDelayedTo) write a message to an io.Writer, which is a parameter with the
--   contract that Go documents (Message.Writer); `decode_message` and `decode_delayed_message`
--   (decodeMessage, DecodeDelayedMessage) read it back. A byte is a number, and a field of w bits is
--   a number below 2 ^ w; a uint16 sum wraps where the source adds in that type.
-- Intervals: IntervalHash in nsqd/segment_tree.go, the record of messages that were finished out of
--   order: `add_or_merge`, `delete_lower`, `delete_interval`, `delete_range` and the queries.
-- InFlightQueue: nsqd/in_flight_pqueue.go, the heap of messages in flight by their time-out. Messages
--   are pointers; `pri` is a parameter and `index` a map that the operations write. `none` is a panic.
-- Channel: nsqd/channel.go. Channel.Confirm is ConfirmBackendQueue, a client of Intervals and of the
--   disk queue reader. The reader is the interface Channel.Backend, taken from
--   nsqd/backend_queue.go: a confirmation moves the confirmed offset, or fails and leaves it.
--   Channel.Confirmed has IsConfirmed and UpdateConfirmedInterval.
-- Channel.Flight: the messages in flight. A message is a pointer and `cells` holds its fields.
--   `start_in_flight_timeout`, `touch_message`, `requeue_message`, `internal_finish_message` and
--   `process_in_flight_queue` are the functions of these names.
--   TouchMessage, RequeueMessage and FinishMessage hold inFlightMutex while they work;
--   StartInFlightTimeout sets the message's fields before it takes it, and both together are one
--   operation here. processInFlightQueue takes it anew in each turn of its loop: a turn,
--   `timeout_step`, and its scan, `requeue_waiting`, are the steps in Flight.Reach, the step relation on
--   these operations, while `process_in_flight_queue` is the loop with nothing between its turns.
--   They use InFlightQueue with the times in `cells`, and finishing a message calls
--   `confirm_backend_queue`. deferredCount is an int64 and is
--   modelled by its bit pattern. Time is an argument, as is what GetChannelWaitingConfirmCnt returns.
--
-- DiskQueue: the positions of the disk queue's reader, in nsqd/diskqueue_reader.go. DiskQueue.Step is
--   stepOffset, with the sizes of the files as a parameter; DiskQueue.Confirm is ConfirmRead, with
--   internalConfirm and updateDepth; DiskQueue.Skip has
--   internalSkipTo, the resets and skips and skipToNextFile, with what the meta files hold as a
--   parameter; DiskQueue.Ending is UpdateQueueEnd; DiskQueue.Read is readOne, with the lengths in the
--   files as a parameter; DiskQueue.Reach has these operations as steps in any order;
--   DiskQueue.Writer is the writer, in
--   nsqd/diskqueue_writer.go, with the data files and their bytes in its state and the outcome of each
--   call of the file system as an argument. The bytes in bufferWriter stand at the end of the current
--   file and are counted, and `on_disk` is what the file system has; a write or a flush that fails loses
--   bytes of the buffer. It has PutV2, PutRawV2, RollbackWriteV2 and ResetWriteEndV2, and in
--   Writer.Clean the removal of files, and FlushBuffer; Writer.Log reads the files as one log of bytes, and
--   Writer.ReadBack puts the writer and the reader together;
--   DiskQueue.Fills makes the reader an instance of Channel.Backend.
--
-- Registration: nsqlookupd/registration_db.go, what nsqlookupd knows of topics, channels and nodes.
--   Registration.Channels and Registration.Producers have the registrations on a topic,
--   Registration.Peers the nodes and the filters; Registration.Reach has the operations as steps. A
--   string is a native text, and strconv.Atoi and strings.Contains are written out on its characters.
--
-- Placement: consistence/data_placement_mgr.go, the cluster's choices that need no communication.
--   `rebalanced` is getRebalancedOrderedTopicPartitions; `alloc_node_for_ordered_topic`,
--   `decide_unwanted_isr_node` and `choose_new_leader_from_isr` are the functions of these names. Of
--   the current nodes only the names are used. What a node answers, its load and the
--   id of its last commit log, is a parameter, `none` for an error; a log id is a natural number.
--   Placement.Leader is about the new leader, with the search in Leader.Search; Placement.Fair is
--   about the partitions' nodes, Placement.Change about the node that joins or leaves.
--
-- CommitLog: consistence/commitlog.go, the positions in a topic's commit log: ConvertToCountIndex and
--   ConvertToOffsetIndex, with the sizes of the segments' files as a parameter. CommitLog.Append is
--   AppendCommitLog, with flushCommitLogsNoLock: a file is the list of its entries, what the file system
--   does is an argument, and a write is done or refused as a whole.
--
-- Protocol: ByteToBase10 in internal/protocol/byte_base10.go.
--
-- Stringy: internal/stringy/slice.go, on any type with a test for equality.
--
-- Bounds and fuel: the loops `up` and `down` of the heap run on fuel, the index + 1 and the length + 1,
-- the loop of processInFlightQueue on the number of messages + 1, and that of stepOffset on the number
-- of files from the start to the limit. That is enough: an index of the heap is halved or passes to a
-- child, a message that timed out leaves the heap, and a step of stepOffset goes to the next file.
-- Offsets, counts and times are natural numbers: the source's are int64 and stay far below
-- 2 ^ 63. A loop over a Go map takes its entries in the order of the model's list.
--
-- Not modelled: file and network I/O, logging, tracing and statistics, locks (each operation is one
-- step, but for the turns of processInFlightQueue), the clients' own counters, the files in which reader and writer keep their own positions, the rest of the cluster
-- coordination in consistence/, the rest of nsqlookupd, the servers, tools and the administration UI.
pub mod Base
pub mod Message
pub mod Intervals
pub mod InFlightQueue
pub mod Channel
pub mod CommitLog
pub mod DiskQueue
pub mod Placement
pub mod Protocol
pub mod Registration
pub mod Stringy
