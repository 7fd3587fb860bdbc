-- ===== src/Lib.antt =====
-- A verification library for sflowd, an sFlow version 5 agent in C: sources of samples, the packing
-- of samples into datagrams, and the sender that buffers samples and sends the datagrams.
--
-- How the parts interact: an interrupt source gives a packet, a polling source its counters; the
-- leaf functions make a sample of it (sflow/sflow_protocol_leaf_*.c) through the packing functions
-- (sflow/sflow_protocol_branches.c), which collect records in counted lists
-- (sflow/sflow_data_list.c). sflow_append_sample_to_send (sflow/sflow_sender.c) buffers the
-- sample; when the next one would go over the MTU, or when the alarm goes off, the buffer is
-- packed into a datagram, flattened and sent.
--
-- Common: lists over native numbers, bits, integers, and `Outcome`, the result of a C function or
--   the fault that ends it (a failed assertion or undefined behaviour).
-- Memory: byte order, C structures as lists of fields, and the buffer with checked `memcpy`.
-- Util: sflow/sflow_util.c: htonH; itoa, on n + 1 rounds, since each round divides the number by
--   ten; the kernel's statistics (Kstat); the reading of an address (Mac); the time since the boot
--   and the size of the memory (Machine), whose loop takes its rounds from the file's size.
-- ExpandingArray: sflow/expanding_array.c. The loop that doubles the capacity runs on fuel 31,
--   since a capacity below 2 ^ 31 cannot be doubled more often.
-- DataList: sflow/sflow_data_list.c; `append`, `read` and `free` are the functions
--   sflow_data_list_append, _read and _free.
-- Source: sflow/sflow_source.h and sflow/sflow_source.c. Text has remove_space, whose rounds are
--   the string's length, and sflow_find_attribute; Registry the watched descriptors and the list
--   of sources; Pipeline, Add and Registry the three stages of adding a source; Remove the
--   removal; Show the reply of sflow_show_src.
-- Door: the handler of sflow/sflow_door.c, which calls Source.
-- Protocol: the word macros (Format), the counter structures (Leaves, Counter), and
--   sflow/sflow_protocol_branches.c, a module for each structure: X_pack is sflow_X_pack and
--   X_flat is sflow_X_flat. Bytes says what a structure puts on the wire, Pack that packing makes
--   a structure for which that is so. The loops take their rounds from the count, as the code does.
-- Leaf: get_sample_X of sflow/sflow_protocol_leaf_X.c: Flowsample, Ifgeneric, Hostphy and Hostv,
--   the last two with a module for each group of pack functions, over what the system tells
--   (System) and the records that they attach (Records). Fit says which samples a packet has room
--   for. The loops over processors, links, processes and swap devices take their rounds from the
--   numbers or the lists that the system gives.
-- Sender: sflow/sflow_sender.c and the alarm handler of sflow/sflow_driver.c; Run has the threads.
-- Driver: sflow/sflow_driver.c: a packet of the interrupt thread and its round over the
--   descriptors (Interrupts), and the thread of a polling source (Poll); both call Leaf for a sample
--   and Sender to buffer it.
-- Examples: concrete inputs.
--
-- Structures are those of an LP64 machine; both byte orders are covered. A pointer is an address,
-- a union or an untyped pointer is read as what was stored, or is a fault. What the kernel, the
-- link, zone and swap libraries, the clock and rand tell is a parameter, and so is what a word reads
-- as behind `free`. The int product of a count and a rate wraps. Not modelled: what else `free`
-- releases, logging, the socket, signal and thread libraries, the lock of the zones' cache, the
-- flow statistics, whose file is not in the repository, sfadm, and the configuration, which nothing
-- calls.
pub mod Common
pub mod DataList
pub mod Door
pub mod Driver
pub mod Examples
pub mod ExpandingArray
pub mod Leaf
pub mod Memory
pub mod Protocol
pub mod Sender
pub mod Source
pub mod Util
