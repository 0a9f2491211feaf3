-- ===== src/Lib.antt =====
-- bpipe, a C library for telemetry pipelines: filters run in threads of their own and hand batches
-- of samples on through ring buffers; a pipeline is a graph of filters.
--
-- The parts, their files, and the code that they model:
--   Err       bpipe/bperr.h: the error codes
--   Ring      bpipe/batch_buffer.h: configuration, batches, the buffer and its index functions
--   Buffer    bpipe/batch_buffer.c: bb_await_notfull and bb_await_notempty, bb_get_tail,
--             bb_del_tail, bb_submit; Buffer/Setup: bb_init, bb_deinit, bb_start, bb_stop,
--             bb_force_return_head, bb_force_return_tail; Buffer/Queue is the abstract queue;
--             Buffer/Spsc: a producer and a consumer thread whose accesses interleave
--   Property  bpipe/properties.h and bpipe/properties.c: property tables, validation of a
--             connection, propagation through a filter; Property/Rate: sample rates
--   Filter    bpipe/core.h and bpipe/core.c: the base filter with its sinks, filt_start, filt_stop;
--             Filter/Lifecycle: filt_init and filt_deinit; Filter/Connect: filt_connect;
--             Filter/Align and Filter/Contract: the functions of bpipe/properties.c that read or
--             write a filter; Filter/Sinks: the default sink_connect; Filter/Ops: the other
--             operations with their defaults; Filter/Kind: what the initialisations of the kinds
--             share
--   Pipeline  bpipe/pipeline.h and bpipe/pipeline.c: the graph and, in Pipeline/Sort, its
--             topological sort (topological_sort_visit, topological_sort); Pipeline/Validate:
--             pipeline_validate_properties; Pipeline/Setup: pipeline_init; Pipeline/Lifecycle:
--             pipeline_start, pipeline_stop, pipeline_sink_connect, pipeline_deinit
--   Matcher   bpipe/batch_matcher.h and bpipe/batch_matcher.c: batch_matcher_worker; in
--             Matcher/Control: start, stop and deinit; Matcher/Setup: batch_matcher_init
--   Aligner   bpipe/sample_aligner.h and bpipe/sample_aligner.c: sample_aligner_start and
--             sample_aligner_worker; Aligner/Setup: sample_aligner_init, sample_aligner_deinit
--   MapFilter bpipe/map.h and bpipe/map.c: map_worker; MapFilter/Setup: map_init, map_flush
--   Tee       bpipe/tee.h and bpipe/tee.c: tee_worker; Tee/Setup: tee_init
--   Passthrough bpipe/passthrough.c: passthrough_worker, passthrough_validate_connection,
--             passthrough_init; and matched_passthroug of bpipe/core.c, the worker of the same kind
--   CsvSource bpipe/csv_source.h and bpipe/csv_source.c: csvsource_worker with its helpers;
--             CsvSource/Text: parse_header and parse_line; CsvSource/Setup: csvsource_init and
--             csvsource_destroy
--   Generator bpipe/signal_generator.h and bpipe/signal_generator.c: signal_generator_worker and
--             signal_generator_init
--   Batches   copies between batches, and what the reader of a batch sees
--   Base      what the other modules share: tests, lists, machine words
--
-- A function of the source is a function of the same name without its prefix (bb_submit is
-- Buffer.submit); a pointer argument that is written to is a state that is passed and returned,
-- together with the returned code. A `size_t` wraps at 2^64 where the code can wrap. A filter of a
-- pipeline and a buffer of a filter are numbers in place of pointers, 0 for NULL. A value of a
-- property is the number in the eight bytes of its union, on a little-endian machine. What the C
-- library and the threads library answer are arguments (Alloc, Wake, `created`, `joined`).
--
-- Waiting: a call that waits takes the list of its wake-ups, each with the return code of the
-- condition variable and what other threads have made of the buffer; with no wake-up left it is
-- still waiting. The calls that end a wait (bb_stop, bb_force_return_head, bb_force_return_tail,
-- bb_deinit) give the conditions that they signal, and wake a waiting thread by these only; that
-- bb_submit and bb_del_tail signal as well is left out, and so are the mutexes and weak memory. The
-- recursion of the sort
-- has fuel, one more than there are filters, which is enough because each level of it marks another
-- filter. Capacity exponents are below 32 where a capacity is computed in 32 bits.
--
-- Threads: Buffer/Spsc runs the accesses of two threads to the indices of one buffer in the order
-- of a list of events, taken as sequentially consistent; OVERFLOW_DROP_TAIL, where the producer
-- moves the tail as well, is left out there.
--
-- The batch matcher: its worker is run on a list of what bb_get_tail hands to it. The loop over the
-- samples of a batch has a number of rounds, those for which it finds `running` set; one for each
-- sample is enough where the input starts on a batch boundary. The search for the first boundary
-- has fuel, one more than there are batch periods before the first sample. What the head slot of
-- the sink held before is an argument (slot), and the batches passed to bb_submit are a list, since
-- the worker ignores what bb_submit returns.
--
-- The sample aligner: its worker is run on a list of what bb_get_tail hands to it, each batch with
-- the result of the bb_submit of what becomes of it. A pipeline is started and stopped with the
-- operations of its filters as an argument, which act on their own filter and on the buffers.
--
-- The map filter: the function that it applies is an argument on lists of samples. Its loop has a
-- number of rounds, those for which it finds `running` set; one for each fetch and each sample is
-- enough.
--
-- The passthrough filter: its worker is run on a list of what bb_get_tail hands to it, each batch
-- with the result of the bb_submit of what becomes of it, as that of the sample aligner.
--
-- The CSV source: a text is a list of characters. The worker is run on the list of what fgets
-- answers while `running` is set (a line, the end of the file, or a failure), one for each round of
-- its loop; a line says whether the file is at its end, whether memory for its copy is
-- granted, and what the uninitialised time variable held. What strtoull and strtod read in a field,
-- the conversion of a number to the type of a sink, and the head slots of the sinks are arguments.
-- A double is a number that stands for its bits. The period of a batch is cut to the 32 bits of
-- `period_ns`, here and in the signal generator.
--
-- The signal generator: its worker is run on the list of results of bb_submit, one for each round
-- in which it finds `running` set; one for each sample wanted is enough. The value of a waveform at
-- a time, which is computed in floating point, is an argument.
--
-- Not modelled: the CSV sink, the debug output filter, the example functions of the map filter, the
-- texts of errors and descriptions, printing.
pub mod Base
pub mod Err
pub mod Ring
pub mod Batches
pub mod Buffer
pub mod Property
pub mod Filter
pub mod Pipeline
pub mod Matcher
pub mod Aligner
pub mod MapFilter
pub mod Tee
pub mod Passthrough
pub mod CsvSource
pub mod Generator
