-- ===== src/Lib.antt =====
-- nstl: models of a C++ utility library, and theorems about them.
--
-- Paths are from the repository's root. Each file models the code that its first comment names, with
-- the functions' own names; C++ operators and constructors have a name of their own below.
--
--   Prelude      Tests on native numbers, list operations, and the results of code that throws: a
--                throw is `err` with the exception's class (nstl/nstl/exception.hpp). The message is
--                not modelled.
--   Net.Address  nstl/nstl/ip_tools.hpp: and_arrays, create_mask, ip_range_base (`range_of_bits` is
--                its constructor from a prefix length, `zero_range` the one without arguments) and
--                contains. An address is the list of its bytes; the template's ip_size is an argument.
--   Net.Inet     What nstl/nstl/ip_tools.cpp calls of the C library: inet_pton and inet_ntop are a
--                parameter, and their documented behaviour is the record InetLaws.
--   Net.Parse    ip_tools.cpp: parse_mask, parse_ip_address, parse_ip_range. `from_chars_u8` is
--                std::from_chars of an std::uint8_t; `range_at` and `range_behind` are the parts of
--                parse_ip_range behind the slash.
--   Net.Print    ip_tools.cpp: the stream operators (`print_address`, `print_range`), the to_string
--                functions and is_ipv4.
--   Net.Order    ip_tools: the comparisons of ranges, ip_range_less and the lists of ranges.
--   Net.Svcb     nstl/nstl/dns_tools_posix.cpp: resolve_params, which cuts the parameters of SVCB
--                records out of the message's bytes, with a loop function per inner loop.
--   Net.Records  dns_tools_posix.cpp: what DnsClient makes of one record of each type (`mx_item`,
--                `c_name_item`, `srv_item`, `svcb_item`, `txt_item`), the loop over the records
--                (`collect`) and the queries with a growing buffer (`query_loop`). It calls Net.Svcb.
--                res_nquery, ns_parserr and dn_expand are arguments.
--   Net.Records.Print  nstl/nstl/dns_tools.cpp: param_visitor and the stream operator of gen_svcb
--                (`print_svcb`) over the text and the failbit of a stream with default formatting. A
--                std::uint16_t has five digits at most, which is the fuel of `decimal`.
--   Net.Lookup   nstl/nstl/dns_tools.cpp: stack_name, canonical_name and ips_name over getaddrinfo,
--                which is an argument.
--   Net.Client   dns_tools_posix.cpp: `process_item` runs the queries and parses the answer; mx_name,
--                txt_name, c_name, srv_name and svcb_name hand its records to the handlers of
--                Net.Records. They take the name through stack_name of Net.Lookup.
--   Vector       nstl/nstl/vector.hpp: the elements and the capacity; realloc is a parameter. An
--                iterator is an offset from the buffer's start, or stands before it.
--   Text         nstl/nstl/string.hpp, nstl/nstl/safe_basename.hpp and nstl/nstl/parse.hpp; characters
--                are byte values and the character classes those of the C locale.
--   Args         nstl/nstl/args_editor.cpp with the comparisons of nstl/nstl/secure_string.hpp.
--   Csv          nstl/nstl/csv_dict_reader.cpp: csv_dict_reader over the bytes of its stream
--                (`open_reader` is the constructor, `get_field_in` the get_field of a given mapping),
--                and write_field and write_row. Boost's flat map and tokenizer are arguments.
--   Csv.Data     csv_dict_reader.cpp: get_data, whose overload without a target is `get_data_new`, and
--                parse_csv_line, which returns what its callback gets. The flat map of the values is an
--                argument, as is the order in which the map of the columns runs.
--   Log          nstl/nstl/logging.cpp: the levels; nstl/nstl/logger.cpp: log_stack and Logger over
--                the process's state (`construct` and `reset_logger`; `push_log` and `erase_log` are
--                log_stack's push_back and erase). An `Event` of Log.Refine is a Logger's construction
--                or its reset; the specification there is the list of the loggers that live.
--   Log.Sink     logger.cpp: OstreamLog; `work` is a round of its thread, which stop joins, and
--                `push_line` and `stop_log` are push and stop. oneTBB's queue is an argument, whose size
--                counts a thread that waits in pop as one item less.
--   Hash         nstl/nstl/datahash.cpp: hash types and their names, hash_to_hex and hash_file over the
--                reads of a file. The digests and the reads are arguments.
--   DeadLock     nstl/nstl/dead_lock_detect.cpp: DeadLockChecker; what the clock says of its items is
--                an argument.
--   Env          nstl/nstl/env_var_raii.cpp: env_var_raii, whose constructor and destructor are `set_up`
--                and `tear_down`, and get_env_var. The C library's environment is an argument.
--   Temp         nstl/nstl/temp_dir.cpp: random_file_name, temp_dir (`make_dir`, `drop_dir`) and
--                temp_file: `make_file`, `drop_file`, `move_file`, `assign_file` and `swap_files` are its
--                constructor, destructor, moves and swap. The file system and the random numbers are
--                arguments. The handle is that of nstl/nstl/handle_raii.hpp.
--   Signal       nstl/nstl/signal_barrier_common.cpp: SigVal and its conversions.
--   Signal.Wait  nstl/nstl/signal_barrier_linux.cpp: read_signal and read_timer over the answers of the
--                reads, and wait and wait_for over those of epoll_wait; a list that ends is a file where
--                nothing more is pending, or a wait that does not end.
--   Signal.Handlers  nstl/nstl/signal_barrier.cpp: the barrier of other systems over the handlers of the
--                process (`construct_barrier`, `destroy_barrier`), and the polls of wait and wait_for.
--   Trigger      nstl/nstl/file_trigger_linux.cpp: `start_trigger` is the constructor, `worker_loop` the
--                loop of the thread over the answers of epoll_wait, `worker_events` its loop over the
--                events of one round, and factory_file, factory_handle and stop_trigger are the
--                factories and stop. The answers of the reads are lists.
--   Http         nstl/nstl/http_client.cpp: Client. `set_all` is a chain of curl_easy_setopt with
--                NSTL_CURL_CHECK, `transfer` what get and post share (`get_url`, `post_url`), `assign`
--                the moves. libcurl is an argument: its handle, the calls that it makes of the source's
--                callbacks in a transfer, and its encoder. The
--                percent-encoding of RFC 3986 is described in Http.Percent.
--   Range        nstl/nstl/range_print.hpp: `range_print` and `range_map_print` are the stream operators
--                of Streamer and MapStreamer. What the stream makes of an element is an argument.
--   Tests        Runs at concrete inputs, and the instances of the theorems there.
--
-- Numbers are natural numbers; where the source's type can wrap, the wrap is written out (size_t in
-- Vector, std::uint8_t in create_mask and from_chars). Loops over a list's bytes take their fuel from
-- its length, so that it cannot run out before the bytes do; `next` of Csv likewise from the bytes of
-- the stream. The query loop is on fuel, since a server may keep sending longer answers: two more
-- than the longest answer, less the buffer's size, are enough. The loop over a file is on fuel, since a file may
-- keep growing: more than the number of its bytes is enough, if nothing changes it.
--
-- Not modelled: the Windows and macOS sources, calls of the system and of other libraries, and the
-- parts of the library that the list above does not name.
pub mod Prelude
pub mod Net
pub mod Vector
pub mod Text
pub mod Args
pub mod Csv
pub mod Log
pub mod Hash
pub mod DeadLock
pub mod Env
pub mod Temp
pub mod Signal
pub mod Trigger
pub mod Http
pub mod Range
pub mod Tests
