-- ===== src/Lib.antt =====
-- The OpenDAX tag server, src/server: a process that keeps named, typed tags for client modules,
-- which add, read and write them by messages, and hear of changes by events.
--
-- The parts, with the files of this library and the code that they model:
--
-- - Base: numbers, lists, C's int (Base/Int), bits of bytes (Base/Bits), and what a C function does:
--   it returns, returns an ERR_ code of src/opendax.h, or does something that C does not define
--   (`fault` and `crash`): an access outside of a block, a NULL pointer, a failed assert.
-- - Text: C strings with strcmp, strcasecmp, strtok_r, strtol and printf's %d; their bytes are ASCII.
-- - Types: the type words of src/opendax.h and src/libcommon.h.
-- - Cdt: the table of compound datatypes of src/server/tagbase.c. `cdt_create`, `cdt_append`,
--   `cdt_get_type`, `cdt_get_name`, `serialize_datatype`, `type_size`, `_checktype` and
--   `_validate_name` keep their names, the leading underscore aside. `type_size` has fuel, one more
--   than the table is long, since a type is built of earlier ones; the loop of `cdt_create` over the
--   members has the length of the text.
-- - NameIndex: `_index`, the sorted array of names, and its binary searches `_get_by_name`,
--   `_add_index` and `_del_index`. The fuel of a search is the width of its range.
-- - TagQueue: `_queue_add`, and `write_queue` and `read_queue` of src/server/virtualtag.c. Pointers are
--   NULL, areas that the queue has, or what realloc left.
-- - Memory: blocks of bytes; a copy is defined within a block only.
-- - Event: `_event_hit` of src/server/events.c with the functions below it: Event/Bits for change, set
--   and reset, Event/Compare for equal, greater and less, Event/Deadband. Floating point comparison is
--   a parameter, `Floats`.
-- - Server: the static variables as one record, with the tags, modules, groups and mappings of
--   src/server/tagbase.h and src/server/daxtypes.h; Server/Find is `module_find_fd` of
--   src/server/module.c. What the server sends, and what it stores for retention, is a list.
-- - Store: `tag_get_size`, `tag_read`, `tag_write`, `tag_mask_write`; Store/Notify is `event_check` and
--   `_send_event`, Store/Hooks the virtual tag functions and the checks of special tags. An operation
--   maps a server to an outcome and a server. A write of `size` bytes takes a list of that length.
-- - Tagbase: `tag_add` (Tagbase/Add), `tag_del` (Tagbase/Del), `tag_get_name`, `tag_get_index` and
--   the attribute tests (Tagbase/Lookup), the overrides (Tagbase/Override). Memory that C reads
--   before it is set is a parameter, `Unset`.
-- - Events: `event_add`, and in Events/Del `event_del`, `event_opt` and `events_cleanup`, of
--   src/server/events.c.
-- - Mapping: src/server/mapping.c, with the loops over bits of `map_add` and `map_check`. A copy
--   of bytes between places that overlap is not defined.
-- - Groups: src/server/groups.c on the groups of one module: `group_add` and `group_del` in Groups,
--   `group_read` and `group_write` in Groups/Members, `groups_cleanup` in Groups/Cleanup, where the fuel
--   of its loop is the size of the array; Groups/Halved is about the groups that it deletes. What
--   `malloc` and `realloc` leave in the count of an entry is a parameter.
-- - Modules: the rest of src/server/module.c. The address that `xmalloc` gives for a module is a
--   parameter, and so is the list of names that get no tag. The list of modules is the ring from
--   `_current_mod` on; the host of a module, which nothing reads, is left out.
-- - Client: the messages on a socket: the client's `_message_send` and `_message_get` of
--   src/lib/libmsg.c, and the server's `_message_send` of src/server/message.c.
-- - Buffers: src/server/buffer.c with `msg_dispatcher` of src/server/message.c. What `read` returns, what
--   `malloc` leaves in a buffer, and the handlers of the commands are parameters.
-- - Handlers: `msg_tag_add`, `msg_tag_del`, `msg_tag_read`, `msg_tag_write` and `msg_tag_mask_write` of
--   src/server/message.c; Handlers/Others has `msg_map_add`, `msg_map_del` and those for overrides.
--   What stands in `msg->data` behind the data of a message is a parameter.
-- - Tests: the theorems at small servers and tables.
--
-- Store calls Event for each event of a tag that is written; Tagbase calls NameIndex, Cdt,
-- TagQueue, and Store for the status tags that it keeps; Groups and Mapping call Store for what
-- they read and write; Modules adds and deletes the tag of a module and what it owns; Buffers
-- takes the bytes that Client sends. An unsigned sum or product of the code is reduced by `% 2 ^
-- 32`; an int sum outside of 32 bits is not defined. Allocation does not fail, and a socket takes
-- what is sent. Sizes of reads are not negative.
--
-- Not modelled: the other handlers of messages, atomic operations, the checksum, the start and
-- options of the server, the client's functions above its messages, the master and the modules.
--
pub mod Base
pub mod Text
pub mod Types
pub mod Cdt
pub mod NameIndex
pub mod TagQueue
pub mod Memory
pub mod Event
pub mod Server
pub mod Store
pub mod Tagbase
pub mod Groups
pub mod Events
pub mod Mapping
pub mod Modules
pub mod Client
pub mod Buffers
pub mod Handlers
pub mod Tests
