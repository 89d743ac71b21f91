-- ===== src/Lib.antt =====
-- partman: a partition manager for disk images with MBR and GPT schemes.
--
-- The program has a library (libs/libpartman) and a terminal front end (src/main.c, src/scan.c,
-- src/options.c). The library works on an image file: img_ctx.c holds its geometry, schem.c a
-- partitioning scheme in memory and the searches for free sectors, mbr.c and gpt.c write a scheme
-- to the image and read it back through mapped memory, with memutils.c for little-endian numbers,
-- guid.c, crc32.c and rand.c below them. A scheme reaches mbr.c or gpt.c by function pointers.
--
-- The files and the code:
--   Base                lists, Boolean tests and machine words, shared by all.
--   Bits                bit operations as arithmetic (no code of its own).
--   MemUtils            libs/libpartman/src/memutils.c; Bytes, Layout and Region describe a record on
--                       the disk as a list of fields.
--   Crc32               libs/libpartman/src/crc32.c; Reference is the CRC-32 bit by bit.
--   Rand, Guid          libs/libpartman/src/rand.c, libs/libpartman/src/guid.c.
--   ImgCtx              libs/libpartman/src/img_ctx.c.
--   Schem               libs/libpartman/include/schem.h and the functions on one entry.
--   Find                the searches of libs/libpartman/src/schem.c (schem_find_overlap to
--                       schem_find_last_sector).
--   World               the image's bytes, the random numbers and the calls that may fail.
--   Mbr                 libs/libpartman/src/mbr.c; Disk is the sector, Schemes the conversions, Save
--                       the operations on the image, Prot the protective MBR.
--   Gpt                 libs/libpartman/src/gpt.c; Region is the mapping of sectors, Pair a header
--                       with its table and the two copies, Scheme the conversions and operations;
--                       Entry, Table, Stored, Saved and Reload are about what a save leaves in the image.
--   SchemCtx            the scheme context of libs/libpartman/src/schem.c (schem_new to schem_ctx_reset);
--                       Prot and New are about the protective MBR of a GPT, Flags
--                       about what is in the image.
--   CText, Stdio        what the front end uses of the C library: characters, the conversions of sscanf
--                       and sprintf, and fgets on a stream of characters (no code of its own).
--   Scan                src/scan.c; Lines is about reading, Bounds and Sizes about what the prompts
--                       accept, Undefined and Overflow about the lines that C does not define.
--   Command             src/main.c, pm_part_prompt to pm_part_alter; Layout is the abstract view of a
--                       scheme, Refine what each command does to it, Defined and Overflow when it has
--                       no result.
--   Print               src/main.c, pm_print_mbr to pm_print_scheme; View reads a listing, Listing and Chs
--                       say what it shows.
--   Session             src/main.c, action_handle and routine_start; Init is about new schemes, Steps and
--                       Invariant about what a command keeps, Ends and Defined about how a session ends.
--   Log, Options, Main  libs/libpartman/src/log.c, src/options.c, and img_init and main of src/main.c.
--   Examples            the data of the tests, which stand in a module Tests of each component.
-- A definition has the name of the C function it translates; a loop or a part of a long function is
-- a definition of its own beside it.
--
-- State is passed explicitly. A World holds the image as a function from offsets to bytes, and
-- answers each call of mmap, munmap, calloc and fsync with success or failure, by any function of
-- the call's number. A mapping is shared with the file, so that a mapped address is an offset.
--
-- Numbers are natural numbers; what C cuts to a word is cut where an operation can exceed it. The
-- system is LP64: pu32 is unsigned long and has 64 bits, like pu64. Loops over arrays are recursions
-- over the list or the rounds left. The one loop without such a bound, in schem_find_start_sector,
-- has the fuel 2 * (last_usable_lba + 2): a round either moves the start forward or drops the
-- alignment once, and the result is never out of fuel.
--
-- The session's loop has a fuel, too: one round more than the input has characters is enough. The
-- input is a list of characters, ends of file and read errors. The abstract view of a scheme is the
-- sectors that each entry in use holds; a command is one step there, and the session's invariant
-- (AreHeld) says that these stretches lie in the usable space and do not meet.
--
-- Where the front end's input makes C undefined, the outcome is one of its own: an int that
-- overflows, a read before a buffer, a character class of a byte from 128 on (a plain char is
-- signed), and sscanf on a number of more than 64 bits. The last is remembered in the stream
-- (`overflowed`) until the command ends, which then has no result; for the command line, it is
-- opts_overflow.
--
-- Not modelled: the texts of messages, prompts and the help, and the freeing of memory. getopt_long,
-- lseek and open are arguments: what they return. A signal from a mapping past the end of the file, and
-- what is left mapped, are outside the model.
pub mod Base
pub mod Bits
pub mod MemUtils
pub mod CText
pub mod Stdio
pub mod Scan
pub mod Crc32
pub mod Rand
pub mod Guid
pub mod ImgCtx
pub mod Schem
pub mod Find
pub mod World
pub mod Examples
pub mod Mbr
pub mod Gpt
pub mod SchemCtx
pub mod Command
pub mod Print
pub mod Session
pub mod Log
pub mod Options
pub mod Main
