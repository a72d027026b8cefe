-- ===== src/Lib.antt =====
-- Kernalite, a small aarch64 kernel in C. At boot the kernel takes the memory region from the
-- device tree, gives it to the page allocator and reserves the pages of its own image. Page tables
-- take their pages from the allocator, and all of the kernel uses its own string functions. The
-- development models these parts, the formatted printing, the serial driver, the panic screen, the
-- tests that run in the kernel and the tool that decodes registers, and composes them as the code
-- does: `main` reads the region by `get_mem`, and the page tables lie in pages that `page_alloc`
-- marked used, next to the pages that other clients hold.
--
-- Files and the code they model:
-- - Allocator: src/kernel/allocator/page_allocator.c. The three static variables are the record
--   Allocator; the bitmap lives in byte memory. Bitmap has the view of the bitmap as a status per
--   page, Search the first fit of page_alloc, Free page_free, Reserve reserve_page, Init page_init,
--   Owners the sequences of calls of clients that free what they hold, Abstract the allocator without
--   a bitmap that it is compared with, and Dump the blocks that page_dump_status prints.
-- - PageTable: src/kernel/page_table/page_table.c and src/include/page_table/page_table.h. Descriptor
--   has the bit fields of page_table_entry_t, with their laws in Lens and Layout, Leaf the descriptor
--   of level 3, Walk the translation that the tables stand for, Tree the invariant, Confine and Keep
--   what leaves the tables and the rest alone, and Extend, Grow, Next, Place and Map the steps of
--   map_page. Root is page_table_init, Dump the lines of dump_memory_map, Shown the line of a page by
--   its permissions, and Collect, Lookup and Listing what the lines are.
-- - System: the allocator, the page tables and clients that write to their pages, over one memory.
--   Sound is the invariant, Calls, Mapping and Writing are the steps, Execution their sequences.
--   Reserved has the pages that nobody holds, Image those of the kernel's image after the boot, and
--   Accounted and Pages what each page is used for.
-- - Fdt: src/kernel/fdt/fdt.c and src/include/fdt/fdt.h. The calls of libfdt are the record LibFdt.
--   Laws has what is asked of libfdt, Contents and Entries the entries of a reg property, Regions
--   the memory nodes, and Outcome get_mem.
-- - Boot: src/kernel/main.c. Image has what holds of the allocator after the reservation of the
--   image, Main the whole of main, Console the serial console that it sets up, and Regions
--   print_memory_map.
-- - Exceptions: src/kernel/exception_handling/handler.c and src/kernel/exit/exit.c, with Halt for what
--   they print and what QEMU is told.
-- - Strings: src/kernel/utils/string.c. Move has the functions that write, Compare the ones that
--   compare and search blocks, Scan the ones on null-terminated strings, Number strtoul.
-- - Print: src/kernel/utils/kprintf.c. Reversal and Digits are itoa, Number the way back by strtoul,
--   Figures the numbers that vprintf prints, Render the text that a format stands for, Convert the
--   conversions and Loop vprintf. Text has strings in memory and what it means to have printed one,
--   Numeral the text of a number as a function, Pieces formats in pieces, and Messages several calls
--   of kprintf in a row.
-- - Panic: src/kernel/error/panic.c and src/kernel/error/error_strings.c, with Hex for print_hex.
-- - Uart: src/kernel/drivers/uart.c, with Wait for the loop of pl011_getc.
-- - Runner: tests/test_runner.c and tests/page_table_map_test.c, with Verify for what verify_map confirms and
--   Passes for the result of the tests.
-- - Decoder: tools/register_decoder. Sctlr32 and Sctlr64 have the bit fields and the printed lines,
--   Shown what the lines show, and Main the search by name.
-- - Memory: bytes by address, and the words in them, in little endian. Base, Bits and Fields have
--   numbers, lists, bits and masks.
--
-- State is passed explicitly: a function that writes takes the memory and returns it with its
-- result. Numbers are natural numbers, and the wrap-around of a 64-bit type is written out as u64
-- or sub64. Pointers are addresses; NULL is 0. A C loop with a counter is recursion on the rounds
-- that are left, so it needs no fuel. The loops up to a null byte have fuel, and a string of n
-- characters needs n + 1; itoa gets 64 rounds, since a number of 64 bits has at most 64 digits. The
-- search of page_alloc runs for the count of pages. The search for memory nodes has fuel, and more
-- than the offset at which the tree ends is enough; the loop of pl011_getc has fuel, and one more
-- round than it waits is enough. For vprintf, enough fuel is shown to exist.
--
-- Not modelled: the messages to the console, but for those of print_memory_map, page_dump_status,
-- dump_memory_map, the exception handler, exit and the panic; the assembly files; and libfdt, a
-- submodule, which is a parameter.
pub mod Base
pub mod Bits
pub mod Fields
pub mod Memory
pub mod Allocator
pub mod PageTable
pub mod System
pub mod Decoder
pub mod Fdt
pub mod Panic
pub mod Uart
pub mod Exceptions
pub mod Runner
pub mod Boot
pub mod Strings
pub mod Print
