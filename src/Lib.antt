-- ===== src/Lib.antt =====
-- The verification library of a small kernel for RISC-V machines. The kernel is under src/, its
-- headers under include/, and its user programs under user/.
--
-- One hart runs the kernel with its interrupts off, so a function of the kernel is a function
-- over its state. `Base` has what the modules share: Boolean tests, C arrays as lists, scans,
-- signed integers, and `M`, the type of a function over a mutable state that returns with a new
-- state or faults. A fault is an `acquire` of a lock that is held (it would spin for ever), a
-- null pointer that is followed, an index outside an array, a pointer read as one to another
-- type, or a panic.
--
-- The files and the code that they model:
-- - `Spinlock`: src/spinlock.c.
-- - `Page`: src/pagealloc.c, the table of physical pages; `Page.Layout` is about its
--   initialisation and `Page.Laws` about allocation and release.
-- - `Str`: src/string.c and user/src/ustr.c, over texts without their terminator.
-- - `Pipe`: the ring buffer in src/pipe.c, its reading and its writing loop.
-- - `PipeTable`: the table of pipes in src/pipe.c, and the opening and closing of a pipe;
--   `PipeTable.Transfer` has its reading and writing with their sleeps.
-- - `Bifs`: src/bakedinfs.c, directories, files and paths; `Bifs.Dir` has the listing and making
--   of directories, `Bifs.Words`, `Bifs.Resolve` and `Bifs.Names` are about paths, `Bifs.Read`
--   is about reading, and `Bifs.Init` has the tree that the kernel starts with.
-- - `Kernel`: the kernel's state, that is the tables of src/proc.c, src/fs.c, src/pipe.c and
--   src/bakedinfs.c with their locks, and the current process.
-- - `Fs`: src/fs.c, the table of open files; `Fs.Open` has what opens a file and calls through
--   its pointers.
-- - `Proc`: src/proc.c. `Proc.Table` has the process table, `Proc.Wake` the wake-ups, `Proc.Fds`
--   the file descriptors, `Proc.Io` the opening, reading and writing of files, `Proc.Procfs` a
--   process's files under /proc, `Proc.Fork` the making of a process, `Proc.Exec` the start of a
--   program in it with its arguments (`Proc.Exec.Argv`, over a memory of bytes), `Proc.Calls`
--   the small system calls, `Proc.Sched` the scheduler's visit of a slot and, in
--   `Proc.Sched.Loop`, its loop, and `Proc.Wait` what ends in `swtch`.
-- - `Uart`: src/drivers/uart/uart.c, the receive buffer of the console with typed characters,
--   backspaces and the reading of lines; what it sends to the device and to the scheduler is an
--   effect.
-- - `Vm`: src/vm.c and the page table entries of include/riscv.h. `Vm.Bits` and `Vm.Words` are
--   about the bits of an entry and the words of a page, `Vm.Path`, `Vm.Map` and `Vm.Range` about
--   mapping, and `Vm.Tables` has the operations on whole tables.
-- - `Shell`: user/src/shell.c, the trimming of a line, the pool of commands and the parser;
--   `Shell.Words` describes the words of a line, `Shell.Layout`, `Shell.Steps` and `Shell.Loop`
--   lead to `Shell.Parse`.
-- - `Syscall`: src/syscall.c, the dispatch of a system call, over the table of src/syscalls.c as
--   a parameter.
-- - `Fdt`: src/fdt.c and src/runflags.c, the search of the device tree for the boot arguments,
--   with fuel for its loops, and the flags in them.
-- - `Gpio`: src/gpio.c, the registers of the pins and the system call on a pin.
-- - `Lcd`: src/drivers/hd44780/hd44780.c. What the driver does to the pins is a log; `Lcd.Print`
--   has the text buffer and the printing, `Lcd.Controller` describes the display at the other
--   end of the pins, `Lcd.Bytes` is about the bytes that reach it, `Lcd.Terminal` about the
--   buffer, and `Lcd.Scroll` and `Lcd.Redraw` about what is shown.
-- - `Errno`: the numbers of include/errno.h.
--
-- A pointer into a table is the index of the entry, and a null pointer is `none`. The sizes of
-- the tables, of a page and of a pipe's buffer are parameters or the lengths of lists, since
-- they differ between the machines. A loop of the C code is a structural recursion over a list
-- or over the number of its rounds; the loop over a path's slashes and those over decimal digits
-- recurse on fuel, the length of the path and a bound on the digits, and the theorems about them
-- show that this is enough.
--
-- The kernel's state is that of the configuration without an MMU, where `va2pa` is the identity;
-- `Vm` is a model of its own for the 64-bit machine with an MMU, over the page allocator and a
-- memory of words. The loop of `map_range` and the recursion of `free_page_table_r` have fuel:
-- the number of pages below the end, and the three levels of a page table. A function of
-- src/proc.c that calls `swtch` is two functions, one up to the call and one behind it, and
-- which process runs in between is not fixed: the scheduler's loop is a relation whose turns
-- leave what runs in between to a parameter. Left out are the devices apart from the console's
-- buffer, the pins and the LCD, the boot code and the user programs apart from user/src/ustr.c
-- and the parser of user/src/shell.c.
pub mod Base
pub mod Spinlock
pub mod Page
pub mod Str
pub mod Pipe
pub mod Bifs
pub mod Kernel
pub mod Errno
pub mod Proc
pub mod PipeTable
pub mod Fs
pub mod Uart
pub mod Vm
pub mod Shell
pub mod Syscall
pub mod Fdt
pub mod Gpio
pub mod Lcd
