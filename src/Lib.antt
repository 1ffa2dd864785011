-- ===== src/Lib.antt =====
-- cosmo, a small kernel for 32-bit x86. The boot loader hands the machine to the kernel's own loader,
-- which turns paging on and calls `kernel_main`, which
-- prints to the VGA text screen, fills the descriptor tables, programs the two interrupt
-- controllers, and sets up the allocator of physical memory frames from the memory map. After that
-- the interrupt handlers run: a key is read from its port, acknowledged and printed; an exception or
-- an unknown interrupt prints an error by way of the logger.
--
-- The parts, the files here that model them, and the sources:
--   Kmain: kernel/kmain.cc. InitGdt and InitPic, in Kmain/Boot the rest up to the calls of Halt, in
--     Kmain/Messages its strings; Kmain/Displays has what the
--     screen shows in the end. A record Kernel holds the singletons: the screen with the ports,
--     the logger's buffer, the tables, the allocator with the memory, and of the processor the
--     registers of the tables that it loaded and the interrupt flag.
--   Loader: kernel/loader.nasm and kernel/link.ld. Loader/Paging has the processor's translation of
--     addresses by the directory of cr3, Loader/Arguments what kernel_main is passed.
--   Running: the machine after the start, as a step relation whose steps are the interrupts that the
--     controllers let through. Running/Begin joins it to kernel_main, Running/Keyboard,
--     Running/Screen, Running/Dispatch, Running/Service and Running/Frames have what is true of every state that is reached.
--   Vmem/Bitmap, Vmem/Allocator: the bitmap functions and the class PhysicalFrameAllocator
--     (src/VirtualMemoryMgmt/PhysicalFrameAllocator, include/VirtualMemoryMgmt). A record holds the
--     members and the memory that the bitmap and the memory map live in. Vmem/FrameSet is the
--     abstract allocator, a set of used frames; Vmem/Allocator/Client the calls of a client, and
--     Vmem/Allocator/Simulation the same client of the set.
--   Libc/Str: memset, memcpy, memmove, memcmp, strlen (src/libc/string), over Memory. Libc/Stdio:
--     printf, puts, putchar and abort (src/libc/stdio, src/libc/stdlib), with the calls of putchar,
--     which itself prints nothing. Libc/Stdio/Reference is the text that
--     printf is to write.
--   Boot/Multiboot: the members of the hand-over that the kernel reads (include/Boot/multiboot.h).
--   PortIo: outb, inb and io_wait (src/PortIO, include/PortIO). A program maps the history of port
--     events to a result and a longer history; what a port reads is a parameter.
--   Pic: the functions of the namespace pic (src/ProgrammableInterruptController). Pic/Chip is the
--     8259A that they talk to, an automaton over the history.
--   FrameBuffer: the class FrameBuffer (src/FrameBuffer, include/FrameBuffer): the video memory, the
--     attribute, the cursor, and the history of the ports. FrameBuffer/Cursor has the two cursor
--     registers of the display, FrameBuffer/Draws the calls that only draw, FrameBuffer/View the
--     screen apart from the ports, FrameBuffer/Line whole lines of text. FrameBuffer/Terminal is the
--     abstract screen, a terminal with its cells in one row.
--   Gdt, Idt: the class template GlobalDescriptorTable (include/GlobalDescriptorTable) and the class
--     InterruptDescriptorTable (src/InterruptDescriptorTable). Idt/Lines joins the gates to the
--     vectors that the controllers send.
--   Logger: LogBufferReverse, SetLogBuffer, SetLogBufferHex (src/Logger), and in Logger/Format the
--     arguments, Printf and Log (include/Logger), over an interface of writers. Logger/Format/Typing
--     has the formats that fit the types of their arguments.
--   Irq, Keyboard, Interrupts: the interrupt lines and the context of an interrupt
--     (include/InterruptDescriptorTable), kbd::ReadScanCode and kbd::PrintAsciiChar, isr_handler and
--     irq_handler (src/InterruptDescriptorTable). Interrupts/Screen is the screen as a writer of the
--     logger, Interrupts/Log a line of the log on it, Interrupts/Interleaved such a line while keys
--     come in between two of its characters.
--   SerialPort: the class SerialPort (src/SerialPort, include/SerialPort). SerialPort/Uart is the
--     16550 that it programs, SerialPort/Logging the port as a writer of the logger.
--   Cpu: the registers and the instructions of the processor that the assembly uses. Cpu/Stack has
--     the words on the stack.
--   Entry: the entry points of the interrupts (src/InterruptDescriptorTable/InterruptHandler.nasm),
--     as programs of the processor around a handler's machine code, which is a parameter. Gdt/Flush
--     and Idt/Flush: the two assembly routines that load the tables. Kmain/Selectors: the segments
--     after that.
--   Prelude, Bits, Memory: shared names, the laws of the bit operations, bytes and words in memory.
--
-- Integers are natural numbers with the casts of the source written out: u8, u16, u32, not32 and
-- sub32 in Prelude. An `int` that can be negative is a ℤ. A `char` is its byte, and its sign is
-- written out where the code compares or widens it. A pointer that runs past the end of the address
-- space is not modelled.
--
-- Loops are recursions on the rounds that are left. Five have fuel: strlen, with any fuel above the
-- string's length; the digits of a number of 32 bits, of which 32 rounds are enough since the number
-- halves at least in each; the polls of a serial port, with any fuel above the polls that find it
-- busy; the walk over the memory map, which the definition bounds by the distance to the map's end;
-- and the rounds of the library's printf, with the length of its format. A result `none` in Logger
-- and `undefined` in Libc/Stdio is a step that C++ leaves undefined.
--
-- Not modelled: an interrupt that comes in while kernel_main runs, but for keys between two characters
-- of a line of the log (the entry points keep interrupts off while a handler runs); the machine code
-- that the compiler makes of the C++ sources, so that Entry states what a handler's code is to keep; the
-- members of the multiboot structures that the kernel does not read, in a header that comes from
-- the Multiboot specification; the build.
pub mod Prelude
pub mod Bits
pub mod Memory
pub mod Cpu
pub mod Libc
pub mod Boot
pub mod Vmem
pub mod PortIo
pub mod Pic
pub mod FrameBuffer
pub mod Gdt
pub mod Idt
pub mod Entry
pub mod Irq
pub mod Logger
pub mod Keyboard
pub mod Interrupts
pub mod Kmain
pub mod Loader
pub mod Running
pub mod SerialPort
