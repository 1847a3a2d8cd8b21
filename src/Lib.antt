-- ===== src/Lib.antt =====
-- mylysos: a verification library for a small teaching operating system for the i386.
--
-- The kernel (mylysos/*.c) starts in mylysos/mylysos.c, which initialises the parts in turn: the
-- hardware layer (hal.c), the screen (6845crt.c), the memory manager (mmanager.c), the process
-- manager (process.c), the system calls (syscall.c), the keyboard (kbddrv.c), the floppy disk
-- (fdddrv.c), the file system (fatfs.c) and the shell (hshell.c). The memory manager hands out the
-- blocks in which the process manager keeps its processes, threads and stacks; the drivers hold
-- their input in ring queues, from which threads of theirs take it.
--
-- Which file models which part:
--   Base      shared lists, words, stores and runs of C code
--   Memory    mylysos/mmanager.c: MemBlkDesc and MemBlkManager are MEM_BLK_DESC and
--             MEM_BLK_MANAGER, allocate_non_cached_memory is MmAllocateNonCachedMemory, and so on
--             (Memory.Init: MmkInitializeMemoryManager)
--   Hal       the task state segments and descriptors of mylysos/hal.c and sys_desc.h
--             (Hal.Interrupts, Hal.Idt: the handlers and their table; Hal.Devices, Hal.A20)
--   Process   mylysos/process.c: Kernel holds its variables, its structures and what it reaches
--             (Process.Create: PsCreateProcess and the three functions that create threads,
--             Process.Schedule: the scheduler and the task switch, Process.Layout: what the lists
--             hold, Process.Cut: the threads that cut what has ended, Process.Start:
--             PskInitializeProcessManager, Process.Listing: ShellCommand_ps)
--   Multilevel
--             the queues of Multilevel_Queue_Scheduling/process.c, over the Kernel of Process
--   Screen    mylysos/6845crt.c
--   Keyboard  mylysos/kbddrv.c: a round of KbdpTranslatorThread is translator_round
--   FileSystem
--             the directory and the reading of files in mylysos/fatfs.c; FddReadSector is a
--             function from sectors to their bytes, or none where it fails
--   Floppy    the transfer in mylysos/fdddrv.c; the controller and the DMA are a function from what
--             is written to the ports to what stands in memory (Floppy.Jobs: FddReadSector and the
--             thread that serves the jobs)
--   Format    mylysos/vsprintf.c: ffmt is the loop of the C function of that name
--   Strings   mylysos/string.c
--   Shell     the line and the parser of mylysos/hshell.c: shell_round is a round of HshpMainThread
--             (Shell.Commands: the commands TOGGLE, DIR and FREE)
--   Syscall   mylysos/syscall.c
--   Ring      the five pairs of push and pop of mylysos/process.c, kbddrv.c and fdddrv.c
--
-- The machine is 32 bits wide: DWORD and BYTE are numbers whose wrap-around is written out. A
-- pointer into a table of structures is an index into it, `none` for NULL. A read or write that
-- leaves the objects of the model is `fault`. Critical sections make each function one step.
-- Loops run on fuel or on a count, and a run that uses it up is `hung`: the loops over the lists
-- of processes and threads need as many rounds as the lists have members (Process.Layout), the
-- scheduler a round for each thread and twice as many as there are processes inside; the search
-- for free blocks one round for each block and one more, which is enough since each round moves on
-- (Memory.Alloc); the probe for the memory size 256 rounds, after which its address is back at 0;
-- the reading of a file a round for each byte (FileSystem.Read); a format a round for each of its
-- characters (Format.Rounds); a string one for each character and the terminator (Strings.Walks);
-- the parser of the shell one for each character of a word or a gap (Shell.Words).
--
-- Not modelled: the boot sector and the assembler parts, which are no C code; the application, an
-- example; the start in kernel.c and mylysos.c, which calls the parts in turn; the other files of
-- Multilevel_Queue_Scheduling, earlier versions of those of mylysos; of the modelled files, TYPE and
-- the starting of programs in the shell, and the waits for the controllers.
pub mod Base
pub mod Memory
pub mod Ring
pub mod Hal
pub mod Process
pub mod Screen
pub mod Keyboard
pub mod FileSystem
pub mod Format
pub mod Floppy
pub mod Strings
pub mod Multilevel
pub mod Shell
pub mod Syscall
