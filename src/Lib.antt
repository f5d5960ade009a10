-- ===== src/Lib.antt =====
-- CrOwS: the MFTAH-UEFI boot loader and the kernel's early start-up.
--
-- The loader (src/boot/mftah_uefi) finds an encrypted payload on the boot volume, asks for its
-- password, decrypts it into memory and registers it as a ramdisk, from which it starts the next
-- stage. The kernel (src/kernel) reads what its boot loader left in memory and picks a memory hole.
-- All of it is C on bare firmware: state is passed along explicitly, pointers are addresses with 0
-- for NULL, and every unsigned operation that can wrap is written with its modulus.
--
-- Base: the shared vocabulary. Base.Tests, Base.Lists and Base.Words hold C's comparisons, arrays as
-- lists, and machine words; Base.Status is EFI_STATUS with EFI_ERROR; Base.Memory is memory by
-- address, and the routines of gnu-efi (CopyMem, MultU64x32, DivU64x32) as an interface with their
-- documented behaviour, since gnu-efi is a submodule.
--
-- Ramdisk: src/boot/mftah_uefi/ramdisk.c with its headers. Ramdisk has the private data and the two
-- initialisers; Ramdisk.BlockIo the two block I/O protocols; Ramdisk.Register the registration;
-- Ramdisk.Nfit the publication in the ACPI tables; Ramdisk.Pools the record of what the driver does
-- with pool memory. What the firmware answers (allocations, statuses, the memory map) is an argument,
-- so the theorems hold for every firmware. The loop that fetches the memory map runs over the list of
-- the firmware's answers; a list that ends too early gives no result, which the theorems exclude.
-- Ramdisk.Nfit.Offers reads the published tables back from their bytes. Ramdisk.Device is the device
-- as its clients see it, an array of bytes that serves requests for whole blocks, and the sessions of
-- a client with the driver.
--
-- Input: src/boot/mftah_uefi/input.c, the line editor behind every prompt and the yes-or-no question.
-- A session is a list of rounds, one for each turn of its loop: the statuses that the firmware gives
-- and the key. A list that ends before Enter leaves the loop waiting, which is its own result.
-- Input.Exact has what a session leaves in the buffer, an erased character included, and Input.Kept
-- what the question is answered with.
--
-- Boot: src/boot/mftah_uefi/main.c. Boot.Password is GetPassword and CheckPassword, Boot.Payload
-- LoadAndDecrypt, Boot.Hints SetEfiVarsHints, Boot.Jump JumpToRamdisk, and Boot.Course and Boot.Main
-- are efi_main, which calls all of these, SelectPayload of Loader, ReadChar16KeyboardInput of Input
-- and RamDiskRegister of Ramdisk; EntryGraphics of graphics.c and AcpiLoadDriver of acpi.c are in its
-- start. It returns the course, the list of what the loader has done, and how it ended;
-- Boot.Course.Phases has the state machine that a course is a run of, and Boot.Main.Tries the way
-- through wrong passwords to the right one. Boot.Files holds what is not in the repository: the
-- file protocol, as an answer for a position and a number of bytes, and
-- MFTAH, as functions of memory. Only the loop that reads the file runs on fuel; one round for each
-- chunk of 16 KiB and one more are enough. The attempts at a password and the visits to the menu are
-- lists, and a list that ends leaves the prompt open; so are the answers to the wait for a key at the
-- end. Boot.Password.Asked follows a password from the keyboard of Input to MFTAH, Boot.Disk the file through LoadAndDecrypt, SetEfiVarsHints and
-- RamDiskRegister to the clients of the disk, and Boot.Main.Origin a file from the directory to
-- efi_main.
--
-- Loader: src/boot/mftah_uefi/loader.c, the choice of a payload by its name. What the prompts return
-- is a list, and a list that ends without a choice leaves the prompt open. StrnCmp, StrCmp and StrUpr
-- are gnu-efi's, an interface with their documented behaviour. Loader.Discover is DiscoverPayloads, over a
-- list of the answers for the entries of the directory; one that ends too early leaves it unread.
-- Loader.Choose puts the two together.
-- Loader.Discover.Hash is its part that hashes the loader's own file. The loop there ends on the count
-- that Read stores, so it runs on fuel: one round for each chunk of 4 KiB and two more are enough.
--
-- Threading: src/boot/mftah_uefi/threading.c, the threads on the application processors.
-- Threading.Initialize is the set-up, Threading.Exclusive the system of CreateThread, StartThread and
-- FinishThread as steps in any order, as util.c calls them, and Threading.Life one thread from its
-- start to its end; Threads, an array, is a function of the index. Threading.Join is JoinThread and
-- DestroyThread, with a list of what the other processors do before each look; one that ends too early
-- leaves the loop turning. In these systems a call is one step and the mutex is left out, since it is a
-- flag that is tested and set in two steps: Threading.Mutex has RefreshMPs and the storing of a mark in
-- single steps, with the mutex, and Threading.Race looks at a FinishThread inside StartThread.
--
-- Kernel: src/kernel/core. Kernel.Start is kmain of main.c, from the registers on, Kernel.Init is kinit,
-- which it calls, and Kernel.Multiboot the search of the boot information of multiboot.c. Both loops
-- run on fuel, with a result of their own when it is used up: a tag has at least eight bytes, so the
-- search needs an eighth of the information's size and one more; the scan of the memory map is given one round for every byte of its tag. What snprintf, which
-- prints into the hole, leaves in memory is an argument, for which Kernel.Init.Printing puts the
-- snprintf of Kernel.Str.
--
-- Kernel.Uart is the serial port driver of src/kernel/drivers/uart.c: the calls of inb and outb are a
-- list, and the device's answers another one, which leaves a wait unfinished where it ends.
--
-- Kernel.Console is the loop of kinit once more, with what it sends to the serial port: each line is
-- cleared, built by snprintf in a buffer of 256 bytes and read back by uart_puts up to a NUL, over the
-- same memory that holds the map. 256 rounds are enough for strlen and uart_puts, since the buffer is
-- taken to end with NUL, and one round for every byte of the map's tag for the loop. The stale string
-- of snprintf is taken to be the same at each call.
--
-- Kernel.Str is snprintf of src/kernel/core/str.c, with its variable arguments as a list, and
-- Kernel.Str.Clearing strlen, with the loops of main.c that clear a printed line by it; their fuel is
-- one more than the line has characters. The loops that store digits run over the cells of their
-- arrays, which are enough for 32 bits.
--
-- Util: CalculateCheckSum8 of src/boot/mftah_uefi/util.c, and SpawnDecryptionWorker in Util.Worker. The
-- decryption is MFTAH's, a submodule, and an argument. Util.Spin is UefiSpin, on the system of
-- Threading.Exclusive; its rounds are a list, which says what the other processors have done before
-- each look at a thread, and a list that ends too early leaves the loop turning. Util.Work is the
-- context that SpawnDecryptionWorker makes and the procedure of the threads.
--
-- Util.Wrappers is src/boot/mftah_uefi/wrappers.c, the hooks that MFTAH calls, as far as they do more
-- than hand a call on.
--
-- Crypto: hmac_sha256 of src/boot/mftah_uefi/sha256.c, over the hash as an interface.
--
-- Not modelled: the progress bar, which is floating point and printing, other printing and debugging
-- output, colours, the restart of the machine, the completion event of a thread, and the sizing call
-- of GetMemoryMap, whose status is only asserted. AES and SHA-256 are copies of other projects.
-- DevicePathToStr and the second allocation of the buffer for directory entries are taken to succeed.
-- The array for the name of a payload, of 65 bytes, is taken to hold the 65 characters that a prompt
-- writes to it, and the byte behind the password's array that GetPassword clears is left out.
pub mod Base
pub mod Boot
pub mod Crypto
pub mod Input
pub mod Kernel
pub mod Loader
pub mod Ramdisk
pub mod Threading
pub mod Util
