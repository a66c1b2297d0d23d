-- ===== src/Lib.antt =====
-- VMware add-ons for Haiku: the VMware backdoor with its RPC channel (shared_sources), the shared
-- folders file system (vmware_fs), a mouse filter, a tray application and a video driver. The file system is
-- modelled from the kernel's hooks down to the port instructions, the mouse filter and the tray application
-- down to the same instructions, and the video driver from the accelerant's ring to the device's registers.
--
-- The hooks of vmware_fs turn a vnode and a name into a path with the tree of VMWNode, and pass it to the
-- one VMWSharedFolders object. That object builds a command in its buffer under its lock, sends it with
-- VMWCoreBackdoor::SendAndGet, which serialises the port instructions with a semaphore of its own, and
-- reads the answer from the same buffer.
--
-- The tray application and the mouse filter are two processes with one settings file: the tray sets a value,
-- and the filter's watcher of the file reads it again and asks the host for absolute positions or not. The
-- tray polls the host's clipboard and gives it the system's. The accelerant writes commands to a ring in
-- memory that VMware reads, in batches under a benaphore, and changes modes by requests to its kernel driver.
--
-- The files and the code:
-- - Base: lists, bytes and memory over the native numbers.
-- - Machine: what is not in the repository. `Env` holds the answers of the hypervisor, the kernel and the
--   allocator as functions of all that happened before, so they may be anything; `Trace` is the list of
--   the interactions. A run ends with a value, in `fault` (an access outside its memory, a NULL or deleted
--   object) or in `panic` (a failed ASSERT).
-- - Backdoor: shared_sources/VMWCoreBackdoor.{h,cpp}, BackdoorCall, BackdoorRPCCall, BackdoorRPCSend,
--   BackdoorRPCGet, OpenRPCChannel, CloseRPCChannel. Backdoor.Rpc: SendMessage, SendAndGet, GetMessage,
--   the constructor and the destructor.
-- - Folders: vmware_fs/VMWSharedFolders.{h,cpp}. The record `Folders` has the object's fields; a command is
--   a list of `Piece`s, one for each SET_*, memcpy or CopyPath. Folders.Files, Folders.Dirs,
--   Folders.Entries and Folders.Mount have the operations by name; Folders.Sessions calls them in any order.
-- - Node: vmware_fs/VMWNode.{h,cpp}, CopyPathTo, DeleteChildIfExists and both GetChild.
-- - Fs: vmware_fs/*_operations.cpp, one function for each hook, on a record of the globals.
-- - Sharing: shared_sources/VMWBackdoor.{h,cpp}; Sharing.Clipboard has GetHostClipboard and
--   SetHostClipboard. Sharing.Settings: shared_sources/VMWAddOnsSettings.{h,cpp}, over the interface
--   `Storage` of BMessage and BFile, with their documented behaviour in `IsMessage`. Sharing.Filter:
--   vmware_mouse/VMWareMouse.cpp.
-- - Tray: vmware_tray/VMWAddOnsTray.cpp, MessageReceived by message. Tray.Cleanup: WriteToFile and
--   FillDirectory of vmware_tray/VMWAddOnsCleanup.cpp, over the answers of a volume. Tray.Volumes: the list
--   of volumes of vmware_tray/VMWAddOnsSelectWindow.cpp and its messages, ThreadLoop and Start of
--   VMWAddOnsCleanup.cpp, and StartShrink.
-- - Video.Benaphore: the macros of vmware_video/shared/DriverInterface.h as steps of threads. Video.Fifo:
--   vmware_video/accelerant/Fifo.c; in Video.Fifo.Queue VMware reads the ring between its batches.
--   Video.Driver and Video.Driver.Control: vmware_video/kernel/device.c.
--   Video.Loading: vmware_video/kernel/driver.c, the search on the PCI bus, loading and unloading.
--   Video.Modes: PROPOSE_DISPLAY_MODE and SET_DISPLAY_MODE, through the ring and the driver; the list of
--   modes is in Video.Modes.Listing. Video.Cursor: the commands of Cursor.c and Acceleration.c in
--   vmware_video/accelerant, as batches of the ring. Video.Hooks: MOVE_CURSOR, SHOW_CURSOR,
--   SET_INDEXED_COLORS, MOVE_DISPLAY and GetModeInfo.c. Video.Startup: InitAccelerant.c and GlobalData.c,
--   with the update threads that FifoInit starts.
-- - Examples: a concrete host, objects and trees.
--
-- Choices. The build is that of 64-bit user land. A register that a call does not pass, or that holds an
-- address, is 0. `rep insb` and `rep outsb` transfer all their bytes. Machine words are natural numbers with
-- their wrap-around written out where the code computes them. Memory from malloc is 0. A stored pointer result
-- is `out`, `none` where nothing is stored. The bits of an open mode, of st_mode and of an access mode are
-- Booleans, since their values are those of system headers, as is B_PATH_NAME_LENGTH, 1024. The sizes of
-- allocated objects are fixed numbers, on which only the questions to the allocator depend. A VMWNode pointer
-- is the node's inode number and fParent is found from the root. An uninitialised local is `stack_regs`, of
-- which nothing is read, or a parameter (`stale`, `garbage`). The driver's registers, areas and copies are
-- answers of the record `Answers` to the state `Kernel`; its error numbers are one `error`. What VMware does
-- to the ring in a synchronisation is the parameter `sync`. How many rounds the update thread has in
-- SET_DISPLAY_MODE are parameters of it. The memory at the name that ReadDir fills in is given by its size,
-- beside the size that the caller announces. Whether a volume can be cleaned is what it answers when it is
-- asked, so a volume may answer otherwise when its turn comes; the items that the user has selected come with
-- the message of the button, by their positions.
--
-- Fuel. vmwfs_read and vmwfs_write get one round for each byte and one more. Every further round of vmwfs_read
-- follows at least one byte counted, so this is enough; for vmwfs_write it is enough where the host takes a
-- byte of every write, and no fuel is where it takes none and reports success. The clipboard loops get one
-- round for each byte, and end after one for each four. FIFO_SYNC polls the device with the fuel that is given
-- to control_hook. WriteToFile gets 8192 rounds, the buffers of the largest file. The search on the PCI bus
-- ends at the first index that the bus does not have, so more fuel than there are devices is enough.
--
-- Not modelled: vmwfs_get_vnode_name, which no table registers, kernel_interface.cpp (tables), _ScalePosition
-- (floating point, a parameter), the layout of the windows, the menus and the texts of the alerts of
-- vmware_tray, the path that CLONE_ACCELERANT opens, the clock of the update thread, the engine token and the table
-- of hooks of the accelerant, and the ports behind the device's registers.
pub mod Base
pub mod Machine
pub mod Backdoor
pub mod Folders
pub mod Node
pub mod Fs
pub mod Sharing
pub mod Tray
pub mod Video
pub mod Examples
