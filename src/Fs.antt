-- ===== src/Fs.antt =====
-- fs/fs.c and the parts of fs/ide.c, fs/serv.h and user/include/fs.h that it uses: the file system
-- server.
pub mod Cache
pub mod Blocks
pub mod File
pub mod Path
pub mod Alloc
pub mod Bitmap
pub mod Transfer
pub mod Evict
pub mod Walks
pub mod Slots
pub mod Sync
pub mod Tests
