-- ===== src/Generate/Opcodes.antt =====
-- The numbers of the operations in the .replay file that are written or replayed, from
-- ioriot/src/opcodes.h.
use ioriot.Prelude.{ℕ}

abbrev pub op_fstat : ℕ
op_fstat = 0

abbrev pub op_fstat_at : ℕ
op_fstat_at = 1

abbrev pub op_fstatfs : ℕ
op_fstatfs = 2

abbrev pub op_fstatfs64 : ℕ
op_fstatfs64 = 3

abbrev pub op_lstat : ℕ
op_lstat = 4

abbrev pub op_stat : ℕ
op_stat = 5

abbrev pub op_statfs : ℕ
op_statfs = 6

abbrev pub op_statfs64 : ℕ
op_statfs64 = 7

abbrev pub op_read : ℕ
op_read = 10

abbrev pub op_readv : ℕ
op_readv = 11

abbrev pub op_readahead : ℕ
op_readahead = 12

abbrev pub op_readdir : ℕ
op_readdir = 13

abbrev pub op_readlink : ℕ
op_readlink = 14

abbrev pub op_readlink_at : ℕ
op_readlink_at = 15

abbrev pub op_write : ℕ
op_write = 20

abbrev pub op_writev : ℕ
op_writev = 21

abbrev pub op_open : ℕ
op_open = 30

abbrev pub op_open_at : ℕ
op_open_at = 31

abbrev pub op_creat : ℕ
op_creat = 32

abbrev pub op_mkdir : ℕ
op_mkdir = 33

abbrev pub op_mkdir_at : ℕ
op_mkdir_at = 34

abbrev pub op_rename : ℕ
op_rename = 40

abbrev pub op_rename_at : ℕ
op_rename_at = 41

abbrev pub op_rename_at2 : ℕ
op_rename_at2 = 42

abbrev pub op_close : ℕ
op_close = 50

abbrev pub op_unlink : ℕ
op_unlink = 51

abbrev pub op_unlink_at : ℕ
op_unlink_at = 52

abbrev pub op_rmdir : ℕ
op_rmdir = 53

abbrev pub op_fsync : ℕ
op_fsync = 60

abbrev pub op_fdatasync : ℕ
op_fdatasync = 61

abbrev pub op_sync : ℕ
op_sync = 62

abbrev pub op_syncfs : ℕ
op_syncfs = 63

abbrev pub op_sync_file_range : ℕ
op_sync_file_range = 64

abbrev pub op_fcntl : ℕ
op_fcntl = 70

abbrev pub op_getdents : ℕ
op_getdents = 71

abbrev pub op_lseek : ℕ
op_lseek = 72

abbrev pub op_llseek : ℕ
op_llseek = 73

abbrev pub op_chmod : ℕ
op_chmod = 100

abbrev pub op_fchmod : ℕ
op_fchmod = 101

abbrev pub op_chown : ℕ
op_chown = 110

abbrev pub op_lchown : ℕ
op_lchown = 112

abbrev pub op_fchown : ℕ
op_fchown = 114

abbrev pub op_chown16 : ℕ
op_chown16 = 111

abbrev pub op_lcown16 : ℕ
op_lcown16 = 113

abbrev pub op_fchown16 : ℕ
op_fchown16 = 115

abbrev pub op_fchownat : ℕ
op_fchownat = 116

abbrev pub op_meta_exit_group : ℕ
op_meta_exit_group = 901

abbrev pub op_meta_timeline : ℕ
op_meta_timeline = 902
