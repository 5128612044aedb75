-- ===== src/Consciousness/Memory/Disk.antt =====
-- What consciousness/memory/aion_memory.c writes to the drive: paths, records and index entries; and
-- the file operations that it calls.
use aion_os.Prelude.{
  ℕ, zero, suc, ◌+◌, ◌*◌, ◌/◌, ◌%◌, Bool, Option, none, some, [], ◌∷◌, ◌++◌, ◌==◌, if◌then◌else◌,
  length, take, drop,
}
use aion_os.Consciousness.Text.{Text, codes, split_at}

-- The operations of a drive, with no law about them. Those of kernel/fs/fs.c are `fs_files` of
-- Kernel/Drivers/Devices: its reads and writes fail. A read returns the bytes that it put into the buffer,
-- at most as many as the second argument, or `none` for a negative result.
pub record Files (W : Type 0) : Type 0 where
  pub fs_read_file : Text → ℕ → W → Option Text
  pub fs_write_file_usb : Text → Text → W → W
  pub fs_file_exists : Text → W → Bool
  pub fs_mkdir_usb : Text → W → W

abbrev pub mem_episodic : ℕ
mem_episodic = 0

abbrev pub mem_self : ℕ
mem_self = 2

abbrev pub mem_magic : ℕ
mem_magic = 0x414d_454d

abbrev pub max_content_len : ℕ
max_content_len = 4096

-- `sizeof(MemoryRecord)` of the packed structure: 4 + 1 + 1 + 2 + 8 + 8 + 4.
abbrev pub record_size : ℕ
record_size = 28

-- The bytes of `index_buf`.
abbrev pub index_size : ℕ
index_size = 1024 * 1024

abbrev pub index_path : Text
index_path = codes "/AION/memory/index.bin"

-- `MemEntry`, without `timestamp_ms`, which nothing reads. `content_len` is the length of `content`.
pub record MemEntry : Type 0 where
  pub type : ℕ
  pub importance : ℕ
  pub tick : ℕ
  pub content : Text
  pub dirty : Bool

unfoldable pub mem_type_dir : ℕ → Text
mem_type_dir type =
    if type == mem_episodic
    then codes "/AION/memory/episodic/"
    else if type == mem_self
    then codes "/AION/memory/self/"
    else codes "/AION/memory/semantic/"

-- The digits that `%llu` prints, at most `fuel` of them.
unfoldable pub to_decimal : ℕ → ℕ → Text
to_decimal zero n = []
to_decimal (suc fuel) n =
    let high = to_decimal fuel (n / 10) in
    (if n / 10 == 0 then [] else high) ++ ((n % 10 + b'0') ∷ [])

-- A `uint64_t` has at most 20 digits. The path has at most 46 bytes, so that `snprintf` cuts nothing.
unfoldable pub path_of : ℕ → ℕ → Text
path_of type i = mem_type_dir type ++ (to_decimal 20 i ++ codes ".mem")

-- The `n` bytes of a number in memory, lowest first.
unfoldable pub le : ℕ → ℕ → Text
le zero x = []
le (suc n) x = x % 256 ∷ le n (x / 256)

unfoldable pub of_le : Text → ℕ
of_le [] = 0
of_le (b ∷ s) = b + 256 * of_le s

-- `len` bytes at offset `off`.
abbrev pub field : ℕ → ℕ → Text → Text
field off len buf = take len (drop off buf)

-- The text that a C string in these bytes ends with its first zero.
abbrev pub c_str : Text → Text
c_str s = elim (split_at 0 s) [ none ↦ s | some (before, _) ↦ before ]

-- The record file: `magic`, `type`, `importance`, `flags`, `tick`, `timestamp_ms`, `content_len` and
-- the content. Nothing writes the time stamp of the static `rec_buf`, which stays 0.
unfoldable pub record_bytes : MemEntry → Text
record_bytes e =
    le 4 mem_magic
    ++ (le 1 e.type
        ++ (le 1 e.importance
            ++ (le 2 0 ++ (le 8 e.tick ++ (le 8 0 ++ (le 4 (length e.content) ++ e.content))))))

-- An index entry: 255 bytes of the array `path`, which held `old` before the path was printed into
-- it, and the importance.
unfoldable pub path_field : Text → Text → ℕ → Text
path_field old path importance =
    take 255 (path ++ (0 ∷ drop (length path + 1) old)) ++ (importance ∷ [])
