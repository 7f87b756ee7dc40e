-- ===== src/MmapUnix/Sample.antt =====
-- An operating system with files of 0x8000 bytes, which maps at ever higher addresses: its state is
-- the next one.
use vm_memory.Base.{ℕ, ◌+◌, some}
use vm_memory.MmapUnix.{Os}
use vm_memory.RemoteMem.{done}

abbrev pub small_files : Os ℕ
small_files = record {
  file_len = λ fd s. some 0x8000;
  mmap = λ size prot flags fd offset s. (done s, s + size);
  munmap = λ addr size s. s;
  page_size = 4096;
  prot_read = 1;
  prot_write = 2;
  map_anonymous = 0x20;
  map_noreserve = 0x4000;
  map_private = 2;
  map_shared = 1;
  map_fixed_bit = 0x10;
}
