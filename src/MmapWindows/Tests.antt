-- ===== src/MmapWindows/Tests.antt =====
-- A system with one file mapping, whose state is the maximum size of it.
use vm_memory.MmapWindows.{WinOs, from_file}
use vm_memory.MmapWindows.Offset.{IsWinOs, from_file-Fails}
use vm_memory.Base.{ℕ, ◌+◌, ◌*◌, ◌^◌, ◌≡◌, refl, some, arith, ltb, if◌then◌else◌, lt→ltb, err, ok}

abbrev one_mapping : WinOs ℕ
one_mapping = record {
  virtual_alloc = λ size s. (0x10000, s);
  virtual_free = λ addr s. (1, s);
  create_file_mapping = λ handle high low s. (4, high * 2 ^ 32 + low);
  map_view_of_file =
      λ mapping high low size s. (if ltb s (high * 2 ^ 32 + low + size) then 0 else 0x20000, s);
  close_handle = λ mapping s. s;
  last_error = λ s. 5;
  einval = 22;
  ebadf = 9;
}

one_mapping-IsWinOs : IsWinOs one_mapping (λ s mapping. s)
one_mapping-IsWinOs = record {
  created = λ handle high low s pos made. refl;
  viewed_within = λ mapping high low size s past. rw (lt→ltb _ _ past) refl;
}

-- At the start of the file the mapping is made.
start_mapped :
    (from_file one_mapping (record { file = 3; start = 0 }) 0x1000 0).0
    ≡ ok (record {
      addr = 0x20000;
      size = 0x1000;
      file_offset = some (record { file = 3; start = 0 });
    })
unfolding from_file
start_mapped = refl

from_file-Fails_example :
    (e : ℕ) × ((from_file one_mapping (record { file = 3; start = 0x1000 }) 0x1000 0).0 ≡ err e)
from_file-Fails_example =
    from_file-Fails one_mapping (λ s mapping. s) one_mapping-IsWinOs
      (record { file = 3; start = 0x1000 }) 0x1000 (omega arith) (omega arith) (omega arith)
      (omega arith) 0
