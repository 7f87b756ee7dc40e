-- ===== src/GuestMmap/Within/Slices.antt =====
-- `write_slice` and `read_slice` of a `GuestMemoryMmap` inside one region.
use vm_memory.Base.{
  ℕ, ◌+◌, ◌-◌, ◌≤◌, ◌<◌, ◌≡◌, refl, inl, inr, true, List, [], arith, ◌==◌, Bool-cases, length, drop,
  Outcome, panic, stuck, err, ok,
}
use vm_memory.Region.{Error, partial_buffer, remote_mem_error}
use vm_memory.RemoteMem.{done, failed, ProcessVm, rw_failed}
use vm_memory.GuestMmap.Within.Write.{Put, PutEnds}
use vm_memory.GuestMmap.Within.Read.{GotEnds}
use vm_memory.GuestBytes

module _ {State : Type 0} (vm : ProcessVm State) (byte : State → ℕ → ℕ → ℕ) (buf : List ℕ)
    (s : State) (pid host : ℕ) where
  -- Success says that all is written, and an error how many bytes are.
  abbrev pub SliceWritten : Outcome Error (Unit {0}) → ℕ → Type 0
  SliceWritten (ok u) n = n ≡ length buf
  SliceWritten (err (partial_buffer expected completed)) n =
      (expected ≡ length buf)
      × (completed ≡ n)
      × (n < length buf)
      × ((mid : State) × Put vm byte buf s pid host n mid
          × ((vm.writev pid (host + n) (drop n buf) mid).0 ≡ done 0))
  SliceWritten (err (remote_mem_error (rw_failed e))) n =
      (mid : State) × Put vm byte buf s pid host n mid
      × ((vm.writev pid (host + n) (drop n buf) mid).0 ≡ failed e)
  SliceWritten (err e) n = ⊥
  SliceWritten panic n = ⊥
  SliceWritten stuck n = ⊥

  pub slice_written :
      (o : Outcome Error ℕ) (n : ℕ)
      → PutEnds vm byte buf s pid host o n
      → n ≤ length buf
      → SliceWritten (GuestBytes.all_or_partial (length buf) o) n
  slice_written (ok k) n (e, inl all) le =
      let same : (k == length buf) ≡ true = ground arith in rw same all
  slice_written (ok k) n (e, inr (mid, put, call)) le = elim (Bool-cases (k == length buf)) [
    | inl same ↦ rw same (ground arith)
    | inr short ↦ rw short (refl, e, ground arith, (mid, put, call))
  ]
  slice_written (err (remote_mem_error (rw_failed x))) n h le = h
  slice_written (err x) n h le = absurd h
  slice_written panic n h le = h
  slice_written stuck n h le = h

  pub whole_written :
      (o : Outcome Error (Unit {0})) (n : ℕ) → SliceWritten o n → o ≡ ok tt → n ≡ length buf
  whole_written (ok u) n h e = h
  whole_written (err x) n h e = cc
  whole_written panic n h e = absurd h
  whole_written stuck n h e = absurd h

  -- Success says that all is read, and an error how many bytes are.
  abbrev pub SliceRead : Outcome Error (Unit {0}) → ℕ → Type 0
  SliceRead (ok u) n = n ≡ length buf
  SliceRead (err (partial_buffer expected completed)) n =
      (expected ≡ length buf)
      × (completed ≡ n)
      × (n < length buf)
      × (vm.readv pid (host + n) (length buf - n) s ≡ done [])
  SliceRead (err (remote_mem_error (rw_failed e))) n =
      vm.readv pid (host + n) (length buf - n) s ≡ failed e
  SliceRead (err e) n = ⊥
  SliceRead panic n = ⊥
  SliceRead stuck n = ⊥

  pub slice_read :
      (o : Outcome Error ℕ) (n : ℕ)
      → GotEnds vm byte buf s pid host o n
      → n ≤ length buf
      → SliceRead (GuestBytes.all_or_partial (length buf) o) n
  slice_read (ok k) n (e, inl all) le =
      let same : (k == length buf) ≡ true = ground arith in rw same all
  slice_read (ok k) n (e, inr call) le = elim (Bool-cases (k == length buf)) [
    | inl same ↦ rw same (ground arith)
    | inr short ↦ rw short (refl, e, ground arith, call)
  ]
  slice_read (err (remote_mem_error (rw_failed x))) n h le = h
  slice_read (err x) n h le = absurd h
  slice_read panic n h le = h
  slice_read stuck n h le = h
