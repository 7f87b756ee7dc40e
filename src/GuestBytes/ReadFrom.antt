-- ===== src/GuestBytes/ReadFrom.antt =====
-- What `read_from` makes of a guest memory: it copies what a reader gives into it, across the
-- borders of regions.
pub mod Put
pub mod Calls
use vm_memory.RemoteMem
use vm_memory.Base.{
  ℕ, ◌+◌, ◌-◌, ◌≤◌, ◌<◌, ◌≡◌, ◌⊎◌, ◌&&◌, none, some, List, [], ◌++◌, ltb, leb, if◌then◌else◌,
  length, get_or, Outcome, panic, stuck, err, ok,
}
use vm_memory.Memory.{GuestMemory}
use vm_memory.Region.{Error, invalid_guest_address, io_error, remote_mem_error, GuestMemoryRegion}
use vm_memory.Bytes.{got, io_failed, Reader, RegionContainer}

-- What is relied on of the regions of a memory, in every state: they are no slices, and a write inside
-- a region puts a front of the bytes at their guest addresses, changes no other guest byte, and
-- returns the length of that front, or puts nothing there and fails. `Untouched` says of a range of
-- guest addresses that nothing outside of it has changed, in the guest or elsewhere.
pub record IsWritable {M R S : Type 0} (g : GuestMemoryRegion R) (gm : GuestMemory M R)
    (bytes : RegionContainer R S) (m : M) (peek : S → ℕ → ℕ) (Untouched : ℕ → ℕ → S → S → Type 0)
    : Type 0 where
  pub no_slice : (r : R) (s : S) → bytes.as_slice r s ≡ none
  pub untouched_none : (from : ℕ) (s : S) → Untouched from 0 s s
  pub untouched_join :
      (from k n : ℕ) (s t u : S)
      → Untouched from k s t
      → Untouched (from + k) n t u
      → Untouched from (k + n) s u
  pub write_inside :
      (a : ℕ) (r : R) (caddr : ℕ) (bs : List ℕ) (s : S)
      → gm.find_region m a ≡ some r
      → caddr < g.len r
      → caddr + length bs ≤ g.len r
      → (n : ℕ) × (n ≤ length bs)
        × (((bytes.write r bs caddr s).0 ≡ ok n)
            ⊎ ((n ≡ 0)
                × ((e : RemoteMem.Error) × ((bytes.write r bs caddr s).0
                      ≡ err (remote_mem_error e)))))
        × ((b : ℕ)
            → ((q : R) × (gm.find_region m b ≡ some q))
            → peek (bytes.write r bs caddr s).1 b ≡ (
                if leb (g.start_addr r + caddr) b && ltb b (g.start_addr r + caddr + n)
                then get_or bs (b - (g.start_addr r + caddr)) 0
                else peek s b))
        × Untouched (g.start_addr r + caddr) n s (bytes.write r bs caddr s).1

module _ {M R S F : Type 0} (g : GuestMemoryRegion R) (gm : GuestMemory M R)
    (bytes : RegionContainer R S) (m : M) (peek : S → ℕ → ℕ) (Untouched : ℕ → ℕ → S → S → Type 0)
    (reader : Reader F) (taken : F → List ℕ) (addr count : ℕ) (s : S) (src : F) where
  abbrev pub IsMemory : ℕ → Type 0
  IsMemory n = (i : ℕ) → i < n → (q : R) × (gm.find_region m (addr + i) ≡ some q)

  -- `n` bytes have been taken from the source, and the first `k` of them stand at the guest addresses
  -- from `addr` on, which are all memory; nothing else has changed.
  abbrev pub Landed : ℕ → ℕ → record { mem : S; io : F } → Type 0
  Landed n k t =
      (bs : List ℕ) × (taken t.io ≡ taken src ++ bs)
      × (length bs ≡ n)
      × IsMemory k
      × ((b : ℕ)
          → ((q : R) × (gm.find_region m b ≡ some q))
          → peek t.mem b
            ≡ (if leb addr b && ltb b (addr + k) then get_or bs (b - addr) 0 else peek s b))
      × Untouched addr k s t.mem

  abbrev pub Filled : ℕ → record { mem : S; io : F } → Type 0
  Filled n t = Landed n n t

  -- The last write and what it returned, where `w` bytes of it are among the `k` that have landed.
  abbrev pub LastWrite : Outcome Error ℕ → ℕ → ℕ → ℕ → S → Type 0
  LastWrite o w n k mem =
      (r : R) × (caddr : ℕ) × (new : List ℕ) × (d : S) × ((bytes.write r new caddr d).0 ≡ o)
      × ((bytes.write r new caddr d).1 ≡ mem)
      × (g.start_addr r + caddr + w ≡ addr + k)
      × (n + w ≡ k + length new)

  -- Why `read_from` ended: all bytes are read, there is no memory, the source is at its end, or it
  -- failed; or the last write failed, or was short, which is a panic.
  abbrev pub Ends : Outcome Error ℕ → ℕ → ℕ → record { mem : S; io : F } → Type 0
  Ends (ok j) n k t =
      (j ≡ n)
      × (k ≡ n)
      × ((n ≡ count)
          ⊎ ((gm.find_region m (addr + n) ≡ none)
              ⊎ ((d : F) × (len : ℕ) × (0 < len) × (reader.read len d ≡ (got [], t.io)))))
  Ends (err (io_error e)) n k t =
      (k ≡ n) × ((d : F) × (len : ℕ) × (reader.read len d ≡ (io_failed e, t.io)))
  Ends (err (invalid_guest_address a)) n k t =
      (a ≡ addr) × (n ≡ 0) × (k ≡ 0) × (gm.find_region m addr ≡ none)
  Ends (err (remote_mem_error e)) n k t = LastWrite (err (remote_mem_error e)) 0 n k t.mem
  Ends (err e) n k t = ⊥
  Ends panic n k t = (k < n) × ((w : ℕ) × LastWrite (ok w) w n k t.mem)
  Ends stuck n k t = ⊥

  abbrev pub CopiesIn : Outcome Error ℕ → record { mem : S; io : F } → Type 0
  CopiesIn r t = (n : ℕ) × (k : ℕ) × (n ≤ count) × (k ≤ n) × Landed n k t × Ends r n k t
