-- ===== src/GuestMmap/Within/Write.antt =====
-- Writes that stay inside one region.
use mathlib.Core.Path.{subst}
use vm_memory.Base.{
  ℕ, ◌+◌, ◌-◌, ◌≤◌, ◌<◌, ◌≡◌, refl, ap, ◌∙◌, ◌⊎◌, inl, inr, true, false, ◌&&◌, some, List, arith,
  ltb, leb, ◌==◌, if◌then◌else◌, le→leb, length, get_or, drop, length-drop, get_or-drop, word,
  Outcome, panic, stuck, err, ok,
}
use vm_memory.Region.{Error, remote_mem_error}
use vm_memory.RemoteMem.{done, failed, ProcessVm, IsProcessVm, rw_failed, process_write_bytes}
use vm_memory.RemoteMem.Transfer.{Sys-cases}
use vm_memory.Memory.Access.{IsGuestMemory, Serves, IsServing, try_access_lem}
use vm_memory.Mmap.{GuestRegionMmap, GuestMemoryMmap, region_mmap, new, find_region, memory_mmap}
use vm_memory.Mmap.Layout.{IsWellFormed}
use vm_memory.Mmap.Find.{memory_mmap-IsGuestMemory}
use vm_memory.RegionBytes.Access.{write_in_range}
use vm_memory.GuestMmap.{host_of, IsMapped, guest_write}
use vm_memory.GuestMmap.Within.{region_here}
use vm_memory.GuestBytes
use vm_memory.RegionBytes

module _ {State : Type 0} (vm : ProcessVm State) (byte : State → ℕ → ℕ → ℕ) (buf : List ℕ)
    (s : State) (pid host : ℕ) where
  -- The first `n` bytes of the buffer stand in the process from `host` on, and all other bytes are as
  -- before.
  abbrev pub Put : ℕ → State → Type 0
  Put n t =
      (n ≤ length buf)
      × ((q a : ℕ)
          → byte t q a ≡ (
              if q == pid && (leb host a && ltb a (host + n))
              then get_or buf (a - host) 0
              else byte s q a))

  -- Why a write ended: all is written, or the call for the rest wrote nothing, or failed.
  abbrev pub PutEnds : Outcome Error ℕ → ℕ → Type 0
  PutEnds (ok k) n =
      (k ≡ n)
      × ((n ≡ length buf)
          ⊎ ((mid : State) × Put n mid × ((vm.writev pid (host + n) (drop n buf) mid).0 ≡ done 0)))
  PutEnds (err (remote_mem_error (rw_failed e))) n =
      (mid : State) × Put n mid × ((vm.writev pid (host + n) (drop n buf) mid).0 ≡ failed e)
  PutEnds (err e) n = ⊥
  PutEnds panic n = ⊥
  PutEnds stuck n = ⊥

  abbrev pub Writes : Outcome Error ℕ → State → Type 0
  Writes o t = (n : ℕ) × Put n t × PutEnds o n

module _ {State : Type 0} (vm : ProcessVm State) (byte : State → ℕ → ℕ → ℕ)
    (laws : IsProcessVm vm byte) (others : State → State) (m : GuestMemoryMmap)
    (well : IsWellFormed m) (addr : ℕ) (buf : List ℕ) (s : State) (r : GuestRegionMmap)
    (at : find_region m addr ≡ some r) (mapped : IsMapped r) (short : length buf < word)
    (within : addr + length buf ≤ r.guest_base + r.mapping.size) where
  guest : IsGuestMemory region_mmap memory_mmap m
  guest = memory_mmap-IsGuestMemory m well

  -- More bytes of the buffer behind those that are there.
  more_written :
      (total n : ℕ) (t t' : State)
      → n ≤ length buf - total
      → Put vm byte buf s r.pid (host_of r addr) total t
      → ((q a : ℕ)
          → byte t' q a ≡ (
              if q == r.pid
                && (leb (host_of r addr + total) a && ltb a (host_of r addr + total + n))
              then get_or (drop total buf) (a - (host_of r addr + total)) 0
              else byte t q a))
      → Put vm byte buf s r.pid (host_of r addr) (total + n) t'
  more_written total n t t' fit (le, before) new = (
    omega arith,
    λ q a.
        new q a
        ∙ ground (arith, before q a, get_or-drop total buf (a - (host_of r addr + total)) 0),
  )

  -- What one call of the region makes of the rest of the buffer.
  write_served :
      (total start len : ℕ) (t : State)
      → Put vm byte buf s r.pid (host_of r addr) total t
      → r.guest_base + start ≡ addr + total
      → start < r.mapping.size
      → length buf - total ≤ len
      → Serves region_mmap memory_mmap m guest
          (length buf)
          addr
          short
          (GuestBytes.write_part region_mmap memory_mmap (RegionBytes.bytes_mmap vm others) m buf)
          (Put vm byte buf s r.pid (host_of r addr))
          (Writes vm byte buf s r.pid (host_of r addr))
          total
          len
          (RegionBytes.write vm r (drop total buf) start t)
  unfolding process_write_bytes
  write_served total start len t put from inside room =
      let there = host_of r addr + total in
      let host : RegionBytes.host_addr r start ≡ there = omega (arith, guest.found_in addr r at) in
      let t' = (vm.writev r.pid there (drop total buf) t).1 in
      rw (write_in_range vm r (drop total buf) start t inside, host)
        (elim (Sys-cases (vm.writev r.pid there (drop total buf) t).0) [
          | inl (n, e) ↦
              let fit : n ≤ length buf - total =
                omega (
                  arith,
                  laws.writev_le r.pid there (drop total buf) t n e,
                  length-drop total buf,
                ) in
              let more : Put vm byte buf s r.pid (host_of r addr) (total + n) t' =
                more_written total n t t' fit put
                  (λ q a. laws.writev_bytes r.pid there (drop total buf) t n q a e) in
              rw e (
                omega arith,
                λ z. (
                  total,
                  subst (λ k. Put vm byte buf s r.pid (host_of r addr) k t') (omega arith) more,
                  (refl, inr (t, put, e ∙ ap done z)),
                ),
                λ pos. more,
              )
          | inr (x, e) ↦ rw e (
            total,
            (put.0, λ q a. laws.writev_failed r.pid there (drop total buf) t x q a e ∙ put.1 q a),
            (t, put, e),
          )
        ])

  write_serving :
      IsServing region_mmap memory_mmap m guest
        (length buf)
        addr
        short
        (GuestBytes.write_part region_mmap memory_mmap (RegionBytes.bytes_mmap vm others) m buf)
        (Put vm byte buf s r.pid (host_of r addr))
        (Writes vm byte buf s r.pid (host_of r addr))
  unfolding GuestBytes.write_part
  write_serving = record {
    call = λ total start len q t put due e from fit.
        let here : find_region m (addr + total) ≡ some r =
          region_here m well addr (length buf) r at within total due in
        let this : q ≡ r = cc in
        let reached : leb total (length buf) ≡ true = le→leb total (length buf) put.0 in
        let base : q.guest_base ≡ r.guest_base = ap (λ k. k.guest_base) this in
        let size : q.mapping.size ≡ r.mapping.size = ap (λ k. k.mapping.size) this in
        let inside = guest.found_in (addr + total) q e in
        rw (reached, this)
          (write_served total start len t put (omega arith) (omega (arith, inside)) (omega arith));
    hole = λ total t put due none_here.
        let here : find_region m (addr + total) ≡ some r =
          region_here m well addr (length buf) r at within total due in
        absurd (cc);
    full = λ t put pos.
        let some_done : (length buf == 0) ≡ false = ground arith in
        rw some_done (length buf, put, (refl, inl refl));
  }

  none_written : Put vm byte buf s r.pid (host_of r addr) 0 s
  none_written = (omega arith, λ q a. ground arith)

  -- In a well-formed memory, a write of a buffer that fits between `addr` and the end of its region,
  -- whose host addresses do not wrap, returns, however little each system call transfers. A front of
  -- the buffer then stands at consecutive addresses of the process that has the region, from the host
  -- address of `addr` on, and no other byte of any process has changed. The result is the length of
  -- that front, and it is the whole buffer unless a call for the rest wrote nothing; or it is the
  -- error of a call for the rest.
  pub guest_write-Writes :
      let (o, t) = guest_write vm others m buf addr s in
      Writes vm byte buf s r.pid (host_of r addr) o t
  unfolding guest_write GuestBytes.write
  guest_write-Writes =
      try_access_lem region_mmap memory_mmap m guest (length buf) addr short
        (GuestBytes.write_part region_mmap memory_mmap (RegionBytes.bytes_mmap vm others) m buf)
        (Put vm byte buf s r.pid (host_of r addr)) (Writes vm byte buf s r.pid (host_of r addr))
        write_serving s none_written
