-- ===== src/GuestMmap/Fill.antt =====
-- `read_from` of a `GuestMemoryMmap`.
use vm_memory.Base.{
  ℕ, ◌+◌, ◌-◌, ◌≤◌, ◌<◌, ◌≡◌, refl, sym, ◌∙◌, inl, inr, ◌&&◌, some, List, arith, ltb, leb, ◌==◌,
  if◌then◌else◌, Bool-cases, get_or, word,
}
use vm_memory.RemoteMem.{ProcessVm, IsProcessVm, rw_failed, process_write_bytes}
use vm_memory.RemoteMem.Transfer.{Sys-cases}
use vm_memory.GuestBytes.WriteTo.{byte_of}
use vm_memory.GuestBytes.Source.{IsSource}
use vm_memory.GuestBytes.ReadFrom.{IsWritable, CopiesIn}
use vm_memory.GuestBytes.ReadFrom.Calls.{read_from-CopiesIn}
use vm_memory.Volatile.Streams.Ends.{Settles}
use vm_memory.Bytes.{Reader}
use vm_memory.Mmap.{GuestRegionMmap, GuestMemoryMmap, region_mmap, find_region, memory_mmap}
use vm_memory.Mmap.Layout.{IsWellFormed}
use vm_memory.Mmap.Find.{memory_mmap-IsGuestMemory}
use vm_memory.RegionBytes.Access.{write_in_range}
use vm_memory.GuestMmap.{host_of, IsMapped}
use vm_memory.GuestMmap.Copy.{region_byte}
use vm_memory.GuestBytes
use vm_memory.RegionBytes

module _ {State : Type 0} (vm : ProcessVm State) (byte : State → ℕ → ℕ → ℕ)
    (laws : IsProcessVm vm byte) (others : State → State) (m : GuestMemoryMmap) where
  -- The byte of the process that stands behind a guest address.
  abbrev pub guest_byte : State → ℕ → ℕ
  guest_byte s a = byte_of region_mmap (region_byte byte s) a (find_region m a)

  -- A byte of a process stands behind a guest address.
  abbrev pub StandsBehind : ℕ → ℕ → ℕ → Type 0
  StandsBehind a q x =
      (r : GuestRegionMmap) × (find_region m a ≡ some r) × (r.pid ≡ q) × (host_of r a ≡ x)

  -- No byte of any process has changed but those behind `n` guest addresses.
  abbrev pub Untouched : ℕ → ℕ → State → State → Type 0
  Untouched from n s t =
      (q x : ℕ) → ((i : ℕ) → i < n → ¬ StandsBehind (from + i) q x) → byte t q x ≡ byte s q x

  -- No host address of a mapping wraps, and no two guest addresses share a byte of a process.
  pub record IsStorable : Type 0 where
    pub mapped : (a : ℕ) (r : GuestRegionMmap) → find_region m a ≡ some r → IsMapped r
    pub disjoint :
        (a b : ℕ) (r q : GuestRegionMmap)
        → find_region m a ≡ some r
        → find_region m b ≡ some q
        → r.pid ≡ q.pid
        → host_of r a ≡ host_of q b
        → a ≡ b

  module _ (well : IsWellFormed m) (storable : IsStorable) where
    -- A byte of a process in the range of a write is that of the guest address in that range.
    same_byte :
        (a b caddr len : ℕ) (r q : GuestRegionMmap)
        → find_region m a ≡ some r
        → find_region m b ≡ some q
        → caddr + len ≤ r.mapping.size
        → (q.pid == r.pid
            && (leb (r.mapping.addr + caddr) (host_of q b)
                && ltb (host_of q b) (r.mapping.addr + caddr + len)))
          ≡ (leb (r.guest_base + caddr) b && ltb b (r.guest_base + caddr + len))
    same_byte a b caddr len r q e k fit =
        let guest = memory_mmap-IsGuestMemory m well in
        let in_r = guest.found_in a r e in
        let in_q = guest.found_in b q k in
        elim (Bool-cases (leb (r.guest_base + caddr) b && ltb b (r.guest_base + caddr + len))) [
          | inl inside ↦
              let here : find_region m b ≡ some r =
                guest.found_whole a b r e (ground arith) (ground arith) in
              let same : q ≡ r = cc in rw (inside, same) (ground arith)
          | inr outside ↦
              elim (Bool-cases (
                q.pid == r.pid
                && (leb (r.mapping.addr + caddr) (host_of q b)
                    && ltb (host_of q b) (r.mapping.addr + caddr + len)))) [
                      | inr no_byte ↦ no_byte ∙ sym outside
                      | inl hit ↦
                          let c = host_of q b - r.mapping.addr + r.guest_base in
                          let there : find_region m c ≡ some r =
                            guest.found_whole a c r e (ground arith) (ground arith) in
                          let hosts : host_of r c ≡ host_of q b = ground arith in
                          let pids : r.pid ≡ q.pid = ground arith in
                          let same : c ≡ b = storable.disjoint c b r q there k pids hosts in
                          absurd (ground (arith, same))
                    ]
        ]

    moved :
        (a b caddr n : ℕ) (bs : List ℕ) (r q : GuestRegionMmap) (s : State)
        → find_region m a ≡ some r
        → find_region m b ≡ some q
        → caddr + n ≤ r.mapping.size
        → (if q.pid == r.pid
              && (leb (r.mapping.addr + caddr) (host_of q b)
                  && ltb (host_of q b) (r.mapping.addr + caddr + n))
            then get_or bs (host_of q b - (r.mapping.addr + caddr)) 0
            else byte s q.pid (host_of q b))
          ≡ (if leb (r.guest_base + caddr) b && ltb b (r.guest_base + caddr + n)
              then get_or bs (b - (r.guest_base + caddr)) 0
              else byte s q.pid (host_of q b))
    moved a b caddr n bs r q s e k fit =
        let guest = memory_mmap-IsGuestMemory m well in
        let tests = same_byte a b caddr n r q e k fit in
        let in_r = guest.found_in a r e in
        elim (Bool-cases (leb (r.guest_base + caddr) b && ltb b (r.guest_base + caddr + n))) [
          | inr outside ↦ rw (tests, outside) refl
          | inl inside ↦
              let here : find_region m b ≡ some r =
                guest.found_whole a b r e (ground arith) (ground arith) in
              let same : q ≡ r = cc in
              let at : host_of q b - (r.mapping.addr + caddr) ≡ b - (r.guest_base + caddr) =
                rw same (ground arith) in
              rw (tests, inside, at) refl
        ]

    kept_outside :
        (a caddr n : ℕ) (r : GuestRegionMmap) (s t : State) (bs : List ℕ)
        → find_region m a ≡ some r
        → caddr + n ≤ r.mapping.size
        → ((q x : ℕ)
            → byte t q x ≡ (
                if q == r.pid
                  && (leb (r.mapping.addr + caddr) x && ltb x (r.mapping.addr + caddr + n))
                then get_or bs (x - (r.mapping.addr + caddr)) 0
                else byte s q x))
        → Untouched (r.guest_base + caddr) n s t
    kept_outside a caddr n r s t bs e fit facts q x outside =
        let guest = memory_mmap-IsGuestMemory m well in
        elim (Bool-cases
          (q == r.pid && (leb (r.mapping.addr + caddr) x && ltb x (r.mapping.addr + caddr + n)))) [
            | inr apart ↦ facts q x ∙ rw apart refl
            | inl hit ↦
                let i = x - (r.mapping.addr + caddr) in
                let here : find_region m (r.guest_base + caddr + i) ≡ some r =
                  guest.found_whole a (r.guest_base + caddr + i) r e (ground arith)
                    (ground arith) in
                absurd (outside i (ground arith) (r, here, ground arith, ground arith))
          ]

    storable-IsWritable :
        IsWritable region_mmap memory_mmap (RegionBytes.bytes_mmap vm others) m guest_byte Untouched
    unfolding process_write_bytes
    storable-IsWritable = record {
      no_slice = λ r s. refl;
      untouched_none = λ from s q x outside. refl;
      untouched_join = λ from k n s t u before behind q x outside.
          behind q x (λ i p.
            let there : from + (k + i) ≡ from + k + i = omega arith in
            rw (← there) (outside (k + i) (omega arith)))
          ∙ before q x (λ i p. outside i (omega arith));
      write_inside = λ a r caddr bs s e inside fit.
          let host : RegionBytes.host_addr r caddr ≡ r.mapping.addr + caddr =
            omega (arith, storable.mapped a r e) in
          let there = r.mapping.addr + caddr in
          let t = (vm.writev r.pid there bs s).1 in
          rw (write_in_range vm r bs caddr s inside, host)
            (elim (Sys-cases (vm.writev r.pid there bs s).0) [
              | inl (n, call) ↦
                  let le = laws.writev_le r.pid there bs s n call in
                  let facts = λ (q : ℕ) (x : ℕ). laws.writev_bytes r.pid there bs s n q x call in
                  (
                    n,
                    le,
                    inl (rw call refl),
                    λ b (q, k). rw k (
                        facts q.pid (host_of q b)
                        ∙ moved a b caddr n bs r q s e k (omega (arith, le, fit))),
                    kept_outside a caddr n r s t bs e (omega (arith, le, fit)) facts,
                  )
              | inr (x, call) ↦ (
                0,
                omega arith,
                inr (refl, (rw_failed x, rw call refl)),
                λ b (q, k).
                    rw k (
                      laws.writev_failed r.pid there bs s x q.pid (host_of q b) call
                      ∙ ground arith),
                λ q y outside. laws.writev_failed r.pid there bs s x q y call,
              )
            ]);
    }

    -- In a well-formed memory whose mappings share no byte and do not wrap in the address space of
    -- their process, for a `count` that fits u64 and a reader that gives what it takes from its source,
    -- no more than it is asked for, and whose interruptions settle, `read_from` returns or panics,
    -- whatever the system calls give. A front of the bytes that it has taken from the source stands in
    -- the processes behind the guest addresses from `addr` on, in order and across regions, and no
    -- other byte of any process has changed. On success that is all that was taken, and the result
    -- their number, which is `count` unless there is no memory behind them or the source is at its end.
    -- An error is that of the source, of an `addr` with no memory, or of the last write, whose bytes
    -- are taken from the source and not written; a panic is a last write that was short.
    pub guest_read_from-CopiesIn :
        {F : Type 0} (reader : Reader F) (taken : F → List ℕ) (addr count fuel : ℕ) (s : State)
        (src : F)
        → IsSource reader taken
        → ((len : ℕ) (d : F) → Settles reader fuel len d)
        → count < word
        → let (r, t) =
            GuestBytes.read_from region_mmap memory_mmap
              (RegionBytes.bytes_mmap vm others)
              m
              fuel
              reader
              addr
              count
              (record { mem = s; io = src }) in
          CopiesIn region_mmap memory_mmap
            (RegionBytes.bytes_mmap vm others)
            m
            guest_byte
            Untouched
            reader
            taken
            addr
            count
            s
            src
            r
            t
    guest_read_from-CopiesIn reader taken addr count fuel s src source settles short =
        read_from-CopiesIn region_mmap memory_mmap (RegionBytes.bytes_mmap vm others) m guest_byte
          Untouched reader taken addr count s src (memory_mmap-IsGuestMemory m well) short source
          storable-IsWritable fuel settles
