-- ===== src/GuestMmap/Within/Read.antt =====
-- Reads that stay inside one region.
use mathlib.Core.Path.{subst}
use vm_memory.Base.{
  ℕ, ◌+◌, ◌-◌, ◌≤◌, ◌<◌, ◌≡◌, refl, ap, ◌∙◌, ◌⊎◌, inl, inr, true, false, some, List, [], ◌++◌,
  arith, ltb, leb, ◌==◌, if◌then◌else◌, ltb→lt, le→leb, Bool-cases, length, get_or, take, drop,
  length-append, length-take, length-eq-zero, length-drop, take-drop, get_or-append_left,
  get_or-append_right, get_or-take, get_or-drop, word, Outcome, panic, stuck, err, ok,
}
use vm_memory.Region.{Error, remote_mem_error}
use vm_memory.RemoteMem.{done, failed, ProcessVm, IsProcessVm, rw_failed, process_read_bytes}
use vm_memory.RemoteMem.Transfer.{Sys-cases}
use vm_memory.Memory.Access.{IsGuestMemory, Serves, IsServing, try_access_lem}
use vm_memory.Mmap.{GuestRegionMmap, GuestMemoryMmap, region_mmap, new, find_region, memory_mmap}
use vm_memory.Mmap.Layout.{IsWellFormed}
use vm_memory.Mmap.Find.{memory_mmap-IsGuestMemory}
use vm_memory.RegionBytes.Access.{read_in_range}
use vm_memory.GuestMmap.{host_of, IsMapped, guest_read}
use vm_memory.GuestMmap.Within.{region_here}
use vm_memory.GuestBytes
use vm_memory.RegionBytes

module _ {State : Type 0} (vm : ProcessVm State) (byte : State → ℕ → ℕ → ℕ) (buf : List ℕ)
    (s : State) (pid host : ℕ) where
  -- A buffer whose first `n` bytes are those of the process from `host` on, and the rest as before.
  abbrev pub Got : ℕ → List ℕ → Type 0
  Got n out =
      (n ≤ length buf)
      × (length out ≡ length buf)
      × ((i : ℕ) → get_or out i 0 ≡ (if ltb i n then byte s pid (host + i) else get_or buf i 0))

  -- Why a read ended: the buffer is full, or the call for the rest read nothing, or failed.
  abbrev pub GotEnds : Outcome Error ℕ → ℕ → Type 0
  GotEnds (ok k) n =
      (k ≡ n) × ((n ≡ length buf) ⊎ (vm.readv pid (host + n) (length buf - n) s ≡ done []))
  GotEnds (err (remote_mem_error (rw_failed e))) n =
      vm.readv pid (host + n) (length buf - n) s ≡ failed e
  GotEnds (err e) n = ⊥
  GotEnds panic n = ⊥
  GotEnds stuck n = ⊥

  abbrev pub Reads : Outcome Error ℕ → List ℕ → Type 0
  Reads o out = (n : ℕ) × Got n out × GotEnds o n

module _ {State : Type 0} (vm : ProcessVm State) (byte : State → ℕ → ℕ → ℕ)
    (laws : IsProcessVm vm byte) (others : State → State) (m : GuestMemoryMmap)
    (well : IsWellFormed m) (addr : ℕ) (buf : List ℕ) (s : State) (r : GuestRegionMmap)
    (at : find_region m addr ≡ some r) (mapped : IsMapped r) (short : length buf < word)
    (within : addr + length buf ≤ r.guest_base + r.mapping.size) where
  guest : IsGuestMemory region_mmap memory_mmap m
  guest = memory_mmap-IsGuestMemory m well

  abbrev GotHere : ℕ → List ℕ → Type 0
  GotHere = Got vm byte buf s r.pid (host_of r addr)

  abbrev ReadsHere : Outcome Error ℕ → List ℕ → Type 0
  ReadsHere = Reads vm byte buf s r.pid (host_of r addr)

  -- More bytes of the process behind those that are there.
  more_read :
      (total : ℕ) (out bs : List ℕ)
      → length bs ≤ length buf - total
      → GotHere total out
      → ((i : ℕ) → i < length bs → get_or bs i 0 ≡ byte s r.pid (host_of r addr + total + i))
      → GotHere (total + length bs) (take total out ++ (bs ++ drop (length bs) (drop total out)))
  more_read total out bs fit (le, long, before) new =
      let rest = drop (length bs) (drop total out) in
      let front : length (take total out) ≡ total = omega (arith, length-take total out) in
      (
        omega arith,
        omega (
          arith,
          length-append (take total out) (bs ++ rest),
          length-append bs rest,
          length-drop (length bs) (drop total out),
          length-drop total out,
        ),
        λ i. elim (Bool-cases (ltb i total)) [
          | inl old ↦
              get_or-append_left (take total out) (bs ++ rest) i 0 (ground arith)
              ∙ get_or-take total out i 0 (ltb→lt _ _ old)
              ∙ before i
              ∙ ground arith
          | inr behind ↦
              let j = i - total in
              let skip : get_or (take total out ++ (bs ++ rest)) i 0 ≡ get_or (bs ++ rest) j 0 =
                get_or-append_right (take total out) (bs ++ rest) i 0 (ground arith)
                ∙ ap (λ k. get_or (bs ++ rest) (i - k) 0) front in
              skip ∙ behind_front i j (ground arith) (ground arith)
        ],
      )
    where
      behind_front :
          (i j : ℕ)
          → i ≡ total + j
          → total ≤ i
          → get_or (bs ++ drop (length bs) (drop total out)) j 0 ≡ (
              if ltb i (total + length bs)
              then byte s r.pid (host_of r addr + i)
              else get_or buf i 0)
      behind_front i j at_j past = elim (Bool-cases (ltb j (length bs))) [
        | inl fresh ↦
            get_or-append_left bs (drop (length bs) (drop total out)) j 0 (ltb→lt _ _ fresh)
            ∙ new j (ltb→lt _ _ fresh)
            ∙ ground arith
        | inr old ↦
            get_or-append_right bs (drop (length bs) (drop total out)) j 0 (ground arith)
            ∙ get_or-drop (length bs) (drop total out) (j - length bs) 0
            ∙ get_or-drop total out (length bs + (j - length bs)) 0
            ∙ before (total + (length bs + (j - length bs)))
            ∙ ground arith
      ]

  -- The state of the buffer after a call, in the words of the loop.
  abbrev out_of : ℕ → List ℕ → Outcome Error ℕ × List ℕ → Outcome Error ℕ × List ℕ
  out_of total out (o, rest) = (o, take total out ++ rest)

  -- What one call of the region makes of the rest of the buffer.
  read_served :
      (total start len : ℕ) (out : List ℕ)
      → GotHere total out
      → r.guest_base + start ≡ addr + total
      → start < r.mapping.size
      → length buf - total ≤ len
      → Serves region_mmap memory_mmap m guest
          (length buf)
          addr
          short
          (GuestBytes.read_part region_mmap memory_mmap (RegionBytes.bytes_mmap vm others) m s)
          GotHere
          ReadsHere
          total
          len
          (out_of total out (RegionBytes.read vm r (drop total out) start s))
  unfolding process_read_bytes
  read_served total start len out got_here from inside room =
      let there = host_of r addr + total in
      let host : RegionBytes.host_addr r start ≡ there = omega (arith, guest.found_in addr r at) in
      let ask : length (drop total out) ≡ length buf - total =
        omega (arith, length-drop total out, got_here.1) in
      rw (read_in_range vm r (drop total out) start s inside, host, ask)
        (elim (Sys-cases (vm.readv r.pid there (length buf - total) s)) [
          | inl (bs, e) ↦
              let fit : length bs ≤ length buf - total =
                laws.readv_le r.pid there (length buf - total) s bs e in
              let more =
                more_read total out bs fit got_here
                  (λ i p. laws.readv_bytes r.pid there (length buf - total) s bs i e p) in
              rw e (
                omega arith,
                λ z. (
                  total,
                  subst
                      (λ k. GotHere k (take total out ++ (bs ++ drop (length bs) (drop total out))))
                      (omega arith) more,
                  (refl, inr (e ∙ ap done (length-eq-zero bs z))),
                ),
                λ pos. more,
              )
          | inr (x, e) ↦ rw (e, take-drop total out) (total, got_here, e)
        ])

  read_serving :
      IsServing region_mmap memory_mmap m guest
        (length buf)
        addr
        short
        (GuestBytes.read_part region_mmap memory_mmap (RegionBytes.bytes_mmap vm others) m s)
        GotHere
        ReadsHere
  unfolding GuestBytes.read_part
  read_serving = record {
    call = λ total start len q out got_here due e from fit.
        let here : find_region m (addr + total) ≡ some r =
          region_here m well addr (length buf) r at within total due in
        let this : q ≡ r = cc in
        let reached : leb total (length out) ≡ true =
          le→leb total (length out) (omega (arith, got_here.0, got_here.1)) in
        let base : q.guest_base ≡ r.guest_base = ap (λ k. k.guest_base) this in
        let size : q.mapping.size ≡ r.mapping.size = ap (λ k. k.mapping.size) this in
        let inside = guest.found_in (addr + total) q e in
        rw (reached, this)
          (read_served total start len out got_here (omega arith) (omega (arith, inside))
            (omega arith));
    hole = λ total out got_here due none_here.
        let here : find_region m (addr + total) ≡ some r =
          region_here m well addr (length buf) r at within total due in
        absurd (cc);
    full = λ out got_here pos.
        let some_done : (length buf == 0) ≡ false = ground arith in
        rw some_done (length buf, got_here, (refl, inl refl));
  }

  -- In a well-formed memory, a read into a buffer that fits between `addr` and the end of its region,
  -- whose host addresses do not wrap, returns, however little each system call transfers. The buffer
  -- keeps its length; a front of it then holds the bytes of the process that has the region, from the
  -- host address of `addr` on, and the rest of it is as before. The result is the length of that
  -- front, and it is the whole buffer unless the call for the rest read nothing; or it is the error of
  -- the call for the rest.
  pub guest_read-Reads :
      let (o, out) = guest_read vm others m buf addr s in
      Reads vm byte buf s r.pid (host_of r addr) o out
  unfolding guest_read GuestBytes.read
  guest_read-Reads =
      try_access_lem region_mmap memory_mmap m guest (length buf) addr short
        (GuestBytes.read_part region_mmap memory_mmap (RegionBytes.bytes_mmap vm others) m s)
        GotHere ReadsHere read_serving buf (omega arith, refl, λ i. ground arith)
