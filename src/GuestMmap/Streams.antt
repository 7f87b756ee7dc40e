-- ===== src/GuestMmap/Streams.antt =====
-- `write_to` after `read_from`: a stream goes into the guest memory and comes out again.
mod Tests
use vm_memory.Base.{
  ℕ, ◌+◌, ◌-◌, ◌<◌, ◌≡◌, sym, ap, ◌∙◌, ◌⊎◌, inl, inr, ◌&&◌, none, some, List, ◌++◌, arith, ltb, leb,
  if◌then◌else◌, ltb→lt, Bool-cases, length, get_or, get_or_ext, word, Outcome, panic, stuck, err,
  ok, ok_inj,
}
use mathlib.Core.Path.{subst}
use vm_memory.Region.{Error, invalid_guest_address}
use vm_memory.RemoteMem.{ProcessVm, IsProcessVm}
use vm_memory.GuestBytes.WriteTo.{IsWriter, CopiesOut}
use vm_memory.GuestBytes.Source.{IsSource}
use vm_memory.GuestBytes.ReadFrom.{Landed, Filled, Ends}
use vm_memory.Volatile.Streams.Ends.{Settles}
use vm_memory.Bytes.{got, Reader, Writer}
use vm_memory.Mmap.{GuestMemoryMmap, region_mmap, find_region, memory_mmap}
use vm_memory.Mmap.Layout.{IsWellFormed}
use vm_memory.GuestMmap.Copy.{region_byte, IsAccessible, guest_write_to-CopiesOut}
use vm_memory.GuestMmap.Fill.{guest_byte, Untouched, IsStorable, guest_read_from-CopiesIn}
use vm_memory.GuestBytes
use vm_memory.RegionBytes

module _ {State : Type 0} (vm : ProcessVm State) (byte : State → ℕ → ℕ → ℕ)
    (laws : IsProcessVm vm byte) (others : State → State) (m : GuestMemoryMmap)
    (well : IsWellFormed m) (storable : IsStorable vm byte laws others m) {F G : Type 0}
    (reader : Reader F) (taken : F → List ℕ) (source : IsSource reader taken) (writer : Writer G)
    (written : G → List ℕ) (sink : IsWriter writer written)
    (accepts : (bs : List ℕ) (d : G) → (writer.write_all bs d).0 ≡ got tt) (addr fuel : ℕ)
    (settles : (len : ℕ) (d : F) → Settles reader fuel len d) where
  -- What has been read in, in the state after it.
  abbrev pub read_in : ℕ → State → F → Outcome Error ℕ × record { mem : State; io : F }
  read_in count s src =
      GuestBytes.read_from region_mmap memory_mmap (RegionBytes.bytes_mmap vm others) m fuel reader
        addr count (record { mem = s; io = src })

  abbrev pub written_out : ℕ → State → G → Outcome Error ℕ × G
  written_out count s dst =
      GuestBytes.write_to region_mmap memory_mmap (RegionBytes.bytes_mmap vm others) m fuel writer s
        addr count dst

  -- The bytes that one stream gave are those that the other one gets.
  abbrev pub Passes : F → F → G → ℕ → Outcome Error ℕ → G → Type 0
  Passes src src' dst n r dst' =
      (r ≡ ok n)
      × ((bs : List ℕ) × (length bs ≡ n)
          × (taken src' ≡ taken src ++ bs)
          × (written dst' ≡ written dst ++ bs))

  all_passed :
      (count n : ℕ) (s : State) (src : F) (dst : G) (t : record { mem : State; io : F })
      (r : Outcome Error ℕ) (dst' : G)
      → 0 < n
      → Filled region_mmap memory_mmap
          (RegionBytes.bytes_mmap vm others)
          m
          (guest_byte vm byte laws others m)
          (Untouched vm byte laws others m)
          reader
          taken
          addr
          count
          s
          src
          n
          t
      → CopiesOut region_mmap memory_mmap
          (RegionBytes.bytes_mmap vm others)
          m
          (region_byte byte t.mem)
          written
          t.mem
          addr
          n
          dst
          r
          dst'
      → Passes src t.io dst n r dst'
  all_passed count n s src dst t r dst' pos (bs, took, long, covered, at_bytes, same_elsewhere)
        (k, le, (out, wrote, long', content), ends) =
      let all : (r ≡ ok n) × (k ≡ n) = whole_end ends in
      let same : out ≡ bs = get_or_ext 0 out bs (long' ∙ all.1 ∙ sym long) (λ i p.
        let inside : i < n = omega (arith, p, long', all.1) in
        content i (omega (arith, p, long'))
        ∙ at_bytes (addr + i) (covered i inside)
        ∙ in_range i inside) in
      (all.0, (bs, long, took, rw (← same) wrote))
    where
      in_range :
          (i : ℕ)
          → i < n
          → (if leb addr (addr + i) && ltb (addr + i) (addr + n)
              then get_or bs (addr + i - addr) 0
              else guest_byte vm byte laws others m s (addr + i))
            ≡ get_or bs i 0
      in_range i p = ground arith

      whole_end :
          ((r ≡ ok k) × ((k ≡ n) ⊎ (find_region m (addr + k) ≡ none)))
            ⊎ ((r ≡ err (invalid_guest_address addr)) × (k ≡ 0) × (find_region m addr ≡ none))
          → (r ≡ ok n) × (k ≡ n)
      whole_end (inl (e, inl same)) = (e ∙ ap ok same, same)
      whole_end (inl (e, inr hole)) = elim (Bool-cases (ltb k n)) [
        | inl short ↦ let (q, held) = covered k (ltb→lt _ _ short) in cc
        | inr full ↦ let same : k ≡ n = ground arith in (e ∙ ap ok same, same)
      ]
      whole_end (inr (e, z, hole)) =
          let (q, held) = covered 0 pos in
          let here : addr + 0 ≡ addr = omega arith in
          let held' : find_region m addr ≡ some q = rw (← here) held in cc

  counted :
      (count j k n : ℕ) (s : State) (src : F) (t : record { mem : State; io : F })
      (r : Outcome Error ℕ)
      → r ≡ ok n
      → Ends region_mmap memory_mmap
          (RegionBytes.bytes_mmap vm others)
          m
          (guest_byte vm byte laws others m)
          (Untouched vm byte laws others m)
          reader
          taken
          addr
          count
          s
          src
          r
          j
          k
          t
      → (j ≡ n) × (k ≡ n)
  counted count j k n s src t (ok i) e ends =
      let same : i ≡ n = ok_inj e in (sym ends.0 ∙ same, ends.1 ∙ sym ends.0 ∙ same)
  counted count j k n s src t (err x) e ends = cc
  counted count j k n s src t panic e ends = cc
  counted count j k n s src t stuck e ends = cc

  -- In a well-formed memory whose mappings share no byte, do not wrap in the address space of their
  -- process, and can be read in the state that `read_from` leaves, for a `count` that fits u64, a
  -- reader that gives what it takes from its source, no more than it is asked for, and whose
  -- interruptions settle, and a writer that takes all it is given: what `read_from` has read, where it
  -- succeeds and that is not nothing, is what `write_to` of as many bytes from the same address then
  -- writes, and it returns their number.
  pub write_to-read_from :
      (count n : ℕ) (s : State) (src : F) (dst : G)
      → count < word
      → 0 < n
      → (read_in count s src).0 ≡ ok n
      → IsAccessible vm byte laws others m (read_in count s src).1.mem
      → let (r, dst') = written_out n (read_in count s src).1.mem dst in
        Passes src (read_in count s src).1.io dst n r dst'
  write_to-read_from count n s src dst short pos e acc =
      let t = (read_in count s src).1 in
      let (j, k, le, front, landed, ends) =
        guest_read_from-CopiesIn vm byte laws others m well storable reader taken addr count fuel s
          src source settles short in
      let (taken_all, landed_all) = counted count j k n s src t (read_in count s src).0 e ends in
      let out =
        guest_write_to-CopiesOut vm byte laws others m t.mem writer written addr n dst fuel well acc
          sink accepts (omega (arith, le, taken_all)) in
      all_passed count n s src dst t (written_out n t.mem dst).0 (written_out n t.mem dst).1 pos
        (subst
          (λ i.
            Landed region_mmap memory_mmap (RegionBytes.bytes_mmap vm others) m
              (guest_byte vm byte laws others m) (Untouched vm byte laws others m) reader taken addr
              count s src i n t)
          taken_all
          (subst
            (λ i.
              Landed region_mmap memory_mmap (RegionBytes.bytes_mmap vm others) m
                (guest_byte vm byte laws others m) (Untouched vm byte laws others m) reader taken
                addr count s src j i t)
            landed_all landed))
        out
