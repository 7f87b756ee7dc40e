-- ===== src/RemoteMem/Transfer.antt =====
-- `process_read` and `process_write`: whole transfers, from the behaviour of the system calls.
use vm_memory.Base.{
  ℕ, ◌+◌, ◌-◌, ◌≤◌, ◌<◌, ◌≡◌, refl, ◌⊎◌, inl, inr, ◌&&◌, List, arith, ltb, leb, ◌==◌, if◌then◌else◌,
  length, get_or, drop, replicate, length-append, length-drop, length-replicate, get_or-append_left,
  get_or-append_right, get_or-drop, ok,
}
use vm_memory.RemoteMem.{
  Sys, done, failed, ProcessVm, IsProcessVm, process_read_bytes, process_read, process_write_bytes,
  process_write,
}

pub Sys-cases : {A : Type 0} (r : Sys A) → ((a : A) × (r ≡ done a)) ⊎ ((e : ℕ) × (r ≡ failed e))
Sys-cases (done a) = inl (a, refl)
Sys-cases (failed e) = inr (e, refl)

module _ {State : Type 0} (vm : ProcessVm State) (byte : State → ℕ → ℕ → ℕ)
    (laws : IsProcessVm vm byte) (pid : ℕ) where
  -- A buffer keeps its length, its front is the memory that was read, its rest is as before.
  pub process_read_bytes_lem :
      (buf : List ℕ) (addr : ℕ) (s : State) (n : ℕ)
      → (process_read_bytes vm pid buf addr s).0 ≡ ok n
      → (n ≤ length buf)
        × (length (process_read_bytes vm pid buf addr s).1 ≡ length buf)
        × ((i : ℕ)
            → get_or (process_read_bytes vm pid buf addr s).1 i 0
              ≡ (if ltb i n then byte s pid (addr + i) else get_or buf i 0))
  unfolding process_read_bytes
  process_read_bytes_lem buf addr s n h = elim (Sys-cases (vm.readv pid addr (length buf) s)) [
    | inr (e, failed_call) ↦ ground arith
    | inl (bs, done_call) ↦
        let fits : length bs ≤ length buf = laws.readv_le pid addr (length buf) s bs done_call in
        let count : n ≡ length bs = ground arith in
        rw (done_call, count, process_read_bytes)
          (
            fits,
            omega (arith, length-append bs (drop (length bs) buf), length-drop (length bs) buf),
            λ i. ground (
              arith,
              laws.readv_bytes pid addr (length buf) s bs i done_call,
              get_or-append_left bs (drop (length bs) buf) i 0,
              get_or-append_right bs (drop (length bs) buf) i 0,
              get_or-drop (length bs) buf (i - length bs) 0,
            ),
          )
  ]

  -- A whole read gives `len` bytes, those of the memory.
  pub process_read_lem :
      (len addr : ℕ) (s : State) (bs : List ℕ)
      → process_read vm pid len addr s ≡ ok bs
      → (length bs ≡ len) × ((i : ℕ) → i < len → get_or bs i 0 ≡ byte s pid (addr + i))
  unfolding process_read
  process_read_lem len addr s bs h =
      let buf = replicate len 0 in
      let r = process_read_bytes vm pid buf addr s in
      let all : r.0 ≡ ok len = ground arith in
      let facts = process_read_bytes_lem buf addr s len all in
      let out : r.1 ≡ bs = ground arith in
      rw (← out)
        (omega (arith, facts.1, length-replicate {A = ℕ} len 0), λ i p. ground (arith, facts.2 i))

  pub process_write_bytes_lem :
      (addr : ℕ) (val : List ℕ) (s : State) (n : ℕ)
      → (process_write_bytes vm pid addr val s).0 ≡ ok n
      → (n ≤ length val)
        × ((q a : ℕ)
            → byte (process_write_bytes vm pid addr val s).1 q a ≡ (
                if q == pid && (leb addr a && ltb a (addr + n))
                then get_or val (a - addr) 0
                else byte s q a))
  unfolding process_write_bytes
  process_write_bytes_lem addr val s n h = elim (Sys-cases (vm.writev pid addr val s).0) [
    | inr (e, failed_call) ↦ ground arith
    | inl (m, done_call) ↦
        let count : m ≡ n = ground arith in
        let e : (vm.writev pid addr val s).0 ≡ done n = rw (← count) done_call in
        (laws.writev_le pid addr val s n e, λ q a. laws.writev_bytes pid addr val s n q a e)
  ]

  pub process_write_lem :
      (addr : ℕ) (val : List ℕ) (s : State)
      → (process_write vm pid addr val s).0 ≡ ok tt
      → (q a : ℕ)
      → byte (process_write vm pid addr val s).1 q a ≡ (
          if q == pid && (leb addr a && ltb a (addr + length val))
          then get_or val (a - addr) 0
          else byte s q a)
  unfolding process_write
  process_write_lem addr val s h q a = elim (Sys-cases (vm.writev pid addr val s).0) [
    | inr (e, failed_call) ↦ ground arith
    | inl (m, done_call) ↦ ground (arith, laws.writev_bytes pid addr val s m q a done_call)
  ]

module _ {State : Type 0} (vm : ProcessVm State) (pid : ℕ) where
  pub process_write_bytes_done :
      (addr : ℕ) (val : List ℕ) (s : State) (n : ℕ)
      → (vm.writev pid addr val s).0 ≡ done n
      → (process_write_bytes vm pid addr val s).0 ≡ ok n
  unfolding process_write_bytes
  process_write_bytes_done addr val s n e = rw e refl

  pub process_read_bytes_done :
      (buf : List ℕ) (addr : ℕ) (s : State) (bs : List ℕ)
      → vm.readv pid addr (length buf) s ≡ done bs
      → (process_read_bytes vm pid buf addr s).0 ≡ ok (length bs)
  unfolding process_read_bytes
  process_read_bytes_done buf addr s bs e = rw e refl
