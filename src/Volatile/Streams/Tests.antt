-- ===== src/Volatile/Streams/Tests.antt =====
-- A reader that follows a script.
use vm_memory.Volatile.{compute_offset, VolatileSlice, compute_end_offset}
use vm_memory.Volatile.Streams.{read_from}
use vm_memory.Volatile.Streams.Ends.{
  Fitting, IsReader, SettlesAfter, Settles, ReadsFrom, read_from-ReadsFrom,
}
use vm_memory.Base.{ℕ, ◌≡◌, refl, List, [], ◌∷◌, arith, take, length-take, ok}
use vm_memory.CopySlice.{Mem}
use vm_memory.Bytes.{Io, got, interrupted, io_failed, Reader}

abbrev Script : Type 0
Script = List (Io (List ℕ))

abbrev cut : ℕ → Io (List ℕ) → Io (List ℕ)
cut len (got bs) = got (take len bs)
cut len interrupted = interrupted
cut len (io_failed e) = io_failed e

abbrev read_script : ℕ → Script → Io (List ℕ) × Script
read_script len [] = (got [], [])
read_script len (x ∷ xs) = (cut len x, xs)

abbrev scripted : Reader Script
scripted = record { read = read_script }

cut-Fitting : (len : ℕ) (x : Io (List ℕ)) → Fitting scripted len (cut len x)
cut-Fitting len (got bs) = omega (arith, length-take len bs)
cut-Fitting len interrupted = tt
cut-Fitting len (io_failed e) = tt

scripted-IsReader : IsReader scripted
scripted-IsReader len [] = omega arith
scripted-IsReader len (x ∷ xs) = cut-Fitting len x

-- One interruption, and then more than the buffer takes.
abbrev twice : Script
twice = interrupted ∷ got (7 ∷ 8 ∷ 9 ∷ []) ∷ []

abbrev zeros : Mem
zeros a = 0

abbrev area : VolatileSlice
area = record { addr = 16; size = 39 }

twice-Settles : Settles scripted 2 2 twice
unfolding Settles SettlesAfter
twice-Settles = tt

read_run : (read_from area 5 scripted 2 twice 2 zeros).0 ≡ ok 2
unfolding read_from compute_end_offset compute_offset
read_run = refl

read_from-ReadsFrom_example :
    ReadsFrom scripted area 5 2 zeros twice (read_from area 5 scripted 2 twice 2 zeros)
read_from-ReadsFrom_example =
    read_from-ReadsFrom scripted scripted-IsReader area 5 2 2 zeros twice twice-Settles
