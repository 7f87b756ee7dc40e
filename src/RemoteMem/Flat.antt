-- ===== src/RemoteMem/Flat.antt =====
-- A concrete pair of system calls that meets `IsProcessVm`: processes whose address spaces are
-- accessible everywhere, so that every call transfers all it is asked for.
use vm_memory.Base.{
  ℕ, zero, suc, ◌+◌, ◌-◌, ◌<◌, ◌≡◌, refl, ap, ◌∙◌, ◌&&◌, List, [], ◌∷◌, arith, ltb, leb, ◌==◌,
  if◌then◌else◌, length, get_or,
}
use vm_memory.RemoteMem.{done, ProcessVm, IsProcessVm}

abbrev pub Space : Type 0
Space = ℕ → ℕ → ℕ

unfoldable pub tabulate : ℕ → ℕ → (ℕ → ℕ) → List ℕ
tabulate base zero f = []
tabulate base (suc n) f = f base ∷ tabulate (base + 1) n f

abbrev pub overwrite : ℕ → ℕ → List ℕ → Space → Space
overwrite pid base bs s q a =
    if q == pid && (leb base a && ltb a (base + length bs)) then get_or bs (a - base) 0 else s q a

abbrev pub flat : ProcessVm Space
flat = record {
  readv = λ pid base len s. done (tabulate base len (s pid));
  writev = λ pid base bs s. (done (length bs), overwrite pid base bs s);
}

abbrev pub flat_byte : Space → ℕ → ℕ → ℕ
flat_byte s pid a = s pid a

pub length-tabulate : (base n : ℕ) (f : ℕ → ℕ) → length (tabulate base n f) ≡ n
unfolding tabulate
length-tabulate base zero f = refl
length-tabulate base (suc n) f = ap suc (length-tabulate (base + 1) n f)

pub get_or-tabulate :
    (base n : ℕ) (f : ℕ → ℕ) (i : ℕ) → i < n → get_or (tabulate base n f) i 0 ≡ f (base + i)
unfolding tabulate
get_or-tabulate base zero f i h = absurd (omega arith)
get_or-tabulate base (suc n) f zero h = ap f (omega arith)
get_or-tabulate base (suc n) f (suc i) h =
    get_or-tabulate (base + 1) n f i (omega arith) ∙ ap f (omega arith)

done_inj : {A : Type 0} {a b : A} → done a ≡ done b → a ≡ b
done_inj h = cc

pub flat-IsProcessVm : IsProcessVm flat flat_byte
unfolding tabulate
flat-IsProcessVm = record {
  readv_le =
      λ pid base len s bs h. rw (← done_inj h) (omega (arith, length-tabulate base len (s pid)));
  readv_bytes = λ pid base len s bs i h p.
      let e : tabulate base len (s pid) ≡ bs = done_inj h in
      let q : i < len = omega (arith, ap length e, length-tabulate base len (s pid)) in
      rw (← e) (get_or-tabulate base len (s pid) i q);
  writev_le = λ pid base bs s n h. omega (arith, done_inj h);
  writev_bytes = λ pid base bs s n q a h. rw (← done_inj h) refl;
  writev_failed = λ pid base bs s e q a h. cc;
}
