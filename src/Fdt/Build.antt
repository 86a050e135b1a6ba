-- ===== src/Fdt/Build.antt =====
-- The device tree that `fdt_build_riscvemu` of src/device/fdt.c leaves in the memory.
use riscvemu.Base.{
  ℕ, ◌≤◌, ◌≡◌, ◌∙◌, inl, inr, refl, sym, ap, true, Bool-cases, ◌&&◌, nonzero, List, [], ◌∷◌, ◌++◌,
  ◌+◌, none, Option, some, ◌>>=◌, bind_some, bind_assoc, bind_congr, length, arith,
}
use riscvemu.Fdt.{
  FdtBuilder, fdt_max_buf, fdt_struct_max, fdt_builder_init, fdt_node_pop, fdt_prop_cells1,
  fdt_prop_cells2, fdt_prop_interrupt_parent,
}
use riscvemu.Memory.{mem_size}
use riscvemu.Fdt.Serialize.{fdt_serialize}
use riscvemu.Fdt.Tokens.{
  Call, pop, call, run, tokens, structure, names, final_depth, token, encode, encode_token, name_of,
  step_depth,
}
use riscvemu.Fdt.Filled.{strings_max}
use riscvemu.Fdt.Reader.{are_named, is_named, is_text}
use riscvemu.Fdt.Reader.Images.{IsReadable, fdt_serialize-IsReadable}
use riscvemu.Fdt.Tree.{
  fresh_builder, fdt_root, fdt_chosen, fdt_initrd, fdt_memory, fdt_cpus, fdt_cpu, fdt_cpu_intc,
  fdt_soc, fdt_build_clint, fdt_build_plic, fdt_build_uart, build_tree, fdt_build_riscvemu,
}
use riscvemu.Fdt.Calls.{
  root_calls, chosen_calls, initrd_calls, memory_calls, cpus_calls, cpu_calls, cpu_intc_calls,
  soc_calls, clint_calls, plic_calls, uart_calls, machine_calls,
}

-- The parts of the tree are the calls that they list.
module _ (b : FdtBuilder) where
  fdt_root-run : fdt_root b ≡ run root_calls b
  unfolding fdt_root call run fdt_prop_cells1 fdt_prop_interrupt_parent
  fdt_root-run = refl

  fdt_chosen-run : fdt_chosen b ≡ run chosen_calls b
  unfolding fdt_chosen call run fdt_prop_cells1 fdt_prop_interrupt_parent
  fdt_chosen-run = refl

  fdt_memory-run : fdt_memory b ≡ run memory_calls b
  unfolding fdt_memory call run fdt_prop_cells1 fdt_prop_interrupt_parent
  fdt_memory-run = refl

  fdt_cpus-run : fdt_cpus b ≡ run cpus_calls b
  unfolding fdt_cpus call run fdt_prop_cells1 fdt_prop_interrupt_parent
  fdt_cpus-run = refl

  fdt_cpu-run : fdt_cpu b ≡ run cpu_calls b
  unfolding fdt_cpu call run fdt_prop_cells1 fdt_prop_interrupt_parent
  fdt_cpu-run = refl

  fdt_cpu_intc-run : fdt_cpu_intc b ≡ run cpu_intc_calls b
  unfolding fdt_cpu_intc call run fdt_prop_cells1 fdt_prop_interrupt_parent
  fdt_cpu_intc-run = refl

  fdt_soc-run : fdt_soc b ≡ run soc_calls b
  unfolding fdt_soc call run fdt_prop_cells1 fdt_prop_interrupt_parent
  fdt_soc-run = refl

  fdt_build_clint-run : fdt_build_clint b ≡ run clint_calls b
  unfolding fdt_build_clint call run fdt_prop_cells1 fdt_prop_interrupt_parent
  fdt_build_clint-run = refl

  fdt_build_plic-run : fdt_build_plic b ≡ run plic_calls b
  unfolding fdt_build_plic call run fdt_prop_cells1 fdt_prop_interrupt_parent
  fdt_build_plic-run = refl

  fdt_build_uart-run : fdt_build_uart b ≡ run uart_calls b
  unfolding fdt_build_uart call run fdt_prop_cells1 fdt_prop_interrupt_parent
  fdt_build_uart-run = refl

  fdt_initrd-run :
      (initrd_start initrd_end : ℕ)
      → fdt_initrd initrd_start initrd_end b ≡ run (initrd_calls initrd_start initrd_end) b
  unfolding fdt_initrd call run fdt_prop_cells2
  fdt_initrd-run initrd_start initrd_end =
      elim (Bool-cases (nonzero initrd_start && nonzero initrd_end)) [ inl e ↦ rw e | inr e ↦ rw e ]

  pop-run : fdt_node_pop b ≡ run (pop ∷ []) b
  unfolding call run
  pop-run = sym (bind_some (fdt_node_pop b))

run-append : (xs ys : List Call) (b : FdtBuilder) → run (xs ++ ys) b ≡ (run xs b >>= run ys)
unfolding run
run-append [] ys b = refl
run-append (x ∷ xs) ys b =
    bind_congr (call x b) (run (xs ++ ys)) (λ c. run xs c >>= run ys) (run-append xs ys)
    ∙ sym (bind_assoc (call x b) (run xs) (run ys))

module _ {A : Type 0} (last : FdtBuilder → Option A) where
  run-nil : (b : FdtBuilder) → last b ≡ (run [] b >>= last)
  unfolding run
  run-nil b = refl

  -- A part before the rest of a build.
  part-then :
      {part : FdtBuilder → Option FdtBuilder} {rest : FdtBuilder → Option A} (xs ys : List Call)
      → ((b : FdtBuilder) → part b ≡ run xs b)
      → ((b : FdtBuilder) → rest b ≡ (run ys b >>= last))
      → (b : FdtBuilder) → (part b >>= rest) ≡ (run (xs ++ ys) b >>= last)
  part-then {rest} xs ys first second b =
      rw (first b, run-append xs ys b)
        (bind_congr (run xs b) rest (λ c. run ys c >>= last) second
          ∙ sym (bind_assoc (run xs b) (run ys) last))

build-run :
    (addr initrd_start initrd_end : ℕ) (memory : ℕ → ℕ)
    → build_tree addr initrd_start initrd_end memory ≡ (
        run (machine_calls initrd_start initrd_end) (fdt_builder_init (fresh_builder addr memory))
        >>= λ b. some (fdt_serialize b))
unfolding build_tree
build-run addr initrd_start initrd_end memory =
    let last = λ (b : FdtBuilder). some (fdt_serialize b) in
    let closed = part-then last (pop ∷ []) [] pop-run (run-nil last) in
    let devices = part-then last clint_calls _ fdt_build_clint-run (
      part-then last plic_calls _ fdt_build_plic-run
        (part-then last uart_calls _ fdt_build_uart-run closed)) in
    let cpus = part-then last cpus_calls _ fdt_cpus-run (
      part-then last cpu_calls _ fdt_cpu-run (
        part-then last cpu_intc_calls _ fdt_cpu_intc-run
          (part-then last soc_calls _ fdt_soc-run devices))) in
    let memory_on =
      part-then last (pop ∷ []) _ pop-run (part-then last memory_calls _ fdt_memory-run cpus) in
    part-then last root_calls _ fdt_root-run
      (part-then last chosen_calls _ fdt_chosen-run (
        part-then last (initrd_calls initrd_start initrd_end) _
          (λ b. fdt_initrd-run b initrd_start initrd_end) memory_on))
      (fdt_builder_init (fresh_builder addr memory))

-- With and without a separate archive, every node is closed and the two blocks fit.
module _ (initrd_start initrd_end : ℕ) where
  machine_calls-closed : final_depth (machine_calls initrd_start initrd_end) 0 ≡ some 0
  unfolding final_depth step_depth
  machine_calls-closed = elim (Bool-cases (nonzero initrd_start && nonzero initrd_end)) [
    | inl e ↦ rw e
    | inr e ↦ rw e
  ]

  structure-fits :
      length (structure (tokens (machine_calls initrd_start initrd_end))) ≤ fdt_struct_max
  unfolding structure tokens token encode encode_token name_of
  structure-fits = elim (Bool-cases (nonzero initrd_start && nonzero initrd_end)) [
    | inl e ↦ rw e (omega arith)
    | inr e ↦ rw e (omega arith)
  ]

  names-fit : length (names (tokens (machine_calls initrd_start initrd_end))) ≤ strings_max
  unfolding names tokens token name_of
  names-fit = elim (Bool-cases (nonzero initrd_start && nonzero initrd_end)) [
    | inl e ↦ rw e (omega arith)
    | inr e ↦ rw e (omega arith)
  ]

machine_calls-named :
    (initrd_start initrd_end : ℕ)
    → are_named (tokens (machine_calls initrd_start initrd_end)) ≡ true
unfolding are_named is_named is_text tokens token
machine_calls-named initrd_start initrd_end =
    elim (Bool-cases (nonzero initrd_start && nonzero initrd_end)) [ inl e ↦ rw e | inr e ↦ rw e ]

-- For every place of an initial archive, every memory and every address whose next 16 KiB lie in
-- the main memory, building the device tree succeeds, and the reader finds the nodes and properties
-- of `machine_calls` in the bytes at the address, as many as are returned; no byte outside of the
-- 16 KiB at the address has changed, so none past the end of the memory. Without a memory the
-- result is 0.
pub fdt_build_riscvemu-IsReadable :
    (addr initrd_start initrd_end : ℕ) (memory : ℕ → ℕ)
    → addr + fdt_max_buf ≤ mem_size
    → (fdt_build_riscvemu addr initrd_start initrd_end none ≡ none)
      × (r : ℕ × FdtBuilder) × (fdt_build_riscvemu addr initrd_start initrd_end (some memory)
          ≡ some r)
      × IsReadable (tokens (machine_calls initrd_start initrd_end)) (fresh_builder addr memory) r
      × ((j : ℕ) → mem_size ≤ j → r.1.memory j ≡ memory j)
unfolding fdt_build_riscvemu IsReadable
fdt_build_riscvemu-IsReadable addr initrd_start initrd_end memory inside =
    let (d, done, (found, frame)) =
      fdt_serialize-IsReadable (machine_calls initrd_start initrd_end) (fresh_builder addr memory)
        (machine_calls-closed initrd_start initrd_end) (machine_calls-named initrd_start initrd_end)
        (structure-fits initrd_start initrd_end) (names-fit initrd_start initrd_end) in
    (
      refl,
      fdt_serialize d,
      build-run addr initrd_start initrd_end memory
          ∙ ap (λ (o : Option FdtBuilder). o >>= λ b. some (fdt_serialize b)) done,
      (found, frame),
      λ j past. frame j (inr (omega (arith, past, inside))),
    )
