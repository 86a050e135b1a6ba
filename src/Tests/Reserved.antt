-- ===== src/Tests/Reserved.antt =====
-- Examples of the hash map, of the reservations in it and of the atomic operations.
use riscvemu.Base.{
  ℕ, zero, suc, ◌^◌, ◌≤◌, replicate, ◌<◌, ◌≡◌, ◌≢◌, refl, ap, inl, inr, true, false, Option, none,
  some, bit_and, arith,
}
use riscvemu.Outcome.{running}
use riscvemu.Machine.{Machine, reg_read, reg_write}
use riscvemu.HashmapU32.{
  Hashmap, empty_entry, hashmap_init, hashmap_put, hashmap_remove, put_at, probe, probe_loop,
  hash_uint32,
}
use riscvemu.HashmapU32.Valid.{IsValid, IsChanged, replicate-IsValid, hashmap_put-IsChanged}
use riscvemu.HashmapU32.Grown.{hashmap_put-grown}
use riscvemu.HashmapU32.Removed.{hashmap_remove-IsChanged}
use riscvemu.Csr.Table.{csr_table}
use riscvemu.Csr.Access.{csr_read, run_read, csr_write, run_write}
use riscvemu.Csr.Status.{mstatus_read, mstatus_write}
use riscvemu.System.{
  raise_exception, raise_exception_pc, raise_machine_exception, delegate_to_s, clear_reservations,
  machine_entry_status,
}
use riscvemu.Memory.{mem_write32, mem_clear_reservation, mem_read32_unsigned, load_le}
use riscvemu.Mmu.Access.{mmu_read32_unsigned}
use riscvemu.Mmu.{
  mmu_translate, mmu_vm_active, mmu_satp_mode, mmu_satp_root_ppn, mmu_effective_dpriv, walk,
  walk_entry, walk_table, leaf, mmu_check_pte,
}
use riscvemu.Atomic.{get_reservation_key, get_reserve_status, insa_r_lr_w, insa_r_sc_w}
use riscvemu.Atomic.Amo.{amo, add_word}
use riscvemu.Atomic.Faults.{amo-fault}
use riscvemu.Atomic.Reservations.{store-insa_r_sc_w, insa_r_lr_w-get}
use riscvemu.Tests.{user_hart}
use riscvemu.Tests.Space.{paged, faulted, unmapped}

init-IsValid : IsValid hashmap_init
unfolding hashmap_init
init-IsValid = replicate-IsValid 128 (omega arith)

abbrev reserved_map : Hashmap
reserved_map = hashmap_put true 0x2C 1 hashmap_init

-- A table of four slots that the fourth key makes grow.
abbrev four : ℕ → Hashmap
four zero = record {
  entries = replicate 4 empty_entry;
  capacity = 4;
  size = 0;
  tombstone_count = 0;
}
four (suc n) = hashmap_put true n 7 (four n)

four-IsValid : IsValid (four 3) × (0 < (four 3).capacity) × ((four 3).capacity ≤ 2 ^ 22)
unfolding IsChanged hashmap_put put_at probe probe_loop hash_uint32
four-IsValid =
    let a =
      hashmap_put-IsChanged true 0 7 (four 0) (replicate-IsValid 4 (omega arith)) (omega arith)
        refl in
    let b = hashmap_put-IsChanged true 1 7 (four 1) a.0 (omega arith) refl in
    let c = hashmap_put-IsChanged true 2 7 (four 2) b.0 (omega arith) refl in
    (c.0, omega arith, omega arith)

hashmap_put-grown_example : IsChanged 0x2C (some 1) (four 3) (hashmap_put true 0x2C 1 (four 3))
hashmap_put-grown_example =
    hashmap_put-grown 0x2C 1 (four 3) four-IsValid.0 four-IsValid.1 four-IsValid.2

reserved-IsValid : IsValid reserved_map
unfolding IsChanged hashmap_init
reserved-IsValid =
    (hashmap_put-IsChanged true 0x2C 1 hashmap_init init-IsValid (omega arith) refl).0

reserved_capacity : 0 < reserved_map.capacity
unfolding hashmap_init hashmap_put put_at probe probe_loop hash_uint32
reserved_capacity = ground arith

hashmap_remove-IsChanged_example :
    IsChanged 0x2C none reserved_map (hashmap_remove 0x2C reserved_map).1
hashmap_remove-IsChanged_example =
    hashmap_remove-IsChanged 0x2C reserved_map reserved-IsValid reserved_capacity

abbrev reserving : Machine
reserving = record (user_hart) { mmu_flags = reserved_map }

same_word :
    get_reservation_key (reg_read 4 (mem_write32 0x2E 7 reserving)) ≡ get_reservation_key 0x2E
unfolding get_reservation_key reg_read mem_write32 mem_clear_reservation
same_word = refl

aligned : bit_and (reg_read 4 (mem_write32 0x2E 7 reserving)) 3 ≡ 0
unfolding reg_read mem_write32 mem_clear_reservation
aligned = refl

store-insa_r_sc_w_example :
    let t = mem_write32 0x2E 7 reserving in insa_r_sc_w true 4 5 6 t ≡ running (reg_write 6 1 t)
store-insa_r_sc_w_example =
    store-insa_r_sc_w true 4 5 6 0x2E 7 reserving (mem_write32 0x2E 7 reserving)
      (inr (inr (inl refl))) same_word aligned reserved-IsValid reserved_capacity

abbrev unreserved : Machine
unreserved = record (user_hart) { mmu_flags = hashmap_init }

other_word : get_reservation_key 0x200 ≢ get_reservation_key 0x2C
unfolding get_reservation_key
other_word e = absurd (omega arith)

insa_r_lr_w-get_example :
    (t : Machine) × (insa_r_lr_w true 4 6 unreserved ≡ running t)
    × (get_reserve_status 0x2C t ≡ true)
    × (get_reserve_status 0x200 t
        ≡ get_reserve_status 0x200 (mmu_read32_unsigned 0x2C unreserved).1)
    × (t.gpr
        ≡ (reg_write 6
            (mmu_read32_unsigned 0x2C unreserved).0
            (mmu_read32_unsigned 0x2C unreserved).1).gpr)
    × (t.pc ≡ (mmu_read32_unsigned 0x2C unreserved).1.pc)
unfolding reg_read mmu_read32_unsigned mmu_translate mmu_vm_active mmu_effective_dpriv mmu_satp_mode
    mem_read32_unsigned load_le csr_read run_read csr_table mstatus_read hashmap_init
insa_r_lr_w-get_example =
    insa_r_lr_w-get 4 6 0x200 unreserved refl init-IsValid (omega arith) (omega arith) other_word

machine_after : mmu_vm_active (mmu_effective_dpriv faulted) faulted ≡ false
unfolding mmu_translate mmu_vm_active mmu_satp_mode mmu_effective_dpriv walk walk_entry walk_table
    leaf mmu_satp_root_ppn mmu_check_pte mem_read32_unsigned load_le csr_read run_read csr_table
    mstatus_read raise_exception raise_exception_pc raise_machine_exception delegate_to_s
    clear_reservations csr_write run_write mstatus_write machine_entry_status
machine_after = refl

amo-fault_example : amo add_word 0x5234 9 3 paged ≡ reg_write 3 0 (mem_write32 0x5234 9 faulted)
amo-fault_example =
    amo-fault add_word 0x5234 9 3 paged faulted (ap (λ (o : Option ℕ). (o, faulted)) unmapped)
      machine_after
