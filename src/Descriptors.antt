-- ===== src/Descriptors.antt =====
-- sys/kernel/gdt.c and sys/kernel/idt.c: the tables of segments and of interrupt gates. The
-- instructions that load them into the processor are left out.
pub mod Decode
mod Tests
use mazuki_os.Base.{ℕ, ◌+◌, ◌-◌, ◌*◌, ◌/◌, ◌%◌, ◌^◌, List, replicate, set, for_each}

pub record GdtEntry : Type 0 where
  pub limit_low : ℕ
  pub base_low : ℕ
  pub base_middle : ℕ
  pub access : ℕ
  pub granularity : ℕ
  pub base_high : ℕ

-- `gp.base` is the address of the table.
pub record Gdt : Type 0 where
  pub gdt : List GdtEntry
  pub gp_limit : ℕ

-- An index outside of the table, which no caller has, changes nothing.
unfoldable pub gdt_set_entry : ℕ → ℕ → ℕ → ℕ → ℕ → Gdt → Gdt
gdt_set_entry num base limit access gran g = record g {
  gdt = set g.gdt num (record {
    limit_low = limit % 2 ^ 16;
    base_low = base % 2 ^ 16;
    base_middle = base / 2 ^ 16 % 256;
    access = access;
    granularity = limit / 2 ^ 16 % 16 + gran / 16 % 16 * 16;
    base_high = base / 2 ^ 24 % 256;
  });
}

-- An entry has 8 bytes.
unfoldable pub gdt_install : Gdt → Gdt
gdt_install g =
    let limited = record g { gp_limit = 8 * 8 - 1 } in
    gdt_set_entry 4 0 4294967295 242 207 (
      gdt_set_entry 3 0 4294967295 250 207 (
        gdt_set_entry 2 0 4294967295 146 207
          (gdt_set_entry 1 0 4294967295 154 207 (gdt_set_entry 0 0 0 0 0 limited))))

pub record IdtEntry : Type 0 where
  pub base_low : ℕ
  pub sel : ℕ
  pub always0 : ℕ
  pub flags : ℕ
  pub base_high : ℕ

-- `idtp.base` is the address of the table.
pub record Idt : Type 0 where
  pub idt : List IdtEntry
  pub idtp_limit : ℕ

unfoldable pub idt_set_gate : ℕ → ℕ → ℕ → ℕ → Idt → Idt
idt_set_gate num base sel flags t = record t {
  idt = set t.idt num (record {
    base_low = base % 2 ^ 16;
    sel = sel;
    always0 = 0;
    flags = flags;
    base_high = base / 2 ^ 16 % 2 ^ 16;
  });
}

abbrev pub idt_register_handler : ℕ → ℕ → ℕ → Idt → Idt
idt_register_handler vector handler_addr flags t = idt_set_gate vector handler_addr 8 flags t

-- `handler_addr` is the address of `default_interrupt_handler`; an entry has 8 bytes.
unfoldable pub idt_install : ℕ → Idt → Idt
idt_install handler_addr t =
    for_each 256 0 (λ i r. idt_set_gate i handler_addr 8 142 r)
      (record t { idtp_limit = 8 * 256 - 1 })
