-- ===== src/Descriptors/Tests.antt =====
-- Witnesses for gdt.c and idt.c.
use mazuki_os.Base.{
  ℕ, ◌^◌, ◌%◌, ◌/◌, ◌≡◌, ◌≢◌, ◌<◌, some, arith, get_elem?, replicate, length-replicate,
}
use mazuki_os.Descriptors.{
  GdtEntry, Gdt, gdt_set_entry, IdtEntry, Idt, idt_install, idt_register_handler,
}
use mazuki_os.Descriptors.Decode.{segment_of, gdt_set_entry_lem, Reads, idt_install-register}

abbrev zero_entry : GdtEntry
zero_entry = record {
  limit_low = 0;
  base_low = 0;
  base_middle = 0;
  access = 0;
  granularity = 0;
  base_high = 0;
}

abbrev zeroed_gdt : Gdt
zeroed_gdt = record { gdt = replicate 8 zero_entry; gp_limit = 0 }

gdt_set_entry_lem_example :
    ((e : GdtEntry) × (get_elem? (gdt_set_entry 5 305419896 1048575 137 64 zeroed_gdt).gdt 5
        ≡ some e)
      × (segment_of e
          ≡ record { base = 305419896; limit = 1048575 % 2 ^ 20; rights = 137; options = 64 / 16 }))
    × ((k : ℕ)
        → k ≢ 5
        → get_elem? (gdt_set_entry 5 305419896 1048575 137 64 zeroed_gdt).gdt k
          ≡ get_elem? zeroed_gdt.gdt k)
gdt_set_entry_lem_example =
    gdt_set_entry_lem 5 305419896 1048575 137 64 zeroed_gdt (omega arith) (omega arith)
      (omega arith)

abbrev zero_gate : IdtEntry
zero_gate = record { base_low = 0; sel = 0; always0 = 0; flags = 0; base_high = 0 }

abbrev zeroed_idt : Idt
zeroed_idt = record { idt = replicate 256 zero_gate; idtp_limit = 0 }

-- The keyboard's vector.
idt_install-register_example :
    Reads
      (idt_register_handler 33 1118481 142 (idt_install 1052672 zeroed_idt))
      33
      (record { handler = 1118481; selector = 8; kind = 142 })
    × ((k : ℕ)
        → k < 256
        → k ≢ 33
        → Reads
            (idt_register_handler 33 1118481 142 (idt_install 1052672 zeroed_idt))
            k
            (record { handler = 1052672; selector = 8; kind = 142 }))
idt_install-register_example =
    idt_install-register 1052672 33 1118481 142 zeroed_idt
      (length-replicate {A = IdtEntry} 256 zero_gate) (omega arith) (omega arith) (omega arith)
