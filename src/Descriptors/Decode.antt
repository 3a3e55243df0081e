-- ===== src/Descriptors/Decode.antt =====
-- What the processor reads in the entries that gdt.c and idt.c write.
use mazuki_os.Base.{
  ℕ, zero, suc, ◌+◌, ◌-◌, ◌*◌, ◌/◌, ◌%◌, ◌^◌, ◌≤◌, ◌<◌, ◌≡◌, ◌≢◌, refl, sym, ap, subst, ◌∙◌, some,
  arith, length, get_elem?, length-set, get_elem?-set_self, get_elem?-set_ne, ℕ_discrete, for_each,
}
use mazuki_os.Descriptors.{
  GdtEntry, Gdt, gdt_set_entry, IdtEntry, Idt, idt_set_gate, idt_install, idt_register_handler,
}

-- The fields of a segment descriptor, put together as the processor does.
pub record Segment : Type 0 where
  pub base : ℕ
  pub limit : ℕ
  pub rights : ℕ
  pub options : ℕ

abbrev pub segment_of : GdtEntry → Segment
segment_of e = record {
  base = e.base_high * 2 ^ 24 + e.base_middle * 2 ^ 16 + e.base_low;
  limit = e.granularity % 16 * 2 ^ 16 + e.limit_low;
  rights = e.access;
  options = e.granularity / 16;
}

-- For an index in the table, the entry that `gdt_set_entry` writes reads back as the 32-bit base, the
-- low 20 bits of the limit, the access byte and the high half of `gran`; the other entries stay.
pub gdt_set_entry_lem :
    (num base limit access gran : ℕ) (g : Gdt)
    → num < length g.gdt
    → base < 2 ^ 32
    → gran < 256
    → ((e : GdtEntry) × (get_elem? (gdt_set_entry num base limit access gran g).gdt num ≡ some e)
        × (segment_of e
            ≡ record { base = base; limit = limit % 2 ^ 20; rights = access; options = gran / 16 }))
      × ((k : ℕ)
          → k ≢ num
          → get_elem? (gdt_set_entry num base limit access gran g).gdt k ≡ get_elem? g.gdt k)
unfolding gdt_set_entry
gdt_set_entry_lem num base limit access gran g h b r = (
  (_, get_elem?-set_self g.gdt num _ h, fields (omega arith) (omega arith) (omega arith)),
  λ k ne. get_elem?-set_ne g.gdt num k _ (λ e. ne (sym e)),
)
  where
    fields :
        {x y z x' y' z' : ℕ}
        → x ≡ x'
        → y ≡ y'
        → z ≡ z'
        → ◌≡◌ {A = Segment}
            (record { base = x; limit = y; rights = access; options = z })
            (record { base = x'; limit = y'; rights = access; options = z' })
    fields e f g = cc

-- The fields of a gate, put together as the processor does.
pub record Gate : Type 0 where
  pub handler : ℕ
  pub selector : ℕ
  pub kind : ℕ

abbrev pub gate_of : IdtEntry → Gate
gate_of e = record { handler = e.base_high * 2 ^ 16 + e.base_low; selector = e.sel; kind = e.flags }

-- The entry at an index reads back as a gate.
abbrev pub Reads : Idt → ℕ → Gate → Type 0
Reads t k g = (e : IdtEntry) × (get_elem? t.idt k ≡ some e) × (gate_of e ≡ g)

abbrev gate : ℕ → ℕ → ℕ → Gate
gate base sel flags = record { handler = base; selector = sel; kind = flags }

length-idt_set_gate :
    (num base sel flags : ℕ) (t : Idt)
    → length (idt_set_gate num base sel flags t).idt ≡ length t.idt
unfolding idt_set_gate
length-idt_set_gate num base sel flags t = length-set t.idt num _

set_gate_self :
    (num base sel flags : ℕ) (t : Idt)
    → num < length t.idt
    → base < 2 ^ 32
    → Reads (idt_set_gate num base sel flags t) num (gate base sel flags)
unfolding idt_set_gate
set_gate_self num base sel flags t h b =
    (_, get_elem?-set_self t.idt num _ h, ap (λ n. gate n sel flags) (omega arith))

set_gate_ne :
    (num base sel flags : ℕ) (t : Idt) (k : ℕ) {g : Gate}
    → num ≢ k
    → Reads t k g
    → Reads (idt_set_gate num base sel flags t) k g
unfolding idt_set_gate
set_gate_ne num base sel flags t k ne (e, at, is) = (e, get_elem?-set_ne t.idt num k _ ne ∙ at, is)

abbrev install_step : ℕ → ℕ → Idt → Idt
install_step handler i t = idt_set_gate i handler 8 142 t

install_loop_kept :
    (handler n first : ℕ) (t : Idt) (k : ℕ) {g : Gate}
    → k < first
    → Reads t k g
    → Reads (for_each n first (install_step handler) t) k g
unfolding for_each
install_loop_kept handler zero first t k lt r = r
install_loop_kept handler (suc n) first t k lt r =
    install_loop_kept handler n (first + 1) (install_step handler first t) k (omega arith)
      (set_gate_ne first handler 8 142 t k (λ e. absurd (omega arith)) r)

install_loop :
    (handler n first : ℕ) (t : Idt) (k : ℕ)
    → handler < 2 ^ 32
    → first + n ≤ length t.idt
    → first ≤ k
    → k < first + n
    → Reads (for_each n first (install_step handler) t) k (gate handler 8 142)
unfolding for_each
install_loop handler zero first t k b room ge lt = absurd (omega arith)
install_loop handler (suc n) first t k b room ge lt = elim (ℕ_discrete first k) [
  | yes e ↦ install_loop_kept handler n (first + 1) (install_step handler first t) k (omega arith) (
      subst (λ j. Reads (install_step handler first t) j (gate handler 8 142)) e
        (set_gate_self first handler 8 142 t (omega arith) b))
  | no ne ↦
      install_loop handler n (first + 1) (install_step handler first t) k b
        (omega (arith, length-idt_set_gate first handler 8 142 t)) (omega arith) (omega arith)
]

length-install_loop :
    (handler n first : ℕ) (t : Idt)
    → length (for_each n first (install_step handler) t).idt ≡ length t.idt
unfolding for_each
length-install_loop handler zero first t = refl
length-install_loop handler (suc n) first t =
    length-install_loop handler n (first + 1) (install_step handler first t)
    ∙ length-idt_set_gate first handler 8 142 t

-- On a table of 256 entries, after `idt_install` and the registration of a handler the vector's gate
-- reads back as that handler with its flags in the kernel's code segment, and every other gate as
-- the default handler's.
pub idt_install-register :
    (default vector handler flags : ℕ) (t : Idt)
    → length t.idt ≡ 256
    → default < 2 ^ 32
    → handler < 2 ^ 32
    → vector < 256
    → Reads
        (idt_register_handler vector handler flags (idt_install default t))
        vector
        (record { handler = handler; selector = 8; kind = flags })
      × ((k : ℕ)
          → k < 256
          → k ≢ vector
          → Reads
              (idt_register_handler vector handler flags (idt_install default t))
              k
              (record { handler = default; selector = 8; kind = 142 }))
unfolding idt_install
idt_install-register default vector handler flags t size d h v =
    let s = record t { idtp_limit = 8 * 256 - 1 } in
    (
      set_gate_self vector handler 8 flags _ (omega (arith, length-install_loop default 256 0 s)) h,
      λ k lt ne.
          set_gate_ne vector handler 8 flags _ k (λ e. ne (sym e))
            (install_loop default 256 0 s k d (omega arith) (omega arith) lt),
    )
