-- ===== src/Irq.antt =====
-- kernel/irq.c: the table of interrupt handlers and the registers of the interrupt controller.
-- Writes to registers are listed, the newest first; a handler is its address.
use dragoon_kernel.Prelude.{
  ℕ, ◌+◌, ◌*◌, ◌/◌, ◌%◌, ◌^◌, Option, none, some, List, ◌∷◌, update, ltb, leb, if◌then◌else◌,
  for_range, ◌-◌,
}

abbrev pub max_irq : ℕ
max_irq = 256

abbrev pub gicd_base : ℕ
gicd_base = 134217728

abbrev pub gicc_base : ℕ
gicc_base = 134283264

pub record Irq : Type 0 where
  pub irq_handlers : ℕ → Option ℕ
  pub writes : List (ℕ × ℕ)

abbrev pub gic_write : ℕ → ℕ → Irq → Irq
gic_write addr val s = record s { writes = (addr, val) ∷ s.writes }

pub gic_cpu_init : Irq → Irq
gic_cpu_init s = gic_write gicc_base 1 (gic_write (gicc_base + 4) 255 s)

pub irq_register : ℕ → ℕ → Irq → Irq
irq_register irq handler s =
    if ltb irq max_irq
    then record s { irq_handlers = update s.irq_handlers irq (some handler) }
    else s

-- The enabling register of an interrupt, and its bit.
pub irq_enable : ℕ → Irq → Irq
irq_enable irq s = gic_write (gicd_base + 256 + irq / 32 * 4) (2 ^ (irq % 32)) s

pub irq_disable : ℕ → Irq → Irq
irq_disable irq s = gic_write (gicd_base + 384 + irq / 32 * 4) (2 ^ (irq % 32)) s

-- The same value to `n` registers from the `i`th on.
abbrev pub fill_registers : ℕ → ℕ → ℕ → ℕ → Irq → Irq
fill_registers base i n val s = for_range n i (λ j t. gic_write (base + j * 4) val t) s

-- `typer` is what the distributor says of itself, `ipi_handler` the address of that function.
pub irq_init : ℕ → ℕ → Irq → Irq
irq_init typer ipi_handler s =
    let supported = (typer % 32 + 1) * 32 in
    let n = if ltb max_irq supported then max_irq else supported in
    let cleared = record s {
      irq_handlers = λ i. if ltb i max_irq then none else s.irq_handlers i;
    } in
    let off =
      fill_registers (gicd_base + 384) 0 (n / 32) 4294967295 (gic_write gicd_base 0 cleared) in
    let calm = fill_registers (gicd_base + 640) 0 (n / 32) 4294967295 off in
    let even = fill_registers (gicd_base + 1024) 0 (n / 4) 2694881440 calm in
    let aimed = fill_registers (gicd_base + 2048) 8 (n / 4 - 8) 16843009 even in
    irq_enable 0 (irq_register 0 ipi_handler (gic_cpu_init (gic_write gicd_base 1 aimed)))

-- `run` is what a handler does, `iar` what the controller says of the interrupt.
module _ (run : ℕ → ℕ → Irq → Irq) where
  pub irq_handle : ℕ → Irq → Irq
  irq_handle iar s =
      let irq = iar % 1024 in
      let handled = elim (if ltb irq max_irq then s.irq_handlers irq else none) as (λ _. Irq) [
        | none ↦ s
        | some h ↦ run h irq s
      ] in
      if leb 1020 irq then s else gic_write (gicc_base + 16) iar handled
