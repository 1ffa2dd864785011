-- ===== src/Entry/Frame.antt =====
-- The stack and the registers when an entry point calls its handler.
use cosmo.Bits.{test_bit, test_bit-and, bit_and_above, bit_and_low}
use cosmo.Cpu.{Cpu}
use cosmo.Cpu.Stack.{IsStacked, Holds-store32, push_words, push_words-IsStacked, push_words-above}
use cosmo.Entry.{pass_context}
use cosmo.Memory.{load32, load8-store32_ne, load32-store32_self}
use cosmo.Prelude.{
  ℕ, ◌+◌, ◌-◌, ◌*◌, ◌/◌, ◌%◌, ◌^◌, ◌<◌, ◌≤◌, ◌≡◌, refl, ap, ◌∙◌, arith, List, [], ◌∷◌, bit_and,
  not32, sub32, u32, inr,
}

-- The registers that an interrupt must not change hold values of their widths.
pub record IsCpu (c : Cpu) : Type 0 where
  pub eax_fits : c.eax < 2 ^ 32
  pub ecx_fits : c.ecx < 2 ^ 32
  pub edx_fits : c.edx < 2 ^ 32
  pub ebx_fits : c.ebx < 2 ^ 32
  pub ebp_fits : c.ebp < 2 ^ 32
  pub esi_fits : c.esi < 2 ^ 32
  pub edi_fits : c.edi < 2 ^ 32
  pub esp_fits : c.esp < 2 ^ 32
  pub ds_fits : c.ds < 2 ^ 16
  pub es_fits : c.es < 2 ^ 16
  pub fs_fits : c.fs < 2 ^ 16
  pub gs_fits : c.gs < 2 ^ 16
  pub cs_fits : c.cs < 2 ^ 16
  pub cr2_fits : c.cr2 < 2 ^ 32
  pub eip_fits : c.eip < 2 ^ 32
  pub eflags_fits : c.eflags < 2 ^ 32

-- The words in the order in which the processor and an entry point push them.
abbrev pub pushed_words : Cpu → ℕ → ℕ → List ℕ
pushed_words c n error =
    c.eflags ∷ c.cs ∷ c.eip ∷ error ∷ n ∷ c.eax ∷ c.ecx ∷ c.edx ∷ c.ebx ∷ c.ebp ∷ c.esi ∷ c.edi
    ∷ c.ds ∷ c.es ∷ c.fs ∷ c.gs ∷ c.cr2 ∷ []

-- The frame of the interrupt `n`, from its lowest address on.
abbrev pub frame : Cpu → ℕ → ℕ → List ℕ
frame c n error =
    c.cr2 ∷ c.gs ∷ c.fs ∷ c.es ∷ c.ds ∷ c.edi ∷ c.esi ∷ c.ebp ∷ c.ebx ∷ c.edx ∷ c.ecx ∷ c.eax ∷ n
    ∷ error ∷ c.eip ∷ c.cs ∷ c.eflags ∷ []

pub pushed_words-IsStacked :
    (c : Cpu) (n error : ℕ)
    → IsCpu c
    → 128 ≤ c.esp
    → n < 2 ^ 32
    → error < 2 ^ 32
    → let p = push_words (pushed_words c n error) c in
      IsStacked c.esp p.memory p.esp (frame c n error)
pushed_words-IsStacked c n error i l b e =
    push_words-IsStacked c.esp (pushed_words c n error) c (omega arith) (omega arith) i.esp_fits
      (record { words = tt; size = omega arith })

pub pushed_words-above :
    (c : Cpu) (n error k : ℕ)
    → IsCpu c
    → 128 ≤ c.esp
    → c.esp ≤ k
    → (push_words (pushed_words c n error) c).memory k ≡ c.memory k
pushed_words-above c n error k i l h =
    push_words-above (pushed_words c n error) c k (omega arith) i.esp_fits h

-- The handler is called with the address of the frame, on a stack of the ABI's alignment, in the
-- kernel's data segment, and with the interrupts disabled.
pub record IsCalled (c : Cpu) (n error : ℕ) (d : Cpu) : Type 0 where
  pub on_stack : IsStacked c.esp d.memory d.ebx (frame c n error)
  pub argument : load32 d.memory d.esp ≡ d.ebx
  pub aligned : d.esp % 16 ≡ 0
  pub below : d.esp + 4 ≤ d.ebx
  pub data_segments : (d.ds ≡ 0x10) × (d.es ≡ 0x10) × (d.fs ≡ 0x10) × (d.gs ≡ 0x10)
  pub disabled : test_bit d.eflags 9 ≡ 0
  -- The interrupted program's memory.
  pub above : (k : ℕ) → c.esp ≤ k → d.memory k ≡ c.memory k

pub cleared_bit : (flags : ℕ) → test_bit (bit_and flags (not32 0x200)) 9 ≡ 0
unfolding test_bit
cleared_bit flags =
    let mask : test_bit (not32 0x200) 9 ≡ 0 = refl in
    omega (arith, test_bit-and flags (not32 0x200) 9, mask)

align_down : (a : ℕ) → a < 2 ^ 32 → bit_and a 0xFFFFFFF0 ≡ a / 16 * 16
align_down a l =
    let parts : a ≡ a / 16 * 2 ^ 4 + a % 16 = omega arith in
    omega (
      arith,
      ap (λ (t : ℕ). bit_and t 0xFFFFFFF0) parts,
      bit_and_above 4 (a / 16) (a % 16) 0x0FFFFFFF (omega arith),
      bit_and_low 28 (a / 16),
    )

pub pass_context_lem :
    {vs : List ℕ} (top : ℕ) (c : Cpu)
    → top < 2 ^ 32
    → 20 ≤ c.esp
    → IsStacked top c.memory c.esp vs
    → let d = pass_context c in
      IsStacked top d.memory d.ebx vs
      × (load32 d.memory d.esp ≡ d.ebx)
      × (d.esp % 16 ≡ 0)
      × (d.esp + 4 ≤ d.ebx)
      × ((k : ℕ) → top ≤ k → d.memory k ≡ c.memory k)
unfolding pass_context
pass_context_lem {vs} top c t l s =
    let low : bit_and (sub32 c.esp 4) 0xFFFFFFF0 ≡ (c.esp - 4) / 16 * 16 =
      omega (arith, s.size, align_down (sub32 c.esp 4) (omega arith)) in
    let under : (c.esp - 4) / 16 * 16 + 4 ≤ c.esp = omega arith in
    let word : u32 c.esp ≡ c.esp = omega (arith, s.size) in
    rw low (
      record {
        words = Holds-store32 c.memory ((c.esp - 4) / 16 * 16) c.esp c.esp vs under s.words;
        size = s.size;
      },
      load32-store32_self c.memory ((c.esp - 4) / 16 * 16) c.esp ∙ word,
      omega arith,
      under,
      λ k h.
          load8-store32_ne c.memory ((c.esp - 4) / 16 * 16) c.esp k (inr (omega (arith, s.size))),
    )

-- What is left to do once the frame is on the stack.
pub pass_context-IsCalled :
    (c d : Cpu) (n error : ℕ)
    → c.esp < 2 ^ 32
    → 128 ≤ c.esp
    → IsStacked c.esp d.memory d.esp (frame c n error)
    → (d.ds ≡ 0x10) × (d.es ≡ 0x10) × (d.fs ≡ 0x10) × (d.gs ≡ 0x10)
    → test_bit d.eflags 9 ≡ 0
    → ((k : ℕ) → c.esp ≤ k → d.memory k ≡ c.memory k)
    → IsCalled c n error (pass_context d)
unfolding pass_context
pass_context-IsCalled c d n error t l s g b m =
    let p = pass_context_lem c.esp d t (omega (arith, s.size)) s in
    record {
      on_stack = p.0;
      argument = p.1;
      aligned = p.2;
      below = p.3;
      data_segments = g;
      disabled = b;
      above = λ k h. p.4 k h ∙ m k h;
    }
