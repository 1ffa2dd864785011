-- ===== src/Entry/Enter.antt =====
-- The way into a handler.
use cosmo.Cpu.{Cpu, push_byte, push_word, cli}
use cosmo.Cpu.Stack.{push_words}
use cosmo.Entry.{
  take_interrupt, irq_enter, isr_enter, save_registers, load_segments, has_error_code,
}
use cosmo.Entry.Frame.{
  IsCpu, IsCalled, pushed_words-IsStacked, pushed_words-above, pass_context-IsCalled, cleared_bit,
}
use cosmo.Idt.{IdtEntry}
use cosmo.Prelude.{
  ℕ, ◌^◌, ◌<◌, ◌≤◌, refl, arith, lt→ltb, Option, none, some, Bool, ◌≡◌, ◌==◌, ◌||◌, if◌then◌else◌,
  bit_and, not32, Bool-cases, inl, inr,
}

pub irq_enter-IsCalled :
    (gate : IdtEntry) (n : ℕ) (c : Cpu)
    → IsCpu c
    → 128 ≤ c.esp
    → n < 128
    → IsCalled c n 0 (irq_enter n (take_interrupt gate none c))
unfolding take_interrupt save_registers load_segments push_words push_word
irq_enter-IsCalled gate n c i l b =
    let d =
      load_segments
        (save_registers (push_byte n (push_byte 0 (cli (take_interrupt gate none c))))) in
    pass_context-IsCalled c d n 0 i.esp_fits l
      (rw (lt→ltb n 128 b) (pushed_words-IsStacked c n 0 i l (omega arith) (omega arith)))
      (refl, refl, refl, refl) (cleared_bit (bit_and c.eflags (not32 0x200)))
      (λ k h. rw (lt→ltb n 128 b) (pushed_words-above c n 0 k i l h))

-- The exceptions for which the processor pushes an error code, by the processors' manuals: the double
-- fault, the invalid task segment, the missing segment, the stack fault, the general protection
-- fault, the page fault, the alignment check, and the security exception.
abbrev pub pushes_error_code : ℕ → Bool
pushes_error_code n =
    n == 8 || n == 10 || n == 11 || n == 12 || n == 13 || n == 14 || n == 17 || n == 30

-- The error code that the processor pushes for an exception, if it has one.
abbrev pub error_code : ℕ → ℕ → Option ℕ
error_code n code = if pushes_error_code n then some code else none

-- The entry points are made for the error codes that the processor pushes.
entries_fit : (n : ℕ) → has_error_code n ≡ pushes_error_code n
entries_fit n = ground arith

pub isr_enter-IsCalled :
    (gate : IdtEntry) (n code : ℕ) (c : Cpu)
    → IsCpu c
    → 128 ≤ c.esp
    → n < 128
    → code < 2 ^ 32
    → IsCalled c n
        (if pushes_error_code n then code else 0)
        (isr_enter n (take_interrupt gate (error_code n code) c))
unfolding take_interrupt save_registers load_segments push_words push_word
isr_enter-IsCalled gate n code c i l b e = elim (Bool-cases (pushes_error_code n)) [
  | inl h ↦
      let d =
        load_segments (save_registers (push_byte n (cli (take_interrupt gate (some code) c)))) in
      rw (entries_fit n, h)
        (pass_context-IsCalled c d n code i.esp_fits l
          (rw (lt→ltb n 128 b) (pushed_words-IsStacked c n code i l (omega arith) e))
          (refl, refl, refl, refl) (cleared_bit (bit_and c.eflags (not32 0x200)))
          (λ k h. rw (lt→ltb n 128 b) (pushed_words-above c n code k i l h)))
  | inr h ↦ rw (entries_fit n, h) (irq_enter-IsCalled gate n c i l b)
]
