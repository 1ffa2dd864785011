-- ===== src/Kmain/Speaks.antt =====
-- Steps of the start that only print.
use cosmo.FrameBuffer.{
  FrameBuffer, color, light_cyan, white, black, clear_screen, print_string, print_char,
}
use cosmo.FrameBuffer.Cursor.{Crtc}
use cosmo.FrameBuffer.Draws.{
  IsShown, Draws, Draws-trans, print_string-Draws, set_color-Draws, clear_screen-Draws, still,
}
use cosmo.Interrupts.Screen.{screen-Writer, each-Draws}
use cosmo.Kmain.Boot.{Kernel, print_lines, print_logo, report}
use cosmo.Kmain.Messages.{logo_lines}
use cosmo.Logger.Format.{LogLevel, prefix, each}
use cosmo.Logger.Format.Plain.{is_plain, log-plain}
use cosmo.Prelude.{ℕ, ◌<◌, ◌^◌, ◌≡◌, refl, ◌∙◌, true, some, List, [], ◌∷◌, ◌++◌}

-- The kernel after it printed a line of the log.
abbrev pub said : LogLevel → List ℕ → Kernel → Kernel
said level message k = record k { screen = each print_char (prefix level ++ message) k.screen }

pub report-said :
    (level : LogLevel) (message : List ℕ) (k : Kernel)
    → is_plain message ≡ true
    → report level message k ≡ some (said level message k)
unfolding report screen-Writer
report-said level message k p =
    rw (log-plain screen-Writer level message k.log_buffer k.screen p) refl

-- Between the two the kernel did nothing but draw.
pub record Speaks (start : Crtc) (before after : Kernel) : Type 0 where
  pub draws : Draws start before.screen after.screen
  pub same_gdt : after.gdt ≡ before.gdt
  pub same_idt : after.idt ≡ before.idt
  pub same_interrupts : after.interrupts ≡ before.interrupts
  pub same_loaded_gdt : after.loaded_gdt ≡ before.loaded_gdt
  pub same_loaded_idt : after.loaded_idt ≡ before.loaded_idt
  pub same_allocator : after.allocator ≡ before.allocator

pub Speaks-trans :
    {start : Crtc} {a b c : Kernel} → Speaks start a b → Speaks start b c → Speaks start a c
Speaks-trans s t = record {
  draws = Draws-trans s.draws t.draws;
  same_gdt = t.same_gdt ∙ s.same_gdt;
  same_idt = t.same_idt ∙ s.same_idt;
  same_interrupts = t.same_interrupts ∙ s.same_interrupts;
  same_loaded_gdt = t.same_loaded_gdt ∙ s.same_loaded_gdt;
  same_loaded_idt = t.same_loaded_idt ∙ s.same_loaded_idt;
  same_allocator = t.same_allocator ∙ s.same_allocator;
}

pub drawn :
    {start : Crtc} (k : Kernel) {fb : FrameBuffer}
    → Draws start k.screen fb
    → Speaks start k (record k { screen = fb })
drawn k d = record {
  draws = d;
  same_gdt = refl;
  same_idt = refl;
  same_interrupts = refl;
  same_loaded_gdt = refl;
  same_loaded_idt = refl;
  same_allocator = refl;
}

pub said-Speaks :
    (start : Crtc) (level : LogLevel) (message : List ℕ) (k : Kernel)
    → IsShown start k.screen
    → Speaks start k (said level message k)
said-Speaks start level message k s =
    drawn k (each-Draws start (prefix level ++ message) k.screen s)

print_lines-Draws :
    (start : Crtc) (lines : List (List ℕ)) (fb : FrameBuffer)
    → IsShown start fb
    → Draws start fb (print_lines lines fb)
unfolding print_lines
print_lines-Draws start [] fb s = record { in_order = s; quiet = still; behind = λ k p. refl }
print_lines-Draws start (line ∷ lines) fb s =
    let first = print_string-Draws start (some line) fb s in
    Draws-trans first (print_lines-Draws start lines (print_string (some line) fb) first.in_order)

-- The logo clears the screen first, which therefore need not be in order before.
pub print_logo-Draws :
    (start : Crtc) (fb : FrameBuffer) → fb.attr_byte < 2 ^ 8 → Draws start fb (print_logo fb)
unfolding print_logo
print_logo-Draws start fb l =
    let newline = b'\n' ∷ [] in
    let newlines = newline ∷ newline ∷ newline ∷ [] in
    let cleared = clear_screen-Draws start fb l in
    let coloured =
      set_color-Draws start (color light_cyan) (color black) (clear_screen fb) cleared.in_order in
    let logo = print_lines-Draws start logo_lines _ coloured.in_order in
    let space = print_lines-Draws start newlines _ logo.in_order in
    let last = set_color-Draws start (color white) (color black) _ space.in_order in
    Draws-trans cleared (Draws-trans coloured (Draws-trans logo (Draws-trans space last)))
