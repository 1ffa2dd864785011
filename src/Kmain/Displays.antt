-- ===== src/Kmain/Displays.antt =====
-- kernel/kmain.cc: what the screen shows when `kernel_main` has ended.
use cosmo.FrameBuffer.{
  FrameBuffer, print_string, clear_screen, move_cursor, set_color, color, light_cyan, black,
}
use cosmo.FrameBuffer.Scroll.{clear_screen_lem}
use cosmo.Boot.Multiboot.{bootloader_magic, info_memory, info_flags}
use cosmo.FrameBuffer.Cursor.{Crtc}
use cosmo.FrameBuffer.Draws.{IsShown, print_string-Draws, clear_screen-Draws, set_color-Draws}
use cosmo.FrameBuffer.Refine.{print_chars_refines, print_string_refines, blank, Terminal_ext}
use cosmo.FrameBuffer.Terminal.{Terminal, terminal, type_char, type_text}
use cosmo.Interrupts.Screen.{print_chars-each}
use cosmo.Kmain.Boot.{
  Kernel, finished, kernel_main, print_lines, BootArguments, print_logo, init_idt, load_gdt,
  init_pic_ports, kernel_desc, init_physical_frame_allocator,
}
use cosmo.Kmain.Boots.{before_gdt, booted, kernel_main-booted}
use cosmo.Kmain.Halts.{at_memory}
use cosmo.Kmain.Messages.{
  logo_lines, verifying_magic, magic_found, verifying_memory_info, memory_found, gdt_start,
  gdt_done, idt_start, idt_done, pic_start, pic_done, allocator_start, allocator_done,
}
use cosmo.Kmain.Ports.{init_pic-IsShown}
use cosmo.Kmain.Speaks.{said, said-Speaks, print_logo-Draws}
use cosmo.Logger.Format.{prefix, info}
use cosmo.PortIo.{Hardware}
use cosmo.Prelude.{
  ℕ, ◌<◌, ◌^◌, ◌≡◌, ◌≢◌, ◌*◌, ◌+◌, ltb, if◌then◌else◌, some, bit_and, arith, refl, sym, ap, ◌∙◌,
  List, [], ◌∷◌, ◌++◌,
}

-- The lines of the log, one behind the other.
abbrev pub log_text : List (List ℕ) → List ℕ
log_text [] = []
log_text (message ∷ messages) = (prefix info ++ message) ++ log_text messages

abbrev pub boot_messages : List (List ℕ)
boot_messages =
    verifying_magic ∷ magic_found ∷ verifying_memory_info ∷ memory_found ∷ gdt_start ∷ gdt_done
    ∷ idt_start ∷ idt_done ∷ pic_start ∷ pic_done ∷ allocator_start ∷ allocator_done ∷ []

pub type_text-append :
    (s t : List ℕ) (x : Terminal) → type_text (s ++ t) x ≡ type_text t (type_text s x)
unfolding type_text
type_text-append [] t x = refl
type_text-append (c ∷ cs) t x = type_text-append cs t (type_char c x)

-- Between the two screens the text was printed.
pub record Types (start : Crtc) (text : List ℕ) (before after : FrameBuffer) : Type 0 where
  pub in_order : IsShown start after
  pub shows : terminal after ≡ type_text text (terminal before)

infixr 4 ◌⨾◌
◌⨾◌ :
    {start : Crtc} {s t : List ℕ} {a b c : FrameBuffer}
    → Types start s a b
    → Types start t b c
    → Types start (s ++ t) a c
◌⨾◌ {s} {t} {a} p q = record {
  in_order = q.in_order;
  shows = q.shows ∙ ap (type_text t) p.shows ∙ sym (type_text-append s t (terminal a));
}

module _ (start : Crtc) where
  said-Types :
      (message : List ℕ) (k : Kernel)
      → IsShown start k.screen
      → Types start (prefix info ++ message) k.screen (said info message k).screen
  said-Types message k s = record {
    in_order = (said-Speaks start info message k s).draws.in_order;
    shows =
        ap terminal (sym (print_chars-each (prefix info ++ message) k.screen))
        ∙ print_chars_refines (prefix info ++ message) k.screen s.on_screen;
  }

  -- The controllers do not show.
  init_pic_ports-Types :
      (hardware : Hardware) (k : Kernel)
      → IsShown start k.screen
      → Types start [] k.screen (init_pic_ports hardware k).screen
  unfolding type_text
  init_pic_ports-Types hardware k s = record {
    in_order = init_pic-IsShown start hardware k.screen s;
    shows = refl;
  }

  nil-Types : (fb : FrameBuffer) → IsShown start fb → Types start [] fb fb
  unfolding type_text
  nil-Types fb s = record { in_order = s; shows = refl }

module _ (start : Crtc) (hardware : Hardware) (args : BootArguments) where
  -- From the logo on.
  booted-Types :
      (k : Kernel)
      → k.screen.attr_byte < 2 ^ 8
      → Types start
          (log_text boot_messages)
          (print_logo k.screen)
          (booted hardware args (at_memory k)).screen
  unfolding init_physical_frame_allocator
  booted-Types k l =
      let k₀ = record k { screen = print_logo k.screen } in
      let t₁ = said-Types start verifying_magic k₀ (print_logo-Draws start k.screen l).in_order in
      let k₁ = said info verifying_magic k₀ in
      let t₂ = said-Types start magic_found k₁ t₁.in_order in
      let k₂ = said info magic_found k₁ in
      let t₃ = said-Types start verifying_memory_info k₂ t₂.in_order in
      let k₃ = said info verifying_memory_info k₂ in
      let t₄ = said-Types start memory_found k₃ t₃.in_order in
      let k₄ = said info memory_found k₃ in
      let t₅ = said-Types start gdt_start k₄ t₄.in_order in
      let k₅ = load_gdt (before_gdt k₃) in
      let t₆ = said-Types start gdt_done k₅ t₅.in_order in
      let k₆ = said info gdt_done k₅ in
      let t₇ = said-Types start idt_start k₆ t₆.in_order in
      let k₇ = init_idt (said info idt_start k₆) in
      let t₈ = said-Types start idt_done k₇ t₇.in_order in
      let k₈ = said info idt_done k₇ in
      let t₉ = said-Types start pic_start k₈ t₈.in_order in
      let k₉ = said info pic_start k₈ in
      let remapped = init_pic_ports-Types start hardware k₉ t₉.in_order in
      let k₁₀ = init_pic_ports hardware k₉ in
      let t₁₀ = said-Types start pic_done k₁₀ remapped.in_order in
      let k₁₁ = said info pic_done k₁₀ in
      let t₁₁ = said-Types start allocator_start k₁₁ t₁₀.in_order in
      let k₁₂ =
        init_physical_frame_allocator args.mboot_header (kernel_desc args)
          (said info allocator_start k₁₁) in
      let t₁₂ = said-Types start allocator_done k₁₂ t₁₁.in_order in
      t₁
      ⨾ t₂
      ⨾ t₃
      ⨾ t₄
      ⨾ t₅
      ⨾ t₆
      ⨾ t₇
      ⨾ t₈
      ⨾ t₉
      ⨾ remapped
      ⨾ t₁₀
      ⨾ t₁₁
      ⨾ t₁₂
      ⨾ nil-Types start _ t₁₂.in_order

-- The lines one behind the other.
abbrev pub joined : List (List ℕ) → List ℕ
joined [] = []
joined (line ∷ lines) = line ++ joined lines

abbrev pub newlines : List (List ℕ)
newlines = (b'\n' ∷ []) ∷ (b'\n' ∷ []) ∷ (b'\n' ∷ []) ∷ []

-- The logo and the three blank lines.
abbrev pub logo_text : List ℕ
logo_text = joined logo_lines ++ joined newlines

-- The terminal is cleared in its colours, and the logo is typed in light cyan on black. Then it is
-- white on black.
abbrev pub cleared : Terminal → Terminal
cleared t = record {
  cells = λ k. if ltb k 2000 then t.colour * 2 ^ 8 + 32 else t.cells k;
  position = 0;
  colour = t.colour;
}

abbrev pub coloured : ℕ → Terminal → Terminal
coloured colour t = record { cells = t.cells; position = t.position; colour = colour }

abbrev pub greeted : Terminal → Terminal
greeted t = coloured 15 (type_text logo_text (coloured 11 (cleared t)))

print_lines-Types :
    (start : Crtc) (lines : List (List ℕ)) (fb : FrameBuffer)
    → IsShown start fb
    → Types start (joined lines) fb (print_lines lines fb)
unfolding print_lines
print_lines-Types start [] fb s = nil-Types start fb s
print_lines-Types start (line ∷ lines) fb s =
    let first : Types start line fb (print_string (some line) fb) = record {
      in_order = (print_string-Draws start (some line) fb s).in_order;
      shows = print_string_refines line fb s.on_screen;
    } in
    first ⨾ print_lines-Types start lines (print_string (some line) fb) first.in_order

clear_screen-cleared :
    (fb : FrameBuffer) → fb.attr_byte < 2 ^ 8 → terminal (clear_screen fb) ≡ cleared (terminal fb)
unfolding clear_screen move_cursor
clear_screen-cleared fb l =
    Terminal_ext (λ k. ground (arith, (clear_screen_lem fb k).0, blank fb l)) refl refl

print_logo-greeted :
    (start : Crtc) (fb : FrameBuffer)
    → fb.attr_byte < 2 ^ 8
    → terminal (print_logo fb) ≡ greeted (terminal fb)
unfolding print_logo set_color
print_logo-greeted start fb l =
    let blank_screen = clear_screen-Draws start fb l in
    let cyan = set_color (color light_cyan) (color black) (clear_screen fb) in
    let shown =
      set_color-Draws start (color light_cyan) (color black) (clear_screen fb)
        blank_screen.in_order in
    let logo = print_lines-Types start logo_lines cyan shown.in_order in
    let text =
      logo ⨾ print_lines-Types start newlines (print_lines logo_lines cyan) logo.in_order in
    ap (coloured 15) text.shows
    ∙ ap (λ t. coloured 15 (type_text logo_text (coloured 11 t))) (clear_screen-cleared fb l)

-- Given the boot loader's magic value, the flag of the memory information, and an attribute of one
-- byte, `kernel_main` halts at its end. The screen shows then what a terminal shows that is cleared
-- and is typed the logo and then the twelve lines of the log, each behind the prefix of its level.
pub kernel_main-shows :
    (start : Crtc) (hardware : Hardware) (args : BootArguments) (k : Kernel)
    → k.screen.attr_byte < 2 ^ 8
    → args.mboot_magic ≡ bootloader_magic
    → bit_and (info_flags k.allocator.memory args.mboot_header) info_memory ≢ 0
    → (k' : Kernel) × (kernel_main hardware args k ≡ some (finished, k'))
      × (terminal k'.screen ≡ type_text (log_text boot_messages) (greeted (terminal k.screen)))
kernel_main-shows start hardware args k l e f =
    let t = booted-Types start hardware args k l in
    (
      booted hardware args (at_memory k),
      kernel_main-booted hardware args k e f,
      t.shows ∙ ap (type_text (log_text boot_messages)) (print_logo-greeted start k.screen l),
    )
