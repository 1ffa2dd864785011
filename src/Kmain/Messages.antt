-- ===== src/Kmain/Messages.antt =====
-- The strings of kernel/kmain.cc, each without its terminator.
use cosmo.Prelude.{ℕ, List, [], ◌∷◌}

-- The backslash is 92.
abbrev pub logo_line1 : List ℕ
logo_line1 =
    b' ' ∷ b' ' ∷ b' ' ∷ b' ' ∷ b' ' ∷ b' ' ∷ b' ' ∷ b' ' ∷ b' ' ∷ b' ' ∷ b'_' ∷ b'_' ∷ b'_' ∷ b'_'
    ∷ b' ' ∷ b'_' ∷ b'_' ∷ b'_' ∷ b' ' ∷ b' ' ∷ b'_' ∷ b'_' ∷ b'_' ∷ b'_' ∷ b' ' ∷ b' ' ∷ b'_'
    ∷ b'_' ∷ b' ' ∷ b' ' ∷ b'_' ∷ b'_' ∷ b' ' ∷ b' ' ∷ b'_' ∷ b'_' ∷ b'_' ∷ b' ' ∷ b' ' ∷ b' '
    ∷ b' ' ∷ b' ' ∷ b' ' ∷ b' ' ∷ b' ' ∷ b' ' ∷ b'\n' ∷ []

abbrev pub logo_line2 : List ℕ
logo_line2 =
    b' ' ∷ b'_' ∷ b'_' ∷ b'/' ∷ 92 ∷ b'_' ∷ b'_' ∷ b' ' ∷ b' ' ∷ b'/' ∷ b' ' ∷ b'_' ∷ b'_' ∷ b'_'
    ∷ b'/' ∷ b' ' ∷ b'_' ∷ b' ' ∷ 92 ∷ b'/' ∷ b' ' ∷ b'_' ∷ b'_' ∷ b'_' ∷ b'|' ∷ b'|' ∷ b' ' ∷ b' '
    ∷ 92 ∷ b'/' ∷ b' ' ∷ b' ' ∷ b'|' ∷ b'/' ∷ b' ' ∷ b'_' ∷ b' ' ∷ 92 ∷ b' ' ∷ b' ' ∷ b'_' ∷ b'_'
    ∷ b'/' ∷ 92 ∷ b'_' ∷ b'_' ∷ b'\n' ∷ []

abbrev pub logo_line3 : List ℕ
logo_line3 =
    b' ' ∷ 92 ∷ b' ' ∷ b' ' ∷ b' ' ∷ b' ' ∷ b'/' ∷ b' ' ∷ b'|' ∷ b' ' ∷ b'|' ∷ b' ' ∷ b' ' ∷ b'|'
    ∷ b' ' ∷ b'|' ∷ b' ' ∷ b'|' ∷ b' ' ∷ 92 ∷ b'_' ∷ b'_' ∷ b'_' ∷ b' ' ∷ 92 ∷ b'|' ∷ b' ' ∷ b'|'
    ∷ 92 ∷ b'/' ∷ b'|' ∷ b' ' ∷ b'|' ∷ b' ' ∷ b'|' ∷ b' ' ∷ b'|' ∷ b' ' ∷ b'|' ∷ b' ' ∷ 92 ∷ b' '
    ∷ b' ' ∷ b' ' ∷ b' ' ∷ b'/' ∷ b'\n' ∷ []

abbrev pub logo_line4 : List ℕ
logo_line4 =
    b' ' ∷ b'/' ∷ b'_' ∷ b' ' ∷ b' ' ∷ b'_' ∷ 92 ∷ b' ' ∷ b'|' ∷ b' ' ∷ b'|' ∷ b'_' ∷ b'_' ∷ b'|'
    ∷ b' ' ∷ b'|' ∷ b'_' ∷ b'|' ∷ b' ' ∷ b'|' ∷ b'_' ∷ b'_' ∷ b'_' ∷ b')' ∷ b' ' ∷ b'|' ∷ b' '
    ∷ b'|' ∷ b' ' ∷ b' ' ∷ b'|' ∷ b' ' ∷ b'|' ∷ b' ' ∷ b'|' ∷ b'_' ∷ b'|' ∷ b' ' ∷ b'|' ∷ b' '
    ∷ b'/' ∷ b'_' ∷ b' ' ∷ b' ' ∷ b'_' ∷ 92 ∷ b'\n' ∷ []

abbrev pub logo_line5 : List ℕ
logo_line5 =
    b' ' ∷ b' ' ∷ b' ' ∷ 92 ∷ b'/' ∷ b' ' ∷ b' ' ∷ b' ' ∷ b' ' ∷ 92 ∷ b'_' ∷ b'_' ∷ b'_' ∷ b'_' ∷ 92
    ∷ b'_' ∷ b'_' ∷ b'_' ∷ b'/' ∷ b'|' ∷ b'_' ∷ b'_' ∷ b'_' ∷ b'_' ∷ b'/' ∷ b'|' ∷ b'_' ∷ b'|'
    ∷ b' ' ∷ b' ' ∷ b'|' ∷ b'_' ∷ b'|' ∷ 92 ∷ b'_' ∷ b'_' ∷ b'_' ∷ b'/' ∷ b' ' ∷ b' ' ∷ b' ' ∷ b' '
    ∷ 92 ∷ b'/' ∷ b' ' ∷ b' ' ∷ b'\n' ∷ []

abbrev pub logo_lines : List (List ℕ)
logo_lines = logo_line1 ∷ logo_line2 ∷ logo_line3 ∷ logo_line4 ∷ logo_line5 ∷ []

abbrev pub verifying_magic : List ℕ
verifying_magic =
    b'V' ∷ b'e' ∷ b'r' ∷ b'i' ∷ b'f' ∷ b'y' ∷ b'i' ∷ b'n' ∷ b'g' ∷ b' ' ∷ b'm' ∷ b'u' ∷ b'l' ∷ b't'
    ∷ b'i' ∷ b'b' ∷ b'o' ∷ b'o' ∷ b't' ∷ b' ' ∷ b'b' ∷ b'o' ∷ b'o' ∷ b't' ∷ b'l' ∷ b'o' ∷ b'a'
    ∷ b'd' ∷ b'e' ∷ b'r' ∷ b' ' ∷ b'm' ∷ b'a' ∷ b'g' ∷ b'i' ∷ b'c' ∷ b' ' ∷ b'v' ∷ b'a' ∷ b'l'
    ∷ b'u' ∷ b'e' ∷ b'.' ∷ b'.' ∷ b'.' ∷ b'\n' ∷ []

abbrev pub bad_magic_message : List ℕ
bad_magic_message =
    b'e' ∷ b'r' ∷ b'r' ∷ b'o' ∷ b'r' ∷ b',' ∷ b' ' ∷ b'n' ∷ b'o' ∷ b't' ∷ b' ' ∷ b'b' ∷ b'o' ∷ b'o'
    ∷ b't' ∷ b'e' ∷ b'd' ∷ b' ' ∷ b'b' ∷ b'y' ∷ b' ' ∷ b'a' ∷ b' ' ∷ b'M' ∷ b'u' ∷ b'l' ∷ b't'
    ∷ b'i' ∷ b'b' ∷ b'o' ∷ b'o' ∷ b't' ∷ b' ' ∷ b'c' ∷ b'o' ∷ b'm' ∷ b'p' ∷ b'l' ∷ b'i' ∷ b'a'
    ∷ b'n' ∷ b't' ∷ b' ' ∷ b'b' ∷ b'o' ∷ b'o' ∷ b't' ∷ b'l' ∷ b'o' ∷ b'a' ∷ b'd' ∷ b'e' ∷ b'r'
    ∷ b'!' ∷ b'\n' ∷ []

abbrev pub magic_found : List ℕ
magic_found =
    b'M' ∷ b'U' ∷ b'L' ∷ b'T' ∷ b'I' ∷ b'B' ∷ b'O' ∷ b'O' ∷ b'T' ∷ b'_' ∷ b'B' ∷ b'O' ∷ b'O' ∷ b'T'
    ∷ b'L' ∷ b'O' ∷ b'A' ∷ b'D' ∷ b'E' ∷ b'R' ∷ b'_' ∷ b'M' ∷ b'A' ∷ b'G' ∷ b'I' ∷ b'C' ∷ b' '
    ∷ b'f' ∷ b'o' ∷ b'u' ∷ b'n' ∷ b'd' ∷ b'!' ∷ b'\n' ∷ []

abbrev pub verifying_memory_info : List ℕ
verifying_memory_info =
    b'V' ∷ b'e' ∷ b'r' ∷ b'i' ∷ b'f' ∷ b'y' ∷ b'i' ∷ b'n' ∷ b'g' ∷ b' ' ∷ b'm' ∷ b'u' ∷ b'l' ∷ b't'
    ∷ b'i' ∷ b'b' ∷ b'o' ∷ b'o' ∷ b't' ∷ b' ' ∷ b'i' ∷ b'n' ∷ b'f' ∷ b'o' ∷ b' ' ∷ b'i' ∷ b'n'
    ∷ b'c' ∷ b'l' ∷ b'u' ∷ b'd' ∷ b'e' ∷ b's' ∷ b' ' ∷ b'm' ∷ b'e' ∷ b'm' ∷ b'o' ∷ b'r' ∷ b'y'
    ∷ b' ' ∷ b'i' ∷ b'n' ∷ b'f' ∷ b'o' ∷ b'.' ∷ b'.' ∷ b'.' ∷ b'\n' ∷ []

abbrev pub no_memory_message : List ℕ
no_memory_message =
    b'e' ∷ b'r' ∷ b'r' ∷ b'o' ∷ b'r' ∷ b',' ∷ b' ' ∷ b'm' ∷ b'u' ∷ b'l' ∷ b't' ∷ b'i' ∷ b'b' ∷ b'o'
    ∷ b'o' ∷ b't' ∷ b' ' ∷ b'h' ∷ b'e' ∷ b'a' ∷ b'd' ∷ b'e' ∷ b'r' ∷ b' ' ∷ b'd' ∷ b'o' ∷ b'e'
    ∷ b's' ∷ b' ' ∷ b'n' ∷ b'o' ∷ b't' ∷ b' ' ∷ b'c' ∷ b'o' ∷ b'n' ∷ b't' ∷ b'a' ∷ b'i' ∷ b'n'
    ∷ b' ' ∷ b'm' ∷ b'e' ∷ b'm' ∷ b'i' ∷ b'n' ∷ b'f' ∷ b'o' ∷ b'!' ∷ b'\n' ∷ []

abbrev pub memory_found : List ℕ
memory_found =
    b'M' ∷ b'U' ∷ b'L' ∷ b'T' ∷ b'I' ∷ b'B' ∷ b'O' ∷ b'O' ∷ b'T' ∷ b'_' ∷ b'I' ∷ b'N' ∷ b'F' ∷ b'O'
    ∷ b'_' ∷ b'M' ∷ b'E' ∷ b'M' ∷ b'O' ∷ b'R' ∷ b'Y' ∷ b' ' ∷ b'w' ∷ b'a' ∷ b's' ∷ b' ' ∷ b's'
    ∷ b'e' ∷ b't' ∷ b'!' ∷ b'\n' ∷ []

abbrev pub gdt_start : List ℕ
gdt_start =
    b'I' ∷ b'n' ∷ b'i' ∷ b't' ∷ b'i' ∷ b'a' ∷ b'l' ∷ b'i' ∷ b'z' ∷ b'i' ∷ b'n' ∷ b'g' ∷ b' ' ∷ b't'
    ∷ b'h' ∷ b'e' ∷ b' ' ∷ b'G' ∷ b'D' ∷ b'T' ∷ b'.' ∷ b'.' ∷ b'.' ∷ b'\n' ∷ []

abbrev pub gdt_done : List ℕ
gdt_done =
    b'G' ∷ b'D' ∷ b'T' ∷ b' ' ∷ b's' ∷ b'e' ∷ b't' ∷ b'u' ∷ b'p' ∷ b' ' ∷ b's' ∷ b'u' ∷ b'c' ∷ b'c'
    ∷ b'e' ∷ b'e' ∷ b'd' ∷ b'e' ∷ b'd' ∷ b'!' ∷ b'\n' ∷ []

abbrev pub idt_start : List ℕ
idt_start =
    b'I' ∷ b'n' ∷ b'i' ∷ b't' ∷ b'i' ∷ b'a' ∷ b'l' ∷ b'i' ∷ b'z' ∷ b'i' ∷ b'n' ∷ b'g' ∷ b' ' ∷ b't'
    ∷ b'h' ∷ b'e' ∷ b' ' ∷ b'I' ∷ b'D' ∷ b'T' ∷ b'.' ∷ b'.' ∷ b'.' ∷ b'\n' ∷ []

abbrev pub idt_done : List ℕ
idt_done =
    b'I' ∷ b'D' ∷ b'T' ∷ b' ' ∷ b's' ∷ b'e' ∷ b't' ∷ b'u' ∷ b'p' ∷ b' ' ∷ b's' ∷ b'u' ∷ b'c' ∷ b'c'
    ∷ b'e' ∷ b'e' ∷ b'd' ∷ b'e' ∷ b'd' ∷ b'!' ∷ b'\n' ∷ []

abbrev pub pic_start : List ℕ
pic_start =
    b'I' ∷ b'n' ∷ b'i' ∷ b't' ∷ b'i' ∷ b'a' ∷ b'l' ∷ b'i' ∷ b'z' ∷ b'i' ∷ b'n' ∷ b'g' ∷ b' ' ∷ b'P'
    ∷ b'I' ∷ b'C' ∷ b'.' ∷ b'.' ∷ b'.' ∷ b'\n' ∷ []

abbrev pub pic_done : List ℕ
pic_done =
    b'P' ∷ b'I' ∷ b'C' ∷ b' ' ∷ b's' ∷ b'e' ∷ b't' ∷ b'u' ∷ b'p' ∷ b' ' ∷ b's' ∷ b'u' ∷ b'c' ∷ b'c'
    ∷ b'e' ∷ b'e' ∷ b'd' ∷ b'e' ∷ b'd' ∷ b'!' ∷ b'\n' ∷ []

abbrev pub allocator_start : List ℕ
allocator_start =
    b'I' ∷ b'n' ∷ b'i' ∷ b't' ∷ b'i' ∷ b'a' ∷ b'l' ∷ b'i' ∷ b'z' ∷ b'i' ∷ b'n' ∷ b'g' ∷ b' ' ∷ b'P'
    ∷ b'h' ∷ b'y' ∷ b's' ∷ b'i' ∷ b'c' ∷ b'a' ∷ b'l' ∷ b' ' ∷ b'F' ∷ b'r' ∷ b'a' ∷ b'm' ∷ b'e'
    ∷ b' ' ∷ b'A' ∷ b'l' ∷ b'l' ∷ b'o' ∷ b'c' ∷ b'a' ∷ b't' ∷ b'o' ∷ b'r' ∷ b'.' ∷ b'.' ∷ b'.'
    ∷ b'\n' ∷ []

abbrev pub allocator_done : List ℕ
allocator_done =
    b'P' ∷ b'h' ∷ b'y' ∷ b's' ∷ b'i' ∷ b'c' ∷ b'a' ∷ b'l' ∷ b' ' ∷ b'F' ∷ b'r' ∷ b'a' ∷ b'm' ∷ b'e'
    ∷ b' ' ∷ b'A' ∷ b'l' ∷ b'l' ∷ b'o' ∷ b'c' ∷ b'a' ∷ b't' ∷ b'o' ∷ b'r' ∷ b' ' ∷ b's' ∷ b'e'
    ∷ b't' ∷ b'u' ∷ b'p' ∷ b' ' ∷ b's' ∷ b'u' ∷ b'c' ∷ b'c' ∷ b'e' ∷ b'e' ∷ b'd' ∷ b'e' ∷ b'd'
    ∷ b'!' ∷ b'\n' ∷ []
