-- ===== src/Loader/Paging.antt =====
-- What the loader's page directory maps.
use cosmo.Bits.{test_bit, test_bit-le, test_bit-or}
use cosmo.Cpu.{Cpu, push_word}
use cosmo.Cpu.Stack.{push_words, push_words-below}
use cosmo.Loader.{
  Symbols, IsLinked, boot_page_directory, times, loader, start_in_higher_half, kernel_physical_end,
}
use cosmo.Memory.{Memory, load32, store32, load32-store32_self, load32-store32_ne, load32_ext}
use cosmo.Prelude.{
  ℕ, zero, suc, ◌+◌, ◌-◌, ◌*◌, ◌/◌, ◌%◌, ◌^◌, ◌<◌, ◌≡◌, ◌==◌, ◌&&◌, ◌||◌, ltb, leb, refl, ap, ◌∙◌,
  arith, if◌then◌else◌, Bool, true, false, Bool-cases, inl, inr, Option, none, some, List, [], ◌∷◌,
  ◌++◌, get_or, u8, u32, not,
}

-- The memory of the model is named by the kernel's virtual addresses, and the byte at the physical
-- address `p` stands at `p + 3 GB`, where the linker put the image. The processor takes the directory
-- of its pages from the physical address in cr3, of which the twelve low bits do not count.
abbrev pub current_directory : Cpu → ℕ → ℕ
current_directory c k = load32 c.memory (c.cr3 / 4096 * 4096 + 0xC0000000 + 4 * k)

-- The processor's translation of a linear address: with paging on and pages of 4 MB allowed, by a
-- present entry for such a page in the directory of cr3. A table of smaller pages, which the loader
-- never makes, is `none` here, as is a page fault.
abbrev pub translate : Cpu → ℕ → Option ℕ
translate c v =
    let e = current_directory c (v / 2 ^ 22) in
    if test_bit c.cr0 31 == 0
    then some v
    else if test_bit c.cr4 4 == 1 && test_bit e 0 == 1 && test_bit e 7 == 1
    then some (e / 2 ^ 22 * 2 ^ 22 + v % 2 ^ 22)
    else none

-- The entries that stand at the directory's address.
abbrev pub directory : Symbols → Memory → ℕ → ℕ
directory s m k = load32 m (s.boot_page_directory + 4 * k)

-- The kernel's window: 4 MB from the virtual base on.
abbrev pub in_window : ℕ → Bool
in_window v = leb 0xC0000000 v && ltb v 0xC0400000

get_or-times : (n k : ℕ) → get_or (times n 0) k 0 ≡ 0
unfolding times
get_or-times zero k = refl
get_or-times (suc n) zero = refl
get_or-times (suc n) (suc k) = get_or-times n k

get_or-times_append :
    (n k : ℕ) (ys : List ℕ)
    → get_or (times n 0 ++ ys) k 0 ≡ (if ltb k n then 0 else get_or ys (k - n) 0)
unfolding times
get_or-times_append zero k ys = let e : k - 0 ≡ k = omega arith in rw e (ground arith)
get_or-times_append (suc n) zero ys = ground arith
get_or-times_append (suc n) (suc k) ys = ground (arith, get_or-times_append n k ys)

two_pages :
    (before after k : ℕ)
    → get_or (0x83 ∷ (times before 0 ++ (0x83 ∷ times after 0))) k 0
      ≡ (if k == 0 || k == before + 1 then 0x83 else 0)
two_pages before after zero = refl
two_pages before after (suc k) = elim (Bool-cases (k == before)) [
  | inl e ↦
      let same : k ≡ before = ground arith in
      let first : before - before ≡ 0 = omega arith in
      rw (get_or-times_append before k (0x83 ∷ times after 0), same, first) (ground arith)
  | inr e ↦ elim (Bool-cases (ltb k before)) [
    | inl l ↦ ground (arith, get_or-times_append before k (0x83 ∷ times after 0))
    | inr l ↦
        let rest : k - before ≡ suc (k - before - 1) = ground arith in
        rw
          (
            get_or-times_append before k (0x83 ∷ times after 0),
            l,
            rest,
            get_or-times after (k - before - 1),
          )
          (ground arith)
  ]
]

pub boot_page_directory_lem :
    (k : ℕ) → get_or boot_page_directory k 0 ≡ (if k == 0 || k == 768 then 0x83 else 0)
unfolding boot_page_directory
boot_page_directory_lem = two_pages 767 255

enables :
    (c : Cpu) (s : Symbols) → (test_bit (loader s c).cr0 31 ≡ 1) × (test_bit (loader s c).cr4 4 ≡ 1)
unfolding loader test_bit
enables c s =
    let paging : test_bit 0x80000000 31 ≡ 1 = refl in
    let large : test_bit 0x10 4 ≡ 1 = refl in
    (
      omega (arith, test_bit-or c.cr0 0x80000000 31, test_bit-le c.cr0 31, paging),
      omega (arith, test_bit-or c.cr4 0x10 4, test_bit-le c.cr4 4, large),
    )

-- The words that the loader pushes, and the processor before that.
abbrev pub pushed : Symbols → ℕ → Cpu → List ℕ
pushed s back c =
    u32 (c.ebx + 0xC0000000)
    ∷ c.eax
    ∷ 0xC0000000
    ∷ s.kernel_virtual_end
    ∷ 0xC0100000
    ∷ kernel_physical_end s
    ∷ 0x100000
    ∷ back
    ∷ []

abbrev pub on_stack : Symbols → Cpu → Cpu
on_stack s c = record c {
  memory = store32 c.memory s.boot_page_directory 0;
  esp = u32 (s.stack + 0x4000);
}

-- The first word of the directory is replaced, and the others are as they were.
started-directory :
    (s : Symbols) (back : ℕ) (c : Cpu) (k : ℕ)
    → IsLinked s
    → k < 1024
    → directory s (start_in_higher_half s back c).memory k
      ≡ (if k == 0 then 0 else directory s c.memory k)
unfolding start_in_higher_half push_words push_word
started-directory s back c k i l =
    let d = start_in_higher_half s back c in
    let cleared = store32 c.memory s.boot_page_directory 0 in
    let a = s.boot_page_directory + 4 * k in
    let below = λ (j : ℕ) (h : j < s.stack).
      push_words-below (pushed s back c) (on_stack s c) j (omega (arith, i.mapped)) (omega arith)
        (omega (arith, i.mapped)) in
    let same : load32 d.memory a ≡ load32 cleared a =
      load32_ext d.memory cleared a (λ j h. ap u8 (below (a + j) (omega (arith, i.bss)))) in
    same ∙ elim (Bool-cases (k == 0)) [
      | inl e ↦
          let first : a ≡ s.boot_page_directory = ground arith in
          rw (e, first) (load32-store32_self c.memory s.boot_page_directory 0)
      | inr e ↦ rw e (load32-store32_ne c.memory s.boot_page_directory 0 a (inr (ground arith)))
    ]

-- With a directory that maps nothing but one page to the first 4 MB.
window :
    (c : Cpu) (page : Bool) (v : ℕ)
    → test_bit c.cr0 31 ≡ 1
    → test_bit c.cr4 4 ≡ 1
    → current_directory c (v / 2 ^ 22) ≡ (if page then 0x83 else 0)
    → translate c v ≡ (if page then some (v % 2 ^ 22) else none)
unfolding test_bit
window c true v p q e =
    let offset : 0 + v % 2 ^ 22 ≡ v % 2 ^ 22 = omega arith in rw (p, q, e, offset) refl
window c false v p q e = rw (p, q, e) refl

-- The directory as the loader's image has it.
abbrev pub IsLoaded : Symbols → Memory → Type 0
IsLoaded s m = (k : ℕ) → k < 1024 → directory s m k ≡ get_or boot_page_directory k 0

-- With the directory of the loader's image in memory, aligned to a page: once paging is on, the first 4 MB of the
-- addresses and the 4 MB of the kernel's window translate to the first 4 MB of the memory, and no
-- other address of 32 bits translates. When `kernel_main` is called, only the window does.
pub loader-translates :
    (s : Symbols) (back : ℕ) (c : Cpu) (v : ℕ)
    → IsLinked s
    → s.boot_page_directory % 4096 ≡ 0
    → IsLoaded s c.memory
    → v < 2 ^ 32
    → let paged = loader s c in
      let d = start_in_higher_half s back paged in
      (translate paged v ≡ (if ltb v 0x400000 || in_window v then some (v % 2 ^ 22) else none))
      × (translate d v ≡ (if in_window v then some (v - 0xC0000000) else none))
unfolding loader start_in_higher_half push_word
loader-translates s back c v i aligned m l =
    let paged = loader s c in
    let d = start_in_higher_half s back paged in
    let (pg, pse) = enables c s in
    let page = v / 2 ^ 22 in
    let two : (page == 0 || page == 768) ≡ (ltb v 0x400000 || in_window v) = ground arith in
    let one : (not (page == 0) && page == 768) ≡ in_window v = ground arith in
    let entry = m page (omega arith) ∙ boot_page_directory_lem page in
    let base : (s.boot_page_directory - 0xC0000000) / 4096 * 4096 + 0xC0000000
        ≡ s.boot_page_directory =
      omega (arith, aligned, i.directory) in
    let at_cr3 : current_directory paged page ≡ directory s paged.memory page = rw base refl in
    let at_cr3' : current_directory d page ≡ directory s d.memory page = rw base refl in
    let left : directory s d.memory page ≡ (if in_window v then 0x83 else 0) =
      started-directory s back paged page i (omega arith) ∙ ground (arith, entry) in
    (
      window paged (ltb v 0x400000 || in_window v) v pg pse
          (at_cr3 ∙ entry ∙ ap (λ (b : Bool). if b then 0x83 else 0) two),
      window d (in_window v) v pg pse (at_cr3' ∙ left) ∙ ground arith,
    )
