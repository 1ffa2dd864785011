-- ===== src/Cpu/Stack.antt =====
-- The words on the stack.
use cosmo.Cpu.{Cpu, Program, push_word}
use cosmo.Memory.{
  Memory, load8, load32, store32, load32_ext, load8-store32_ne, load32-store32_self,
  load32-store32_ne,
}
use cosmo.Prelude.{
  ℕ, ◌+◌, ◌-◌, ◌*◌, ◌^◌, ◌<◌, ◌≤◌, ◌≡◌, refl, arith, List, [], ◌∷◌, length, get_or, zero, suc, All,
  sub32, u32, inl, inr, ◌∙◌,
}

-- The words stand from the address on.
abbrev pub Holds : Memory → ℕ → List ℕ → Type 0
Holds m a [] = Unit
Holds m a (v ∷ vs) = (load32 m a ≡ v) × Holds m (a + 4) vs

-- The stack of 32-bit words between the stack pointer and `top`.
pub record IsStacked (top : ℕ) (m : Memory) (esp : ℕ) (vs : List ℕ) : Type 0 where
  pub words : Holds m esp vs
  pub size : esp + 4 * length vs ≡ top

pub Holds-store32 :
    (m : Memory) (a b v : ℕ) (vs : List ℕ) → a + 4 ≤ b → Holds m b vs → Holds (store32 m a v) b vs
Holds-store32 m a b v [] l h = tt
Holds-store32 m a b v (w ∷ ws) l (e, h) =
    (load32-store32_ne m a v b (inr l) ∙ e, Holds-store32 m a (b + 4) v ws (omega arith) h)

-- The same words stand in a memory with the same bytes there.
pub Holds_ext :
    (m n : Memory) (a : ℕ) (vs : List ℕ)
    → ((k : ℕ) → k < 4 * length vs → load8 n (a + k) ≡ load8 m (a + k))
    → Holds m a vs
    → Holds n a vs
Holds_ext m n a [] s h = tt
Holds_ext m n a (v ∷ vs) s (e, h) = (
  load32_ext n m a (λ k l. s k (omega arith)) ∙ e,
  Holds_ext m n (a + 4) vs
      (λ k l. let at : a + 4 + k ≡ a + (4 + k) = omega arith in rw at (s (4 + k) (omega arith))) h,
)

pub push_word-IsStacked :
    {vs : List ℕ} (top v : ℕ) (c : Cpu)
    → v < 2 ^ 32
    → 4 ≤ c.esp
    → top < 2 ^ 32
    → IsStacked top c.memory c.esp vs
    → IsStacked top (push_word v c).memory (push_word v c).esp (v ∷ vs)
unfolding push_word
push_word-IsStacked {vs} top v c b l t s =
    let below : sub32 c.esp 4 ≡ c.esp - 4 = omega (arith, s.size) in
    let back : c.esp - 4 + 4 ≡ c.esp = omega arith in
    let word : u32 v ≡ v = omega arith in
    rw below (record {
      words = (
        load32-store32_self c.memory (c.esp - 4) v ∙ word,
        Holds-store32 c.memory (c.esp - 4) (c.esp - 4 + 4) v vs (omega arith) (rw back s.words),
      );
      size = omega (arith, s.size);
    })

-- Pushing words one by one, and the stack that they leave.
unfoldable pub push_words : List ℕ → Program
push_words [] c = c
push_words (v ∷ vs) c = push_words vs (push_word v c)

abbrev pub onto : List ℕ → List ℕ → List ℕ
onto [] vs = vs
onto (w ∷ ws) vs = onto ws (w ∷ vs)

pub push_words-IsStacked :
    {vs : List ℕ} (top : ℕ) (ws : List ℕ) (c : Cpu)
    → All (λ w. w < 2 ^ 32) ws
    → 4 * length ws ≤ c.esp
    → top < 2 ^ 32
    → IsStacked top c.memory c.esp vs
    → IsStacked top (push_words ws c).memory (push_words ws c).esp (onto ws vs)
unfolding push_words
push_words-IsStacked top [] c b l t s = s
push_words-IsStacked top (w ∷ ws) c (b, bs) l t s =
    let first = push_word-IsStacked top w c b (omega arith) t s in
    push_words-IsStacked top ws (push_word w c) bs (omega (arith, first.size, s.size)) t first

pub load32-Holds :
    (m : Memory) (a : ℕ) (vs : List ℕ) (k b : ℕ)
    → Holds m a vs
    → k < length vs
    → b ≡ a + 4 * k
    → load32 m b ≡ get_or vs k 0
load32-Holds m a [] k b h l e = absurd (omega arith)
load32-Holds m a (v ∷ vs) zero b h l e = let at : b ≡ a = omega arith in rw at h.0
load32-Holds m a (v ∷ vs) (suc k) b h l e =
    load32-Holds m (a + 4) vs k b h.1 (omega arith) (omega arith)

-- Pushing changes nothing at the stack pointer and above.
pub push_words-above :
    (ws : List ℕ) (c : Cpu) (k : ℕ)
    → 4 * length ws ≤ c.esp
    → c.esp < 2 ^ 32
    → c.esp ≤ k
    → (push_words ws c).memory k ≡ c.memory k
unfolding push_words push_word
push_words-above [] c k l t h = refl
push_words-above (w ∷ ws) c k l t h =
    let below : sub32 c.esp 4 ≡ c.esp - 4 = omega arith in
    push_words-above ws (push_word w c) k (omega arith) (omega arith) (omega arith)
    ∙ load8-store32_ne c.memory (sub32 c.esp 4) w k (inr (omega arith))

-- Nor does it below the words.
pub push_words-below :
    (ws : List ℕ) (c : Cpu) (k : ℕ)
    → 4 * length ws ≤ c.esp
    → c.esp < 2 ^ 32
    → k < c.esp - 4 * length ws
    → (push_words ws c).memory k ≡ c.memory k
unfolding push_words push_word
push_words-below [] c k l t h = refl
push_words-below (w ∷ ws) c k l t h =
    let below : sub32 c.esp 4 ≡ c.esp - 4 = omega arith in
    push_words-below ws (push_word w c) k (omega arith) (omega arith) (omega arith)
    ∙ load8-store32_ne c.memory (sub32 c.esp 4) w k (inl (omega arith))
