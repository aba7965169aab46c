-- ===== src/Loader/Relocate/Table.antt =====
-- DLLRelocate on a relocation table, against the additions that the table lists.
pub mod Blocks
use mathlib.Core.Path.{subst}
use nxdk_dyndxt.Base.{
  ℕ, zero, suc, ◌+◌, ◌*◌, ◌/◌, ◌%◌, ◌^◌, ◌≤◌, ◌<◌, ◌≡◌, ◌≢◌, refl, sym, ap, ◌∙◌, ◌⊎◌, inl, inr,
  true, false, List, [], ◌∷◌, ◌++◌, arith, ◌==◌, ltb, if◌then◌else◌, length, ≢→==, ≡→==,
}
use nxdk_dyndxt.Loader.Types.{State}
use nxdk_dyndxt.Loader.Run.{returned, word16, word32, read_word16, read_word32, write_word32}
use nxdk_dyndxt.Loader.Relocate.{add_to_word, relocate_entry, relocate_entries, relocate_blocks}
use nxdk_dyndxt.Loader.Relocate.Words.{add_word, relocated, AreClear, relocated_clear, word32_agree}

-- A block of the table: a page of the image, and its entries.
pub record RelocationBlock : Type 0 where
  pub page : ℕ
  pub entries : List ℕ

-- The addresses that the entries of a page list
abbrev pub entry_targets : ℕ → List ℕ → List ℕ
entry_targets page [] = []
entry_targets page (e ∷ es) =
    if e / 2 ^ 12 == 0 then entry_targets page es else (page + e % 2 ^ 12) ∷ entry_targets page es

abbrev pub targets : List RelocationBlock → List ℕ
targets [] = []
targets (b ∷ bs) = entry_targets b.page b.entries ++ targets bs

-- Padding, or IMAGE_REL_BASED_HIGHLOW
abbrev pub IsKnown : ℕ → Type 0
IsKnown e = (e / 2 ^ 12 ≡ 0) ⊎ (e / 2 ^ 12 ≡ 3)

-- These entries stand at `a`.
abbrev pub AreEntries : (ℕ → ℕ) → ℕ → List ℕ → Type 0
AreEntries f a [] = Unit
AreEntries f a (e ∷ es) = (word16 f a ≡ e) × IsKnown e × AreEntries f (a + 2) es

-- The number of bytes of a block
abbrev pub block_size : RelocationBlock → ℕ
block_size b = 8 + 2 * length b.entries

-- A table of these blocks stands from `a` to `end`, each block of fewer than 2 ^ 12 bytes, and is
-- terminated by a page of 0.
abbrev pub IsTable : (ℕ → ℕ) → ℕ → ℕ → List RelocationBlock → Type 0
IsTable f a end [] = (word32 f a ≡ 0) × (a + 4 ≡ end)
IsTable f a end (b ∷ bs) =
    (word32 f a ≡ b.page)
    × (b.page ≢ 0)
    × (word32 f (a + 4) ≡ block_size b)
    × (block_size b < 2 ^ 12)
    × AreEntries f (a + 8) b.entries
    × IsTable f (a + block_size b) end bs

abbrev pub AreInside : ℕ → List ℕ → Type 0
AreInside size [] = Unit
AreInside size (t ∷ ts) = (t + 4 ≤ size) × AreInside size ts

-- The fuel lasts for the entries of each block.
abbrev pub HasFuel : ℕ → List RelocationBlock → Type 0
HasFuel f [] = 0 < f
HasFuel f (b ∷ bs) = (length b.entries + 2 < f) × HasFuel f bs

abbrev pub with_bytes : State → (ℕ → ℕ) → State
with_bytes s f = record s {
  output = record s.output { memory = record { size = s.output.memory.size; byte = f } };
}

add_to_word-add_word :
    (delta t : ℕ) (s : State)
    → t + 4 ≤ s.output.memory.size
    → add_to_word delta t s ≡ returned tt (with_bytes s (add_word delta s.output.memory.byte t))
unfolding add_to_word read_word32 write_word32
add_to_word-add_word delta t s l =
    let inside : ltb s.output.memory.size (t + 4) ≡ false = ground arith in rw (inside, inside) refl

pub AreEntries-agree :
    (f g : ℕ → ℕ) (a end : ℕ) (es : List ℕ)
    → a + 2 * length es ≤ end
    → ((j : ℕ) → a ≤ j → j < end → g j ≡ f j)
    → AreEntries f a es
    → AreEntries g a es
AreEntries-agree f g a end [] l h e = tt
AreEntries-agree f g a end (x ∷ es) l h (e, k, rest) = (
  omega (arith, h a, h (a + 1), e),
  k,
  AreEntries-agree f g (a + 2) end es (omega arith) (λ j p q. h j (omega arith) q) rest,
)

pub AreClear-narrow :
    (lo hi lo' hi' : ℕ) (ts : List ℕ)
    → lo ≤ lo'
    → hi' ≤ hi
    → AreClear lo hi ts
    → AreClear lo' hi' ts
AreClear-narrow lo hi lo' hi' [] l l' c = tt
AreClear-narrow lo hi lo' hi' (t ∷ ts) l l' (inl c, cs) =
    (inl (omega arith), AreClear-narrow lo hi lo' hi' ts l l' cs)
AreClear-narrow lo hi lo' hi' (t ∷ ts) l l' (inr c, cs) =
    (inr (omega arith), AreClear-narrow lo hi lo' hi' ts l l' cs)

read_word16-byte :
    (a x : ℕ) (s : State)
    → a + 2 ≤ s.output.memory.size
    → word16 s.output.memory.byte a ≡ x
    → read_word16 s.output.memory a s ≡ returned x s
unfolding read_word16
read_word16-byte a x s l e =
    let inside : ltb s.output.memory.size (a + 2) ≡ false = ground arith in rw (inside, e) refl

pub read_word32-byte :
    (a x : ℕ) (s : State)
    → a + 4 ≤ s.output.memory.size
    → word32 s.output.memory.byte a ≡ x
    → read_word32 s.output.memory a s ≡ returned x s
unfolding read_word32
read_word32-byte a x s l e =
    let inside : ltb s.output.memory.size (a + 4) ≡ false = ground arith in rw (inside, e) refl

pub relocate_entry_padding :
    (delta page x : ℕ) (s : State)
    → (x / 2 ^ 12 == 0) ≡ true
    → relocate_entry delta page x s ≡ returned tt s
unfolding relocate_entry
relocate_entry_padding delta page x s e = rw e refl

relocate_entry_highlow :
    (delta page x : ℕ) (s : State)
    → x / 2 ^ 12 ≡ 3
    → page + x % 2 ^ 12 + 4 ≤ s.output.memory.size
    → relocate_entry delta page x s
      ≡ returned tt (with_bytes s (add_word delta s.output.memory.byte (page + x % 2 ^ 12)))
unfolding relocate_entry
relocate_entry_highlow delta page x s e l =
    rw e (add_to_word-add_word delta (page + x % 2 ^ 12) s l)

pub relocate_entries-relocated :
    (f delta page a end : ℕ) (es : List ℕ) (s : State)
    → length es < f
    → a + 2 * length es ≡ end
    → end ≤ s.output.memory.size
    → AreEntries s.output.memory.byte a es
    → AreClear a end (entry_targets page es)
    → AreInside s.output.memory.size (entry_targets page es)
    → relocate_entries f delta page a end s
      ≡ returned tt (with_bytes s (relocated delta s.output.memory.byte (entry_targets page es)))
unfolding relocate_entries
relocate_entries-relocated zero delta page a end es s l e fits at clear inside =
    absurd (omega arith)
relocate_entries-relocated (suc f) delta page a end [] s l e fits at clear inside =
    let stop : ltb a end ≡ false = ground arith in rw stop refl
relocate_entries-relocated (suc f) delta page a end (x ∷ es) s l e fits (ex, inl z, rest) clear
      inside =
    let go : ltb a end ≡ true = ground arith in
    let padding : (x / 2 ^ 12 == 0) ≡ true = ground arith in
    let clear' : AreClear a end (entry_targets page es) = rw padding at clear in
    let inside' : AreInside s.output.memory.size (entry_targets page es) = rw padding at inside in
    rw
      (
        go,
        read_word16-byte a x s (omega arith) ex,
        relocate_entry_padding delta page x s padding,
        padding,
      )
      (relocate_entries-relocated f delta page (a + 2) end es s (omega arith) (omega arith) fits
        rest
        (AreClear-narrow a end (a + 2) end (entry_targets page es) (omega arith) (omega arith)
          clear')
        inside')
relocate_entries-relocated (suc f) delta page a end (x ∷ es) s l e fits (ex, inr z, rest) clear
      inside =
    let go : ltb a end ≡ true = ground arith in
    let padding : (x / 2 ^ 12 == 0) ≡ false = ground arith in
    let t = page + x % 2 ^ 12 in
    let b = s.output.memory.byte in
    let clear' : AreClear a end (t ∷ entry_targets page es) = rw padding at clear in
    let inside' : AreInside s.output.memory.size (t ∷ entry_targets page es) =
      rw padding at inside in
    rw
      (
        go,
        read_word16-byte a x s (omega arith) ex,
        relocate_entry_highlow delta page x s z inside'.0,
        padding,
      )
      (relocate_entries-relocated f delta page (a + 2) end es (with_bytes s (add_word delta b t))
        (omega arith) (omega arith) fits
        (AreEntries-agree b (add_word delta b t) (a + 2) end es (omega arith)
          (λ j p q. relocated_clear delta a end (t ∷ []) b j (clear'.0, tt) (omega arith) q) rest)
        (AreClear-narrow a end (a + 2) end (entry_targets page es) (omega arith) (omega arith)
          clear'.1)
        inside'.1)
