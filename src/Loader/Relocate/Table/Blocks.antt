-- ===== src/Loader/Relocate/Table/Blocks.antt =====
-- DLLRelocate's outer loop on a relocation table.
use mathlib.Core.Path.{subst}
use nxdk_dyndxt.Base.{
  ℕ, zero, suc, ◌+◌, ◌*◌, ◌/◌, ◌^◌, ◌≤◌, ◌<◌, ◌≡◌, refl, sym, ap, ◌∙◌, inl, true, List, [], ◌∷◌,
  ◌++◌, arith, ◌==◌, length, ≢→==, ≡→==,
}
use nxdk_dyndxt.Loader.Types.{State}
use nxdk_dyndxt.Loader.Run.{returned, word16, word32}
use nxdk_dyndxt.Loader.Relocate.{relocate_entries, relocate_blocks}
use nxdk_dyndxt.Loader.Relocate.Words.{add_word, relocated, AreClear, relocated_clear, word32_agree}
use nxdk_dyndxt.Loader.Relocate.Table.{
  RelocationBlock, entry_targets, targets, AreEntries, block_size, IsTable, AreInside, HasFuel,
  with_bytes, read_word32-byte, AreEntries-agree, AreClear-narrow, relocate_entries-relocated,
}

-- The halves of a block's size are two entries of padding.
size_halves :
    (f : ℕ → ℕ) (a n : ℕ)
    → word32 f a ≡ n
    → n < 2 ^ 12
    → (word16 f a / 2 ^ 12 ≡ 0) × (word16 f (a + 2) / 2 ^ 12 ≡ 0)
size_halves f a n e l =
    let low : f a + 256 * f (a + 1) < 4096 = omega arith in
    let high : f (a + 2) + 256 * f (a + 3) < 4096 = omega arith in
    let next : a + 2 + 1 ≡ a + 3 = omega arith in
    let fourth : f (a + 2 + 1) ≡ f (a + 3) = ap f next in (omega arith, omega arith)

AreClear-append :
    (lo hi : ℕ) (xs ys : List ℕ) → AreClear lo hi (xs ++ ys) → AreClear lo hi xs × AreClear lo hi ys
AreClear-append lo hi [] ys c = (tt, c)
AreClear-append lo hi (x ∷ xs) ys (c, cs) =
    let (h, t) = AreClear-append lo hi xs ys cs in ((c, h), t)

AreInside-append :
    (size : ℕ) (xs ys : List ℕ) → AreInside size (xs ++ ys) → AreInside size xs × AreInside size ys
AreInside-append size [] ys c = (tt, c)
AreInside-append size (x ∷ xs) ys (c, cs) =
    let (h, t) = AreInside-append size xs ys cs in ((c, h), t)

relocated-append :
    (delta : ℕ) (f : ℕ → ℕ) (xs ys : List ℕ)
    → relocated delta f (xs ++ ys) ≡ relocated delta (relocated delta f xs) ys
relocated-append delta f [] ys = refl
relocated-append delta f (x ∷ xs) ys = relocated-append delta (add_word delta f x) xs ys

IsTable-le : (f : ℕ → ℕ) (a end : ℕ) (bs : List RelocationBlock) → IsTable f a end bs → a + 4 ≤ end
IsTable-le f a end [] (e, l) = omega arith
IsTable-le f a end (b ∷ bs) (e, ne, es, small, entries, rest) =
    omega (arith, IsTable-le f (a + block_size b) end bs rest)

-- The same bytes hold the same table.
pub IsTable-agree :
    (f g : ℕ → ℕ) (a end : ℕ) (bs : List RelocationBlock)
    → ((j : ℕ) → a ≤ j → j < end → g j ≡ f j)
    → IsTable f a end bs
    → IsTable g a end bs
IsTable-agree f g a end [] h (e, l) = (omega (arith, h a, h (a + 1), h (a + 2), h (a + 3)), l)
IsTable-agree f g a end (b ∷ bs) h (e, ne, es, small, entries, rest) =
    let l = IsTable-le f (a + block_size b) end bs rest in
    (
      word32_agree f g a (λ j p q. h j p (omega arith)) ∙ e,
      ne,
      word32_agree f g (a + 4) (λ j p q. h j (omega arith) (omega arith)) ∙ es,
      small,
      AreEntries-agree f g (a + 8) end b.entries (omega arith) (λ j p q. h j (omega arith) q)
          entries,
      IsTable-agree f g (a + block_size b) end bs (λ j p q. h j (omega arith) q) rest,
    )

-- A block: its size is taken for two entries of padding in front of its entries.
relocate_block-relocated :
    (inner delta a : ℕ) (b : RelocationBlock) (s : State)
    → length b.entries + 2 < inner
    → a + block_size b ≤ s.output.memory.size
    → word32 s.output.memory.byte (a + 4) ≡ block_size b
    → block_size b < 2 ^ 12
    → AreEntries s.output.memory.byte (a + 8) b.entries
    → AreClear a (a + block_size b) (entry_targets b.page b.entries)
    → AreInside s.output.memory.size (entry_targets b.page b.entries)
    → relocate_entries inner delta b.page (a + 4) (a + block_size b) s
      ≡ returned tt
          (with_bytes s (relocated delta s.output.memory.byte (entry_targets b.page b.entries)))
relocate_block-relocated inner delta a b s fuel fits es small entries clear inside =
    let byte = s.output.memory.byte in
    let halves : List ℕ = word16 byte (a + 4) ∷ word16 byte (a + 4 + 2) ∷ b.entries in
    let (low, high) = size_halves byte (a + 4) (block_size b) es small in
    let low' : (word16 byte (a + 4) / 2 ^ 12 == 0) ≡ true = ≡→== _ _ low in
    let high' : (word16 byte (a + 4 + 2) / 2 ^ 12 == 0) ≡ true = ≡→== _ _ high in
    let same : entry_targets b.page halves ≡ entry_targets b.page b.entries =
      rw (low', high') refl in
    let at : a + 8 ≡ a + 4 + 2 + 2 = omega arith in
    let entries' : AreEntries byte (a + 4 + 2 + 2) b.entries =
      subst (λ k. AreEntries byte k b.entries) at entries in
    relocate_entries-relocated inner delta b.page (a + 4) (a + block_size b) halves s (omega arith)
      (omega arith) fits (refl, inl low, (refl, inl high, entries'))
      (subst (λ ts. AreClear (a + 4) (a + block_size b) ts) (sym same)
        (AreClear-narrow a (a + block_size b) (a + 4) (a + block_size b)
          (entry_targets b.page b.entries) (omega arith) (omega arith) clear))
      (subst (λ ts. AreInside s.output.memory.size ts) (sym same) inside)
    ∙ ap (λ ts. returned tt (with_bytes s (relocated delta byte ts))) same

pub relocate_blocks-relocated :
    (f inner delta a end : ℕ) (bs : List RelocationBlock) (s : State)
    → length bs < f
    → HasFuel inner bs
    → end ≤ s.output.memory.size
    → IsTable s.output.memory.byte a end bs
    → AreClear a end (targets bs)
    → AreInside s.output.memory.size (targets bs)
    → relocate_blocks f inner delta a s
      ≡ returned tt (with_bytes s (relocated delta s.output.memory.byte (targets bs)))
unfolding relocate_blocks
relocate_blocks-relocated zero inner delta a end bs s l fuel fits table clear inside =
    absurd (omega arith)
relocate_blocks-relocated (suc f) inner delta a end [] s l fuel fits (e, last) clear inside =
    rw (read_word32-byte a 0 s (omega arith) e) refl
relocate_blocks-relocated (suc f) inner delta a end (b ∷ bs) s l (fuel, fuels) fits
      (e, ne, es, small, entries, rest) clear inside =
    let byte = s.output.memory.byte in
    let ts = entry_targets b.page b.entries in
    let next = a + block_size b in
    let le : next + 4 ≤ end = IsTable-le byte next end bs rest in
    let (clear', rest_clear) = AreClear-append a end ts (targets bs) clear in
    let (inside', rest_inside) = AreInside-append s.output.memory.size ts (targets bs) inside in
    let g = relocated delta byte ts in
    rw
      (
        read_word32-byte a b.page s (omega arith) e,
        ≢→== b.page 0 ne,
        read_word32-byte (a + 4) (block_size b) s (omega arith) es,
        relocate_block-relocated inner delta a b s fuel (omega arith) es small entries
            (AreClear-narrow a end a next ts (omega arith) (omega arith) clear') inside',
        relocated-append delta byte ts (targets bs),
      )
      (relocate_blocks-relocated f inner delta next end bs (with_bytes s g) (omega arith) fuels fits
        (IsTable-agree byte g next end bs
          (λ j p q. relocated_clear delta a end ts byte j clear' (omega arith) q) rest)
        (AreClear-narrow a end next end (targets bs) (omega arith) (omega arith) rest_clear)
        rest_inside)
