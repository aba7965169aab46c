-- ===== src/Loader/Load/Settled.antt =====
-- How DLLLoad and DLLParse leave their caller: with the image and the section headers, or with a
-- status that tells why not and no memory.
use mathlib.Core.Path.{subst}
use nxdk_dyndxt.Base.{
  ℕ, ◌*◌, ◌%◌, ◌^◌, ◌≡◌, ◌≢◌, refl, ap, inl, inr, false, List, ◌∷◌, arith, ◌==◌, Bool-cases, not,
  ≢→==, ltb,
}
use nxdk_dyndxt.Pool.{Ptr, null}
use nxdk_dyndxt.Loader.Types.{ok, invalid_signature, error, DllLoaderInput, ImageNtHeaders, State}
use nxdk_dyndxt.Loader.Run.{Run, M, returned, failed, fault, out_of_fuel, and_then, alloc}
use nxdk_dyndxt.Loader.Parse.{
  parse_section_table, parse_header, dll_load_image, dll_process_sections,
}
use nxdk_dyndxt.Loader.Load.{or_free, dll_parse, dll_load}
use nxdk_dyndxt.Loader.Kept.{
  Blocks, blocks, Kept, check-Kept, advance_read_ptr-Kept, advance_past-Kept, read_word16-Kept,
  read_word32-Kept, read_nt_headers-Kept, read_section_headers-Kept, copy_to_image-Kept,
  check_header-Kept, process_section_list-Kept,
}
use nxdk_dyndxt.Loader.Kept.Imports.{dll_resolve_imports-Kept}
use nxdk_dyndxt.Loader.Kept.Relocate.{dll_relocate-Kept}
use nxdk_dyndxt.Loader.Load.Freed.{cell, Held, free_context_lem}

-- A step of DLLParse before its failures are cleaned up: `P` on success, nothing lost on failure.
data Step (ps : List Ptr) (P : State → Type 0) : Run (Unit {0}) → Type 0 where
  done : (s : State) → P s → s.output.status ≡ ok → Step ps P (returned tt s)
  refused : (s : State) → Held ps s → s.output.status ≢ ok → Step ps P (failed s)
  faulted : Step ps P fault
  cut_off : Step ps P out_of_fuel

-- How a run ends: with what `P` says, or with everything freed.
pub data Settled (ps : List Ptr) (P : State → Type 0) : Run (Unit {0}) → Type 0 where
  loaded : (s : State) → P s → s.output.status ≡ ok → Settled ps P (returned tt s)
  refused :
      (s : State)
      → s.live ≡ ps
      → s.output.image ≡ null
      → s.output.section_headers ≡ null
      → s.output.status ≢ ok
      → Settled ps P (failed s)
  faulted : Settled ps P fault
  cut_off : Settled ps P out_of_fuel

or_free-Settled :
    {ps : List Ptr} {P : State → Type 0} {r : Run (Unit {0})}
    → Step ps P r
    → Settled ps P (or_free r)
unfolding or_free
or_free-Settled (Step.done s p g) = loaded s p g
or_free-Settled {ps} (Step.refused s held g) =
    rw (free_context_lem ps s held) (Settled.refused _ refl refl refl g)
or_free-Settled Step.faulted = Settled.faulted
or_free-Settled Step.cut_off = Settled.cut_off

Settled-bind :
    {ps : List Ptr} {P Q : State → Type 0} {r : Run (Unit {0})} (f : Unit {0} → M (Unit {0}))
    → Settled ps P r
    → ((s : State) → P s → s.output.status ≡ ok → Settled ps Q (f tt s))
    → Settled ps Q (and_then r f)
Settled-bind f (loaded s p g) k = k s p g
Settled-bind f (Settled.refused s a b c g) k = Settled.refused s a b c g
Settled-bind f Settled.faulted k = Settled.faulted
Settled-bind f Settled.cut_off k = Settled.cut_off

-- A step that neither allocates nor frees
Kept-Step :
    {ps : List Ptr} {P : State → Type 0} {b : Blocks} {r : Run (Unit {0})}
    → ((s : State) → blocks s ≡ b → P s × Held ps s)
    → Kept b r
    → Step ps P r
Kept-Step k (Kept.went_on tt s e g) = done s (k s e).0 g
Kept-Step k (Kept.gave_up s e g) = Step.refused s (k s e).1 g
Kept-Step k Kept.faulted = Step.faulted
Kept-Step k Kept.cut_off = Step.cut_off

-- After the headers: the section headers are allocated, the image is not.
abbrev HasHeaders : List Ptr → State → Type 0
HasHeaders ps s =
    (s.output.image ≡ null)
    × (s.output.section_headers ≢ null)
    × (s.live ≡ s.output.section_headers ∷ ps)

-- Both are allocated.
abbrev pub HasImage : List Ptr → State → Type 0
HasImage ps s =
    (s.output.image ≢ null)
    × (s.output.section_headers ≢ null)
    × (s.live ≡ s.output.image ∷ s.output.section_headers ∷ ps)

Step-bind :
    {ps : List Ptr} {A : Type 0} {P : State → Type 0} {b : Blocks} {r : Run A}
    {f : A → M (Unit {0})}
    → ((s : State) → blocks s ≡ b → Held ps s)
    → Kept b r
    → ((a : A) (s : State) → blocks s ≡ b → s.output.status ≡ ok → Step ps P (f a s))
    → Step ps P (and_then r f)
Step-bind held (Kept.went_on a s e g) k = k a s e g
Step-bind held (Kept.gave_up s e g) k = Step.refused s (held s e) g
Step-bind held Kept.faulted k = Step.faulted
Step-bind held Kept.cut_off k = Step.cut_off

-- No block is allocated yet.
abbrev IsBare : List Ptr → Blocks
IsBare ps = (ps, null, null)

bare-Held : (ps : List Ptr) (s : State) → blocks s ≡ IsBare ps → Held ps s
bare-Held ps s e =
    ground
      (arith, ap (λ (b : Blocks). b.0) e, ap (λ (b : Blocks). b.1) e, ap (λ (b : Blocks). b.2) e)

bare_live : (ps : List Ptr) (s : State) → blocks s ≡ IsBare ps → s.live ≡ cell s.output.image ps
bare_live ps s e = ground (arith, ap (λ (b : Blocks). b.0) e, ap (λ (b : Blocks). b.1) e)

headers-HasHeaders :
    (ps : List Ptr) (p : Ptr) (s : State)
    → p ≢ null
    → blocks s ≡ (p ∷ ps, null, p)
    → HasHeaders ps s × Held ps s
headers-HasHeaders ps p s ne e =
    ground
      (arith, ap (λ (b : Blocks). b.0) e, ap (λ (b : Blocks). b.1) e, ap (λ (b : Blocks). b.2) e)

images-HasImage :
    (ps : List Ptr) (q p : Ptr) (s : State)
    → q ≢ null
    → p ≢ null
    → blocks s ≡ (q ∷ p ∷ ps, q, p)
    → HasImage ps s × Held ps s
images-HasImage ps q p s ne ne' e =
    ground
      (arith, ap (λ (b : Blocks). b.0) e, ap (λ (b : Blocks). b.1) e, ap (λ (b : Blocks). b.2) e)

module _ (i : DllLoaderInput) (ps : List Ptr) where
  section_table-Step :
      (h : ImageNtHeaders) (p : ℕ) (s : State)
      → blocks s ≡ IsBare ps
      → s.output.status ≡ ok
      → Step ps (HasHeaders ps) (parse_section_table i h p s)
  unfolding parse_section_table alloc
  section_table-Step h p s e g =
      let n = h.number_of_sections * 40 in
      let q = i.alloc s.calls n in
      elim (Bool-cases (q == null)) [
        | inl y ↦ rw y (Step.refused _ (bare_live ps s e) (λ z. cc))
        | inr y ↦
            let held : (t : State) → blocks t ≡ (q ∷ ps, null, q) → HasHeaders ps t × Held ps t =
              λ t z. headers-HasHeaders ps q t (λ w. ground arith) z in
            let now : ◌≡◌ {A = Blocks} (q ∷ s.live, s.output.image, q) (q ∷ ps, null, q) =
              ap (λ (b : Blocks). (q ∷ b.0, b.1, q)) e in
            rw (y, y)
              (Step-bind (λ t z. (held t z).1) (advance_read_ptr-Kept _ now g i p n)
                λ eof s₁ e₁ g₁.
                  Step-bind (λ t z. (held t z).1)
                    (read_section_headers-Kept s₁ e₁ g₁ i.raw p h.number_of_sections)
                    λ xs s₂ e₂ g₂. done _ (held s₂ e₂).0 g₂)
      ]

  parse_header-Step :
      (s : State)
      → blocks s ≡ IsBare ps
      → s.output.status ≡ ok
      → Step ps (HasHeaders ps) (parse_header i s)
  unfolding parse_header
  parse_header-Step s e g =
      let held = bare-Held ps in
      Step-bind held (advance_read_ptr-Kept _ e g i 0 64) λ p s₁ e₁ g₁.
        Step-bind held (read_word16-Kept s₁ e₁ g₁ i.raw 0) λ magic s₂ e₂ g₂.
          Step-bind held (check-Kept s₂ e₂ g₂ (magic == 0x5A4D) invalid_signature (λ z. cc))
            λ _ s₃ e₃ g₃. Step-bind held (read_word32-Kept s₃ e₃ g₃ i.raw 60) λ lfanew s₄ e₄ g₄.
              Step-bind held (advance_past-Kept s₄ e₄ g₄ i p lfanew 64) λ nt s₅ e₅ g₅.
                Step-bind held (advance_read_ptr-Kept _ e₅ g₅ i nt 248) λ optional_end s₆ e₆ g₆.
                  Step-bind held (read_nt_headers-Kept s₆ e₆ g₆ i.raw nt) λ h s₇ e₇ g₇.
                    Step-bind held (check_header-Kept h _ e₇ g₇) λ _ s₈ e₈ g₈.
                      Step-bind held
                        (advance_past-Kept s₈ e₈ g₈ i optional_end h.size_of_optional_header 224)
                        λ table s₉ e₉ g₉. section_table-Step h table s₉ e₉ g₉

  load_image-Step :
      (s : State)
      → HasHeaders ps s
      → s.output.status ≡ ok
      → Step ps (HasImage ps) (dll_load_image i s)
  unfolding dll_load_image alloc
  load_image-Step s (bare, ne, live) g =
      let n = s.output.header.size_of_image in
      let q = i.alloc s.calls n in
      let h = s.output.section_headers in
      let some_headers : (h == null) ≡ false = ≢→== h null ne in
      elim (Bool-cases (q == null)) [
        | inl y ↦ rw y (Step.refused _ (rw some_headers live) (λ z. cc))
        | inr y ↦
            let held : (t : State) → blocks t ≡ (q ∷ h ∷ ps, q, h) → HasImage ps t × Held ps t =
              λ t z. images-HasImage ps q h t (λ w. ground arith) ne z in
            let now : ◌≡◌ {A = Blocks} (q ∷ s.live, q, h) (q ∷ h ∷ ps, q, h) =
              ap (λ (l : List Ptr). (q ∷ l, q, h)) live in
            rw (y, y)
              (Step-bind (λ t z. (held t z).1)
                (check-Kept _ now g (not (ltb n s.output.header.size_of_headers)) error (λ z. cc))
                λ _ s₁ e₁ g₁.
                  Kept-Step held
                    (copy_to_image-Kept s₁ e₁ g₁ 0 i.raw 0 s.output.header.size_of_headers))
      ]

  image-Step :
      {r : Run (Unit {0})} (q h : Ptr)
      → q ≢ null
      → h ≢ null
      → Kept (q ∷ h ∷ ps, q, h) r
      → Step ps (HasImage ps) r
  image-Step q h ne ne' k = Kept-Step (λ s e. images-HasImage ps q h s ne ne' e) k

  -- A step of DLLParse or DLLLoad on an image
  after_image :
      {r : Run (Unit {0})} (s : State)
      → HasImage ps s
      → Kept (blocks s) r
      → Settled ps (HasImage ps) (or_free r)
  after_image {r} s (ne, ne', live) k = or_free-Settled (
      image-Step s.output.image s.output.section_headers ne ne'
        (subst (λ l. Kept (l, s.output.image, s.output.section_headers) {A = Unit {0}} r) live k))

  dll_parse-Settled : (f : ℕ) (s : State) → s.live ≡ ps → Settled ps (HasImage ps) (dll_parse i f s)
  unfolding dll_parse dll_process_sections
  dll_parse-Settled f s e =
      Settled-bind _
        (or_free-Settled (parse_header-Step _ (ap (λ (l : List Ptr). (l, null, null)) e) refl))
        λ s₁ p₁ g₁. Settled-bind _ (or_free-Settled (load_image-Step s₁ p₁ g₁)) λ s₂ p₂ g₂.
          Settled-bind _
            (after_image s₂ p₂ (process_section_list-Kept i s₂.output.sections s₂ refl g₂))
            λ s₃ p₃ g₃. after_image s₃ p₃ (dll_resolve_imports-Kept i f s₃ refl g₃)

  -- DLLLoad ends in success, with status DLLL_OK and exactly the image and the section headers
  -- added to the memory that was allocated before; or in failure, with another status, both
  -- pointers NULL and the memory as before; or it leaves the memory it may use, or the fuel.
  pub dll_load-Settled :
      (f : ℕ) (s : State) → s.live ≡ ps → Settled ps (HasImage ps) (dll_load i f s)
  unfolding dll_load
  dll_load-Settled f s e =
      Settled-bind _ (dll_parse-Settled f s e)
        λ s₁ p₁ g₁. after_image s₁ p₁ (dll_relocate-Kept f (s₁.output.image % 2 ^ 32) s₁ refl g₁)
