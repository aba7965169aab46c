-- ===== src/Loader/Load/Freed.antt =====
-- DLLFreeContext on the blocks that the output points to.
use nxdk_dyndxt.Base.{
  ◌≡◌, refl, sym, ap, inl, inr, false, List, ◌∷◌, ◌==◌, Bool-cases, if◌then◌else◌, ==→≡, ==_refl,
}
use nxdk_dyndxt.Pool.{Ptr, null}
use nxdk_dyndxt.Loader.Types.{State}
use nxdk_dyndxt.Loader.Run.{returned, free}
use nxdk_dyndxt.Loader.Parse.{free_block, dll_free_context}

-- A block that a pointer owns, if it is not null
abbrev pub cell : Ptr → List Ptr → List Ptr
cell p ps = if p == null then ps else p ∷ ps

-- Besides `ps`, exactly the output's blocks are allocated.
abbrev pub Held : List Ptr → State → Type 0
Held ps s = s.live ≡ cell s.output.image (cell s.output.section_headers ps)

free_block-cell :
    (p : Ptr) (ps : List Ptr) (s : State)
    → s.live ≡ cell p ps
    → free_block p s ≡ returned tt (record s { live = ps })
unfolding free_block free
free_block-cell p ps s e = elim (Bool-cases (p == null)) [
  | inl y ↦ let live : s.live ≡ ps = rw y at e in rw (y, live) refl
  | inr y ↦ let live : s.live ≡ p ∷ ps = rw y at e in rw (y, live, ==_refl p) refl
]

pub free_block_under :
    (q p : Ptr) (ps : List Ptr) (s : State)
    → s.live ≡ cell q (cell p ps)
    → free_block p s ≡ returned tt (record s { live = cell q ps })
unfolding free_block free
free_block_under q p ps s e = elim (Bool-cases (q == null)) [
  | inl y ↦ let live : s.live ≡ cell p ps = rw y at e in rw y (free_block-cell p ps s live)
  | inr y ↦ elim (Bool-cases (p == null)) [
    | inl z ↦ let live : s.live ≡ q ∷ ps = rw (y, z) at e in rw (z, y, live) refl
    | inr z ↦
        let live : s.live ≡ q ∷ p ∷ ps = rw (y, z) at e in
        elim (Bool-cases (q == p)) [
          | inl same ↦
              rw (z, y, live, same)
                (ap (λ r. returned tt (record s { live = r ∷ ps })) (sym (==→≡ q p same)))
          | inr differ ↦ rw (z, y, live, differ, ==_refl p) refl
        ]
  ]
]

-- DLLFreeContext(ctx, false)
pub free_context_lem :
    (ps : List Ptr) (s : State)
    → Held ps s
    → dll_free_context false s
      ≡ returned tt (record s {
        live = ps;
        output = record s.output { section_headers = null; image = null };
      })
unfolding dll_free_context
free_context_lem ps s e = rw (free_block_under s.output.image s.output.section_headers ps s e) (
    rw
      (free_block-cell s.output.image ps
        (record s {
          live = cell s.output.image ps;
          output = record s.output { section_headers = null };
        })
        refl)
      refl)
