-- ===== src/Pool/Regions.antt =====
-- Regions as functions of addresses, and blocks that one component leaves to another.
use nxdk_dyndxt.Base.{
  ◌≡◌, refl, sym, ◌∙◌, inl, inr, true, some, List, [], ◌∷◌, arith, ◌==◌, ==→≡, Bool-cases,
}
use nxdk_dyndxt.Pool.{Ptr, Region, look, update}
use nxdk_dyndxt.Pool.Owned.{has, Held, Owned}

module _ {B : Type 0} where
  Held-≡ :
      (bs : List (Ptr × B)) (f g : Region B)
      → ((p : Ptr) → look g p ≡ look f p)
      → Held bs f
      → Held bs g
  Held-≡ [] f g same h = tt
  Held-≡ ((p, b) ∷ bs) f g same h = (same p ∙ h.0, h.1, h.2, Held-≡ bs f g same h.3)

  -- A region matters by what stands in it.
  pub Owned-≡ :
      {bs : List (Ptr × B)} {f g g' : Region B}
      → ((p : Ptr) → look g' p ≡ look g p)
      → Owned bs f g
      → Owned bs f g'
  Owned-≡ {bs} same o = record {
    held = Held-≡ bs _ _ same o.held;
    new = o.new;
    same = λ p out. same p ∙ o.same p out;
  }

  -- An owned block may be left to what was there before.
  pub Owned-give :
      {bs : List (Ptr × B)} {f g : Region B} (p : Ptr) (b : B)
      → Owned ((p, b) ∷ bs) f g
      → Owned bs (update f p (some b)) g
  Owned-give {bs} p b o = record {
    held = o.held.3;
    new = λ q i. ground (arith, o.new q, o.held.2);
    same = λ q i. ground (arith, o.same q, o.held.0);
  }

  Held-look :
      (bs : List (Ptr × B)) (f g : Region B) (p : Ptr)
      → Held bs f
      → Held bs g
      → has p bs ≡ true
      → look g p ≡ look f p
  Held-look [] f g p h k i = absurd (ground arith)
  Held-look ((q, b) ∷ bs) f g p h k i = elim (Bool-cases (q == p)) [
    | inl e ↦ rw (← ==→≡ q p e, h.0, k.0) refl
    | inr e ↦ Held-look bs f g p h.3 k.3 (rw e at i)
  ]

  -- An allocation leaves the other blocks.
  pub look-Owned_cons :
      (bs : List (Ptr × B)) (f g g' : Region B) (p q : Ptr) (b c : B)
      → Owned bs f g
      → Owned ((q, b) ∷ bs) f g'
      → look g p ≡ some c
      → look g' p ≡ some c
  look-Owned_cons bs f g g' p q b c o o' there = elim (Bool-cases (has p bs)) [
    | inl i ↦ Held-look bs g g' p o.held o'.held.3 i ∙ there
    | inr i ↦ elim (Bool-cases (q == p)) [
      | inl e ↦ absurd (ground (arith, o.same p i, o'.new p))
      | inr e ↦ o'.same p (rw (e, i) refl) ∙ sym (o.same p i) ∙ there
    ]
  ]
