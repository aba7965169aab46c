-- ===== src/Pool/Context.antt =====
-- Places in a list of owned blocks. A context puts its own blocks in front of a rest.
use mathlib.Core.List.{append_assoc}
use mathlib.Core.Path.{subst}
use nxdk_dyndxt.Base.{◌≡◌, refl, sym, ap, ◌∙◌, List, [], ◌∷◌, ◌++◌}
use nxdk_dyndxt.Pool.{Ptr, Region}
use nxdk_dyndxt.Pool.Owned.{Held, Owned, Owned-insert, Owned-extract}

module _ {B : Type 0} where
  abbrev pub IsContext : (List (Ptr × B) → List (Ptr × B)) → Type 0
  IsContext k = (bs : List (Ptr × B)) → k bs ≡ k [] ++ bs

  pub IsContext-id : IsContext (λ bs. bs)
  IsContext-id bs = refl

  pub IsContext-cons :
      (b : Ptr × B) (k : List (Ptr × B) → List (Ptr × B)) → IsContext k → IsContext (λ bs. b ∷ k bs)
  IsContext-cons b k c bs = ap (◌∷◌ b) (c bs)

  pub IsContext-compose :
      (k l : List (Ptr × B) → List (Ptr × B))
      → IsContext k
      → IsContext l
      → IsContext (λ bs. k (l bs))
  IsContext-compose k l c d bs =
      c (l bs)
      ∙ ap (λ cs. k [] ++ cs) (d bs)
      ∙ sym (append_assoc (k []) (l []) bs)
      ∙ ap (λ cs. cs ++ bs) (sym (c (l [])))

  pub Held-append_right : (xs ys : List (Ptr × B)) (f : Region B) → Held (xs ++ ys) f → Held ys f
  Held-append_right [] ys f h = h
  Held-append_right (x ∷ xs) ys f h = Held-append_right xs ys f h.3

  module _ (k : List (Ptr × B) → List (Ptr × B)) (c : IsContext k) where
    pub Held-inside : (bs : List (Ptr × B)) (f : Region B) → Held (k bs) f → Held bs f
    Held-inside bs f h = Held-append_right (k []) bs f (subst (λ cs. Held cs f) (c bs) h)

    -- A block comes out to the front, or goes in from there.
    pub Owned-out :
        (b : Ptr × B) (bs : List (Ptr × B)) {f g : Region B}
        → Owned (k (b ∷ bs)) f g
        → Owned (b ∷ k bs) f g
    Owned-out b bs {f} {g} o =
        subst (λ cs. Owned (b ∷ cs) f g) (sym (c bs))
          (Owned-extract (k []) bs b.0 b.1 (subst (λ cs. Owned cs f g) (c (b ∷ bs)) o))

    pub Owned-in :
        (b : Ptr × B) (bs : List (Ptr × B)) {f g : Region B}
        → Owned (b ∷ k bs) f g
        → Owned (k (b ∷ bs)) f g
    Owned-in b bs {f} {g} o =
        subst (λ cs. Owned cs f g) (sym (c (b ∷ bs)))
          (Owned-insert (k []) bs b.0 b.1 (subst (λ cs. Owned (b ∷ cs) f g) (c bs) o))
