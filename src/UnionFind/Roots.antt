-- ===== src/UnionFind/Roots.antt =====
-- The specification of the disjoint sets: the last text on a chain of parents.
use cryptosentinel_ai.Prelude.{String, ◌≡◌, refl, sym, ◌∙◌, subst, ◌≢◌, inl, inr, String-cases}

-- `Root f x r`: the parents given by `f` lead from `x` to `r`, which is its own parent.
pub data Root (f : String → String) : String → String → Type 0 where
  stop : {x r : String} → f x ≡ x → r ≡ x → Root f x r
  step : {x r : String} → f x ≢ x → Root f (f x) r → Root f x r

pub Root-fixed : {f : String → String} {x r : String} → Root f x r → f r ≡ r
Root-fixed {f} (stop e s) = subst (λ t. f t ≡ t) (sym s) e
Root-fixed (step n d) = Root-fixed d

pub Root-unique : {f : String → String} {x r s : String} → Root f x r → Root f x s → r ≡ s
Root-unique (stop e p) (stop e' q) = p ∙ sym q
Root-unique (stop e p) (step n d) = absurd (n e)
Root-unique (step n d) (stop e q) = absurd (n e)
Root-unique (step n d) (step n' d') = Root-unique d d'

pub Root-at : {f : String → String} (x : String) → f x ≡ x → Root f x x
Root-at x e = stop e refl

-- A chain is unchanged where the parents are.
pub Root-cong :
    {f g : String → String} → ((y : String) → g y ≡ f y) → {x r : String} → Root f x r → Root g x r
Root-cong h (stop {x = x} e p) = stop (h x ∙ e) p
Root-cong {f} {g} h (step {x = x} {r = r} n d) =
    step (λ e. n (sym (h x) ∙ e)) (subst (λ t. Root g t r) (sym (h x)) (Root-cong h d))

-- Path compression: pointing a text at its root leaves every root as it was.
module _ {f g : String → String} {x r : String} (at_x : g x ≡ r)
    (off_x : (y : String) → x ≢ y → g y ≡ f y) (root : Root f x r) (moved : r ≢ x) where
  x_not_fixed : f x ≢ x
  x_not_fixed e = moved (Root-unique root (Root-at x e))

  pub Root-compress : {y s : String} → Root f y s → Root g y s
  Root-compress (stop {x = y} e p) = elim (String-cases x y) [
    | inl same ↦ absurd (x_not_fixed (subst (λ t. f t ≡ t) (sym same) e))
    | inr other ↦ stop (off_x y other ∙ e) p
  ]
  Root-compress (step {x = y} {r = s} n d) =
      let later = Root-compress d in
      elim (String-cases x y) [
        | inl same ↦
            subst (λ t. Root g t s) same
              (step (λ e. moved (sym at_x ∙ e))
                (subst (λ t. Root g t s) (sym at_x)
                  (stop (off_x r (λ e. moved (sym e)) ∙ Root-fixed root)
                    (Root-unique (subst (λ t. Root f t s) (sym same) (step n d)) root))))
        | inr other ↦
            step (λ e. n (sym (off_x y other) ∙ e))
              (subst (λ t. Root g t s) (sym (off_x y other)) later)
      ]
