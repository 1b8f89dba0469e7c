-- ===== src/Gc/Layout/Append.antt =====
-- Blocks after blocks: a space whose words are those of two lists of blocks.
use mathlib.Core.Path.{subst}
use certicoq.Prelude.{
  ℕ, ◌+◌, ◌≤◌, ◌<◌, ◌≡◌, ◌⊎◌, inl, inr, List, [], ◌∷◌, ◌++◌, arith, ap, ◌∙◌, sym,
}
use certicoq.Words.{wosize_hd}
use certicoq.Memory.{Mem}
use certicoq.Gc.Layout.{Blocks, IsHeader}

pub Blocks-append :
    (m : Mem) (s : ℕ) (ns ks : List ℕ) (e e' : ℕ)
    → Blocks m s ns e
    → Blocks m e ks e'
    → Blocks m s (ns ++ ks) e'
Blocks-append m s [] ks e e' b b' = subst (λ t. Blocks m t ks e') (sym b) b'
Blocks-append m s (n ∷ ns) ks e e' b b' =
    (b.0, b.1, b.2, Blocks-append m (s + 1 + n) ns ks e e' b.3 b')

pub IsHeader-append_left :
    (s : ℕ) (ns ks : List ℕ) (x : ℕ) → IsHeader s ns x → IsHeader s (ns ++ ks) x
IsHeader-append_left s [] ks x h = absurd h
IsHeader-append_left s (n ∷ ns) ks x (inl e) = inl e
IsHeader-append_left s (n ∷ ns) ks x (inr h) = inr (IsHeader-append_left (s + 1 + n) ns ks x h)

pub IsHeader-append_right :
    (m : Mem) (s : ℕ) (ns ks : List ℕ) (e x : ℕ)
    → Blocks m s ns e
    → IsHeader e ks x
    → IsHeader s (ns ++ ks) x
IsHeader-append_right m s [] ks e x b h = subst (λ t. IsHeader t ks x) (sym b) h
IsHeader-append_right m s (n ∷ ns) ks e x b h =
    inr (IsHeader-append_right m (s + 1 + n) ns ks e x b.3 h)

pub IsHeader-append_cases :
    (m : Mem) (s : ℕ) (ns ks : List ℕ) (e x : ℕ)
    → Blocks m s ns e
    → IsHeader s (ns ++ ks) x
    → IsHeader s ns x ⊎ IsHeader e ks x
IsHeader-append_cases m s [] ks e x b h = inr (subst (λ t. IsHeader t ks x) b h)
IsHeader-append_cases m s (n ∷ ns) ks e x b (inl p) = inl (inl p)
IsHeader-append_cases m s (n ∷ ns) ks e x b (inr h) =
    elim (IsHeader-append_cases m (s + 1 + n) ns ks e x b.3 h) [
      | inl l ↦ inl (inr l)
      | inr r ↦ inr r
    ]

pub Blocks-le : (m : Mem) (s : ℕ) (ns : List ℕ) (e : ℕ) → Blocks m s ns e → s ≤ e
Blocks-le m s [] e b = omega arith
Blocks-le m s (n ∷ ns) e b = omega (arith, Blocks-le m (s + 1 + n) ns e b.3)

-- The layout depends on the words of the blocks alone.
pub Blocks-agree :
    (m m' : Mem) (s : ℕ) (ns : List ℕ) (e : ℕ)
    → Blocks m s ns e
    → ((y : ℕ) → s ≤ y → y < e → m' y ≡ m y)
    → Blocks m' s ns e
Blocks-agree m m' s [] e b same = b
Blocks-agree m m' s (n ∷ ns) e b same = (
  ap wosize_hd (same s (omega arith) (omega (arith, Blocks-le m (s + 1 + n) ns e b.3))) ∙ b.0,
  b.1,
  b.2,
  Blocks-agree m m' (s + 1 + n) ns e b.3 (λ y l u. same y (omega arith) u),
)
