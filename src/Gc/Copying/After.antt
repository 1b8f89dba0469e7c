-- ===== src/Gc/Copying/After.antt =====
-- What a finished collection gives for the locations of its roots.
use mathlib.Core.Path.{subst}
use certicoq.Prelude.{ℕ, ◌≡◌, ap, ◌∙◌, List, ◌↔◌}
use certicoq.Gc.{Copy}
use certicoq.Gc.Graph.{view, follow, SameObject}
use certicoq.Gc.Copying.{Spaces, WellFormed, relocate, Done}
use certicoq.Gc.Copying.Sweep.{Cells}
use certicoq.Gc.Copying.Roots.{IsRoot}
use certicoq.Gc.Copying.Observe.{Leads, view-relocate, follow-Leads, SameObject-relocate}

module _ (S : Spaces) (wf : WellFormed S) (ls : List ℕ) (o : ℕ → ℕ) (c : Copy)
    (cells : Cells S (IsRoot ls) o c c.next) where
  open S use {m0, fs, fl, p0}

  pub root-relocate :
      (q : ℕ) → IsRoot ls q → (c.mem q ≡ relocate S c.mem (m0 q)) × Done S c.mem (m0 q)
  root-relocate q t =
      let s = cells.roots q t in
      let own : o q ≡ q = cells.inv.outside q (cells.good q t).0.1 in
      (s.value ∙ ap (λ a. relocate S c.mem (m0 a)) own, subst (λ a. Done S c.mem (m0 a)) own s.done)

  pub root_view :
      (k q : ℕ) → IsRoot ls q → view k c.mem p0 c.next (c.mem q) ≡ view k m0 fs fl (m0 q)
  root_view k q t =
      let (value, gone) = root-relocate q t in
      ap (view k c.mem p0 c.next) value
      ∙ view-relocate S wf (IsRoot ls) o c cells k (m0 q) (cells.good q t).1 gone

  root-Leads :
      (q : ℕ) (p : List ℕ)
      → IsRoot ls q
      → Leads S wf
          (IsRoot ls)
          o
          c
          cells
          (follow m0 fs fl p (m0 q))
          (follow c.mem p0 c.next p (c.mem q))
  root-Leads q p t =
      let (value, gone) = root-relocate q t in
      rw value (follow-Leads S wf (IsRoot ls) o c cells p (m0 q) (cells.good q t).1 gone)

  pub root_follow :
      (q q' : ℕ) (p p' : List ℕ)
      → IsRoot ls q
      → IsRoot ls q'
      → SameObject (follow m0 fs fl p (m0 q)) (follow m0 fs fl p' (m0 q'))
        ↔ SameObject (follow c.mem p0 c.next p (c.mem q)) (follow c.mem p0 c.next p' (c.mem q'))
  root_follow q q' p p' t t' =
      SameObject-relocate S wf (IsRoot ls) o c cells (root-Leads q p t) (root-Leads q' p' t')
