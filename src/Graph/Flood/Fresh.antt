-- ===== src/Graph/Flood/Fresh.antt =====
-- The loop of `Flood` marks no id twice, and marks only ids of a set that edges do not leave.
use relay_workflow_automatio.Prelude.{
  ℕ, zero, suc, String, some, List, [], ◌∷◌, ◌≡◌, inl, inr, arith, List-cases, Distinct, subst,
}
use relay_workflow_automatio.Graph.{Edge}
use relay_workflow_automatio.Graph.Flood.{Flooding, offer, scan, flood}

scan-Distinct :
    (source : String) (s : Flooding) (es : List Edge)
    → Distinct s.marked
    → Distinct (scan source s es).marked
unfolding scan offer
scan-Distinct source s [] d = d
scan-Distinct source s (e ∷ es) d = scan-Distinct source (offer source s e) es (ground arith)

pub flood-Distinct :
    (edges : List Edge) (fuel : ℕ) (s : Flooding) (t : List String)
    → Distinct s.marked
    → flood edges fuel s ≡ some t
    → Distinct t
unfolding flood
flood-Distinct edges zero s t d e = elim (List-cases s.pending) [
  | inl empty ↦ let same : s.marked ≡ t = ground arith in subst Distinct same d
  | inr (u, rest, p) ↦ ground arith
]
flood-Distinct edges (suc fuel) s t d e = elim (List-cases s.pending) [
  | inl empty ↦ let same : s.marked ≡ t = ground arith in subst Distinct same d
  | inr (u, rest, p) ↦
      flood-Distinct edges fuel (scan u (record s { pending = rest }) edges) t
        (scan-Distinct u (record s { pending = rest }) edges d) (ground arith)
]
