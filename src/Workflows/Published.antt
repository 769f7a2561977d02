-- ===== src/Workflows/Published.antt =====
-- The published workflows of a runbook: apps/api/apps/workflows/services.py.
use Prim.Native.Nat.{ℕ}
use mathlib.Core.Path.{◌≡◌, refl, sym, ap, ◌∙◌}
use mathlib.Core.Logic.{◌⊎◌, inl, inr}
use native.Mathlib.Omega.{arith}
use mathlib.Core.Bool.{true}
use mathlib.Core.Option
use mathlib.Core.Option.{Option, none, some}
use mathlib.Core.List.{List}
use runbook_platform.Prelude.Tests.{◌==◌, nat_eq, string_eq, eq_iff, Bool-cases, if◌then◌else◌}
use runbook_platform.Prelude.Tables.{
  find_row, find_row_key, update_row, update_where, find_row-update_row, find_row-update_where,
}
use runbook_platform.Workflows.Model.{Workflow, workflow_row}
use runbook_platform.Workflows.Publication.{
  is_published, is_sibling, write_superseded, write_published,
}

-- Two published workflows of a runbook are the same one.
pub record OnePublished (ws : List Workflow) : Type 0 where
  pub one :
      (i j : ℕ) (p q : Workflow)
      → find_row i ws ≡ some p
      → find_row j ws ≡ some q
      → is_published p.status ≡ true
      → is_published q.status ≡ true
      → p.runbook_id ≡ q.runbook_id
      → i ≡ j

-- The row whose image under `f` was found.
found-map :
    (f : Workflow → Workflow) (o : Option Workflow) (q : Workflow)
    → Option.map f o ≡ some q
    → (p : Workflow) × (o ≡ some p) × (f p ≡ q)
found-map f none q h = absurd (ground (arith, h))
found-map f (some p) q h = (p, refl, ground (arith, h))

-- Every published row of `qs` was one of `ps`, with the same runbook.
record NoneNew (ps qs : List Workflow) : Type 0 where
  pub was :
      (j : ℕ) (q : Workflow)
      → find_row j qs ≡ some q
      → is_published q.status ≡ true
      → (p : Workflow) × (find_row j ps ≡ some p)
        × (is_published p.status ≡ true)
        × (p.runbook_id ≡ q.runbook_id)

OnePublished-NoneNew : (ps qs : List Workflow) → NoneNew ps qs → OnePublished ps → OnePublished qs
OnePublished-NoneNew ps qs n h = record {
  one = λ i j p q fi fj a b same.
      let s = n.was i p fi a in
      let t = n.was j q fj b in h.one i j s.0 t.0 s.1 t.1 s.2 t.2 (s.3 ∙ same ∙ sym t.3);
}

-- A write of one row that publishes nothing.
pub OnePublished-write :
    (k : ℕ) (f : Workflow → Workflow) (ws : List Workflow)
    → ((x : Workflow) → (f x).id ≡ x.id)
    → ((x : Workflow) → (f x).runbook_id ≡ x.runbook_id)
    → ((x : Workflow) → is_published (f x).status ≡ true → is_published x.status ≡ true)
    → OnePublished ws
    → OnePublished (update_row k f ws)
OnePublished-write k f ws keeps same fewer = OnePublished-NoneNew ws (update_row k f ws) (record {
  was = λ j q found active.
      let e = sym (find_row-update_row j k f ws keeps) ∙ found in
      elim (Bool-cases (k == j)) [
        | inl t ↦
            let m = found-map f (find_row j ws) q (ground (arith, e, t)) in
            (
              m.0,
              m.1,
              fewer m.0 (ap (λ x. is_published x.status) m.2 ∙ active),
              sym (same m.0) ∙ ap (λ x. x.runbook_id) m.2,
            )
        | inr t ↦ (q, ground (arith, e, t), active, refl)
      ];
})

-- `row` as a publication writes it, and what it does to another row.
abbrev superseded_by : Workflow → Workflow → Workflow
superseded_by row x = if is_sibling row x then write_superseded x else x

superseded_by-runbook : (row x : Workflow) → (superseded_by row x).runbook_id ≡ x.runbook_id
superseded_by-runbook row x = elim (Bool-cases (is_sibling row x)) [
  | inl e ↦ rw e refl
  | inr e ↦ rw e refl
]

still_published-apart :
    (row p : Workflow)
    → (row.id ≡ p.id → ⊥)
    → is_published (superseded_by row p).status ≡ true
    → (superseded_by row p ≡ p) × (row.runbook_id ≡ p.runbook_id → ⊥)
still_published-apart row p apart h = elim (Bool-cases (is_sibling row p)) [
  | inl e ↦ absurd (ground (arith, h, e))
  | inr e ↦ (rw e refl, λ same. ground (arith, h, e, apart, same))
]

-- A published row after a publication: the row itself, or one of another runbook.
published-found :
    (k : ℕ) (row : Workflow) (ws : List Workflow) (j : ℕ) (q : Workflow)
    → find_row k ws ≡ some row
    → find_row j (update_row k write_published (update_where (is_sibling row) write_superseded ws))
      ≡ some q
    → is_published q.status ≡ true
    → (k ≡ j × row.runbook_id ≡ q.runbook_id)
      ⊎ ((row.runbook_id ≡ q.runbook_id → ⊥) × find_row j ws ≡ some q)
published-found k row ws j q at found active =
    let us = update_where (is_sibling row) write_superseded ws in
    let put = sym (find_row-update_row j k write_published us (λ _. refl)) ∙ found in
    let kept = find_row-update_where j (is_sibling row) write_superseded ws (λ _. refl) in
    elim (Bool-cases (k == j)) [
      | inl t ↦
          let same = (eq_iff k j).0 t in
          let u = found-map write_published (find_row j us) q (ground (arith, put, t)) in
          let m = found-map (superseded_by row) (find_row j ws) u.0 (sym kept ∙ u.1) in
          let e : row ≡ m.0 = ground (arith, at, m.1, same) in
          inl (
            same,
            ap (λ x. x.runbook_id) e
                ∙ sym (superseded_by-runbook row m.0)
                ∙ ap (λ x. x.runbook_id) m.2
                ∙ ap (λ x. x.runbook_id) u.2,
          )
      | inr t ↦
          let m =
            found-map (superseded_by row) (find_row j ws) q (sym kept ∙ ground (arith, put, t)) in
          let d =
            still_published-apart row m.0
              (λ same. ground (
                arith,
                t,
                (eq_iff k j).1 (sym (find_row_key k ws row at) ∙ same ∙ find_row_key j ws m.0 m.1),
              ))
              (ap (λ x. is_published x.status) m.2 ∙ active) in
          let e = sym d.0 ∙ m.2 in
          inr (λ same. d.1 (same ∙ ap (λ x. x.runbook_id) (sym e)), m.1 ∙ ap some e)
    ]

pub OnePublished-publish :
    (k : ℕ) (row : Workflow) (ws : List Workflow)
    → find_row k ws ≡ some row
    → OnePublished ws
    → OnePublished
        (update_row k write_published (update_where (is_sibling row) write_superseded ws))
OnePublished-publish k row ws at h = record {
  one = λ i j p q fi fj a b same. elim (published-found k row ws i p at fi a) [
    | inl (x, r) ↦ elim (published-found k row ws j q at fj b) [
      | inl (y, s) ↦ sym x ∙ y
      | inr (y, s) ↦ absurd (y (r ∙ same))
    ]
    | inr (x, r) ↦ elim (published-found k row ws j q at fj b) [
      | inl (y, s) ↦ absurd (x (s ∙ sym same))
      | inr (y, s) ↦ h.one i j p q r s a b same
    ]
  ];
}
