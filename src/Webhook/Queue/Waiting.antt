-- ===== src/Webhook/Queue/Waiting.antt =====
-- What the statements of the queue, in any order, leave of a pending event.
use mathlib.Core.Path.{subst}
use app_catalogo.Common.{
  ℕ, ◌≤◌, ◌≡◌, refl, ◌∙◌, inl, inr, false, Option, none, some, List, [], ◌∷◌, arith, All,
  Option-cases,
}
use app_catalogo.Webhook.Queue.{pending, Row, Table}
use app_catalogo.Webhook.Queue.Find.{find_row}
use app_catalogo.Webhook.Queue.Valid.{IsValid}
use app_catalogo.Webhook.Queue.Runs.{Op, apply, is_completion, run, apply-IsValid}
use app_catalogo.Webhook.Queue.Evolution.{Evolves, Survives, apply-Survives}

-- The row of an id is there, pending, and still the event that it was.
abbrev pub Waits : Row → Option Row → Type 0
Waits r none = ⊥
Waits r (some s) =
    (s.status ≡ pending)
    × (s.event_key ≡ r.event_key)
    × (s.slug ≡ r.slug)
    × (s.received_at ≡ r.received_at)
    × (r.attempts ≤ s.attempts)

Waits-step :
    (op : Op) (t : Table) (i : ℕ) (r : Row)
    → IsValid t
    → find_row i t.rows ≡ some r
    → r.status ≡ pending
    → is_completion op ≡ false
    → (s : Row) × (find_row i (apply op t).rows ≡ some s) × Evolves false r s × (s.status ≡ pending)
Waits-step op t i r v found waiting plain =
    let after =
      subst (λ c. Survives c r (find_row i (apply op t).rows)) plain
        (apply-Survives op t i r v found) in
    elim (Option-cases (find_row i (apply op t).rows)) [
      | inl gone ↦ cc (subst (Survives false r) gone after, waiting)
      | inr (s, here) ↦
          let e = subst (Survives false r) here after in (s, here, e, e.status refl ∙ waiting)
    ]

Waits-trans : (r s : Row) (o : Option Row) → Evolves false r s → Waits s o → Waits r o
Waits-trans r s none e w = w
Waits-trans r s (some u) e (p, k, g, a, n) =
    (p, k ∙ e.event_key, g ∙ e.slug, a ∙ e.received_at, omega (arith, e.attempts))

-- Only a completion ends an event: whatever enqueues, claims, failures and clean-ups run, in
-- whatever order, a pending event of a valid table is still there afterwards, pending, under the
-- same key, slug and arrival, with no fewer attempts.
pub run-Waits :
    (ops : List Op) (t : Table) (i : ℕ) (r : Row)
    → IsValid t
    → find_row i t.rows ≡ some r
    → r.status ≡ pending
    → All (λ op. is_completion op ≡ false) ops
    → Waits r (find_row i (run ops t).rows)
unfolding run
run-Waits [] t i r v found waiting plain = rw found (waiting, refl, refl, refl, omega arith)
run-Waits (op ∷ ops) t i r v found waiting (plain, others) =
    let (s, here, e, still) = Waits-step op t i r v found waiting plain in
    Waits-trans r s _ e (run-Waits ops (apply op t) i s (apply-IsValid op v) here still others)
