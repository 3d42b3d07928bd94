-- ===== src/Cancellation/Bounds.antt =====
-- How many boxes a task ever keeps.
use spawns.Prelude.{ℕ, ◌≡◌, ◌≢◌, ◌⊎◌, inl, inr, Option, none, some, arith}
use spawns.Cancellation.{Slot, ptr, Boxes}
use spawns.Cancellation.Protocol.{Memory, current, CancelPc, System, Reach}
use spawns.Cancellation.Ownership.{Owner, nobody, slot, task, handle, held, took, Owned}
use spawns.Cancellation.Safety.{Reach-Inv}
use spawns.Cancellation.Once.{Once, Reach-Once}

-- A box that the pointer holds, or a handle.
abbrev Elsewhere : Slot → (ℕ → CancelPc) → Owner → ℕ → Type 0
Elsewhere cur pcs slot b = cur ≡ ptr b
Elsewhere cur pcs (handle i) b = took (pcs i) ≡ some b
Elsewhere cur pcs _ b = ⊥

-- Handles and the pointer never hold two boxes between them: a handle takes the box that was stored, once.
single_box :
    (pcs : ℕ → CancelPc) (m : Memory) (x y : ℕ) (o p : Owner)
    → Once pcs m
    → Elsewhere (current m.slots) pcs o x
    → Elsewhere (current m.slots) pcs p y
    → x ≡ y
single_box pcs m x y slot slot once u v = ground arith
single_box pcs m x y slot (handle j) once u v = absurd (ground (arith, once j j))
single_box pcs m x y (handle i) slot once u v = absurd (ground (arith, once i i))
single_box pcs m x y (handle i) (handle j) once u v = ground (arith, once i j)
single_box pcs m x y nobody p once u v = absurd u
single_box pcs m x y task p once u v = absurd u
single_box pcs m x y slot nobody once u v = absurd v
single_box pcs m x y slot task once u v = absurd v
single_box pcs m x y (handle i) nobody once u v = absurd v
single_box pcs m x y (handle i) task once u v = absurd v

-- A live box is the task's or elsewhere.
placed :
    (cur : Slot) (h : Option ℕ) (pcs : ℕ → CancelPc) (boxes : Boxes) (o : Owner) (b : ℕ)
    → Owned cur h pcs boxes o b
    → boxes b ≢ none
    → (h ≡ some b) ⊎ Elsewhere cur pcs o b
placed cur h pcs boxes nobody b w e = absurd (e w)
placed cur h pcs boxes slot b w e = inr w.0
placed cur h pcs boxes task b w e = inl w.0
placed cur h pcs boxes (handle i) b w e = inr w.0

module _ {s : System} (r : Reach s) where
  -- However often the task is polled, and whoever cancels it, at most two boxes are live at any
  -- time: of any three live addresses two are the same.
  two_boxes :
      (a b c : ℕ)
      → s.boxes a ≢ none
      → s.boxes b ≢ none
      → s.boxes c ≢ none
      → (a ≡ b) ⊎ (b ≡ c) ⊎ (a ≡ c)
  two_boxes a b c e f g =
      let (own, inv) = Reach-Inv r in
      let once = Reach-Once r in
      let place = λ (x : ℕ) (live : s.boxes x ≢ none).
        placed (current s.slots) (held s.task) s.cancels s.boxes (own x) x ((inv.owns 0 x).owned)
          live in
      let one = λ (x y : ℕ). single_box s.cancels s.memory x y (own x) (own y) once in
      elim (place a e) [
        | inl p ↦ elim (place b f) [
          | inl q ↦ inl (ground arith)
          | inr q ↦ elim (place c g) [
            | inl t ↦ inr (inr (ground arith))
            | inr t ↦ inr (inl (one b c q t))
          ]
        ]
        | inr p ↦ elim (place b f) [
          | inr q ↦ inl (one a b p q)
          | inl q ↦ elim (place c g) [
            | inl t ↦ inr (inl (ground arith))
            | inr t ↦ inr (inr (one a c p t))
          ]
        ]
      ]
