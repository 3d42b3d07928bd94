-- ===== src/Cancellation/Words.antt =====
-- spawns-core/src/task.rs: `Cancellation` on the words that its `AtomicPtr` holds. A pointer is an
-- address: 0 is null, and `CANCELLED` is the address of the code of `Cancellation::cancel`, a
-- parameter. The tests are `ptr::eq`, as in the source, and nothing comes between the accesses of a
-- call, so that each compare-exchange succeeds.
use spawns.Prelude.{
  ℕ, ◌≡◌, ◌≢◌, Bool, List, [], Option, none, some, Result, ok, err, Outcome, returns, ◌==◌, ◌||◌,
  if◌then◌else◌, arith,
}
use spawns.Joint.{Waker}
use spawns.Cancellation.{Slot, null, cancelled, ptr, slot_eq, Boxes, free, Fault, wake_box}
use spawns.Cancellation

module _ (cancelled_address : ℕ) where
  abbrev pub is_cancelled_word : ℕ → Bool
  is_cancelled_word current = current == cancelled_address

  -- The address, and what `Cancellation.cancel` gives beside the pointer.
  unfoldable pub cancel_word : ℕ → Boxes → ℕ × Outcome Fault (List Waker × Boxes)
  cancel_word current boxes =
      if current == cancelled_address
      then (current, returns ([], boxes))
      else (cancelled_address, if current == 0 then returns ([], boxes) else wake_box current boxes)

  unfoldable pub update_word : ℕ → ℕ → Boxes → ℕ × Result (Option ℕ) (Unit {0}) × Boxes
  update_word b current boxes =
      if current == cancelled_address
      then (current, err tt, free b boxes)
      else (b, if current == 0 then ok none else ok (some current), boxes)

  unfoldable pub drop_word : ℕ → Boxes → Boxes
  drop_word current boxes =
      if (current == 0) || (current == cancelled_address) then boxes else free current boxes

  -- The slot that a word stands for, and back.
  abbrev pub slot_of : ℕ → Slot
  slot_of n = if n == cancelled_address then cancelled else if n == 0 then null else ptr n

  abbrev pub word_of : Slot → ℕ
  word_of null = 0
  word_of cancelled = cancelled_address
  word_of (ptr b) = b

  module _ (apart : 0 ≢ cancelled_address) where
    -- The code on words is the code on slots. If `CANCELLED` is not null, every word stands for a
    -- slot, which gives the word back, and `ptr::eq` of two words is equality of their slots;
    -- `is_cancelled`, `cancel`, `update` with a box at an address that is neither null nor
    -- `CANCELLED`, and the drop do on words what they do on slots.
    pub words-slots :
        (n m b : ℕ) (boxes : Boxes)
        → b ≢ 0
        → b ≢ cancelled_address
        → (word_of (slot_of n) ≡ n)
          × ((n == m) ≡ slot_eq (slot_of n) (slot_of m))
          × (is_cancelled_word n ≡ Cancellation.is_cancelled (slot_of n))
          × (let r = cancel_word n boxes in
              (slot_of r.0, r.1) ≡ Cancellation.cancel (slot_of n) boxes)
          × (let r = update_word b n boxes in
              (slot_of r.0, r.1, r.2) ≡ Cancellation.update b (slot_of n) boxes)
          × (drop_word n boxes ≡ Cancellation.drop (slot_of n) boxes)
    unfolding cancel_word update_word drop_word Cancellation.is_cancelled Cancellation.cancel
        Cancellation.update Cancellation.drop
    words-slots n m b boxes e f =
        (ground arith, ground arith, ground arith, ground arith, ground arith, ground arith)
