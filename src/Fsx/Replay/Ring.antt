-- ===== src/Fsx/Replay/Ring.antt =====
-- The ring of operations is the end of the sequence of all operations.
use longan_chkout.Base.{
  ℕ, zero, suc, ◌+◌, ◌-◌, ◌%◌, ◌≤◌, ◌<◌, ◌≡◌, ◌≢◌, refl, ap, ◌∙◌, Bool, true, false, ◌||◌, List, [],
  ◌∷◌, arith, ltb, ◌==◌, if◌then◌else◌, tests, Bool-cases, inl, inr,
}
use longan_chkout.Fsx.State.{Op, OpFlags, LogEntry, Fsx, log_size, log_entry}
use longan_chkout.Fsx.Replay.{dump_from, dump, opnum}

-- `n` items of a sequence, from number `i` on.
unfoldable pub items : (ℕ → LogEntry) → ℕ → ℕ → List LogEntry
items history i zero = []
items history i (suc n) = history i ∷ items history (i + 1) n

-- What `log_entry` writes for its arguments.
abbrev pub made : {S : Type 0} → Op → List ℕ → OpFlags → Fsx S → LogEntry
made op args flags s = record {
  operation = op;
  args = args;
  flags = record flags { close_open = flags.close_open || s.closeopen };
}

-- The ring holds the last `log_size` operations of the history, each at its number's place.
pub record IsRing {S : Type 0} (history : ℕ → LogEntry) (s : Fsx S) : Type 0 where
  pub place : s.logptr ≡ s.logcount % log_size
  pub kept :
      (i : ℕ) → i < s.logcount → s.logcount ≤ i + log_size → s.oplog (i % log_size) ≡ history i

apart : (i n : ℕ) → i < n → n + 1 ≤ i + log_size → i % log_size ≢ n % log_size
apart i n a b e = omega (arith, a, b, e)

-- The two ways round the ring.
either_way :
    (history : ℕ → LogEntry) (oplog : ℕ → LogEntry) (few : Bool) (ptr from count size : ℕ)
    → (few ≡ true → dump_from oplog 0 count ≡ items history from count)
    → (few ≡ false → dump_from oplog ptr size ≡ items history from size)
    → (if few then dump_from oplog 0 count else dump_from oplog ptr size)
      ≡ items history from (if few then count else size)
either_way history oplog true ptr from count size h k = h refl
either_way history oplog false ptr from count size h k = k refl

module _ {S : Type 0} where
  -- If the ring holds the last operations of a history, it does so behind the logging of the next
  -- one.
  pub log_entry-IsRing :
      (history : ℕ → LogEntry) (op : Op) (args : List ℕ) (flags : OpFlags) (s : Fsx S)
      → IsRing history s
      → history s.logcount ≡ made op args flags s
      → IsRing history (log_entry op args flags s)
  unfolding log_entry
  log_entry-IsRing history op args flags s r e = record {
    place = ground (arith, r.place);
    kept = λ i l b. kept i l b;
  }
    where
      now : (i : ℕ) → i ≡ s.logcount → (i % log_size == s.logptr) ≡ true
      now i h = ground (arith, r.place, h)

      old :
          (i : ℕ)
          → i < s.logcount
          → s.logcount + 1 ≤ i + log_size
          → (i % log_size == s.logptr) ≡ false
      old i l b = ground (arith, r.place, apart i s.logcount l b)

      at_count : (i : ℕ) → i ≡ s.logcount → history i ≡ history s.logcount
      at_count i h = ap history h

      kept :
          (i : ℕ)
          → i < s.logcount + 1
          → s.logcount + 1 ≤ i + log_size
          → (log_entry op args flags s).oplog (i % log_size) ≡ history i
      kept i l b = elim (Bool-cases (i == s.logcount)) [
        | inl h ↦ rw (now i (omega (tests, h))) (cc (e, at_count i (omega (tests, h))))
        | inr h ↦
            rw (old i (omega (tests, l, h)) b) (r.kept i (omega (tests, l, h)) (omega (arith, b)))
      ]

  -- Going round the ring from number `i` on gives the items of the history.
  dump_from-items :
      (history : ℕ → LogEntry) (s : Fsx S) (count i : ℕ)
      → IsRing history s
      → i + count ≡ s.logcount
      → count ≤ log_size
      → dump_from s.oplog (i % log_size) count ≡ items history i count
  unfolding dump_from items
  dump_from-items history s zero i r h b = refl
  dump_from-items history s (suc count) i r h b = rw (next) (
      cc (
        r.kept i (omega (arith, h)) (omega (arith, h, b)),
        dump_from-items history s count (i + 1) r (omega (arith, h)) (omega (arith, b)),
      ))
    where
      next : (if i % log_size + 1 == log_size then 0 else i % log_size + 1) ≡ (i + 1) % log_size
      next = ground arith

  from_start :
      (history : ℕ → LogEntry) (s : Fsx S)
      → IsRing history s
      → s.logcount < log_size
      → dump_from s.oplog 0 s.logcount ≡ items history (s.logcount - log_size) s.logcount
  from_start history s r few =
      dump_from-items history s s.logcount 0 r (omega arith) (omega (arith, few))
      ∙ ap (λ i. items history i s.logcount) none_lost
    where
      none_lost : 0 ≡ s.logcount - log_size
      none_lost = omega (arith, few)

  from_place :
      (history : ℕ → LogEntry) (s : Fsx S) (size : ℕ)
      → IsRing history s
      → size ≡ log_size
      → size ≤ s.logcount
      → dump_from s.oplog s.logptr size ≡ items history (s.logcount - log_size) size
  from_place history s size r full many =
      ap (λ p. dump_from s.oplog p size) place
      ∙ dump_from-items history s size (s.logcount - log_size) r (omega (arith, full, many))
          (omega (arith, full))
    where
      place : s.logptr ≡ (s.logcount - log_size) % log_size
      place = omega (arith, full, many, r.place)

  -- If the ring holds the last operations of a history, `logdump` goes through the last `LOGSIZE`
  -- of them, or all if there are fewer, in their order.
  pub dump-items :
      (history : ℕ → LogEntry) (s : Fsx S)
      → IsRing history s
      → dump s
        ≡ items history
            (s.logcount - log_size)
            (if ltb s.logcount log_size then s.logcount else log_size)
  unfolding dump
  dump-items history s r =
      either_way history s.oplog (ltb s.logcount log_size) s.logptr (s.logcount - log_size)
        s.logcount log_size (λ few. from_start history s r (omega (tests, few)))
        (λ many. from_place history s log_size r refl (omega (tests, many)))

  -- If the ring holds the last operations of a history, the number that `logdump` prints for an
  -- operation of the ring is its number in the history, counted from 1, if its place is before the
  -- next one to be written, and else one that is `LOGSIZE` higher.
  pub opnum_lem :
      (history : ℕ → LogEntry) (s : Fsx S) (i : ℕ)
      → IsRing history s
      → i < s.logcount
      → s.logcount ≤ i + log_size
      → opnum s (i % log_size) ≡ (if ltb (i % log_size) s.logptr then i + 1 else i + 1 + log_size)
  unfolding opnum
  opnum_lem history s i r l b = ground (arith, r.place)
