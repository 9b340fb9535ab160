-- ===== src/Fsstress/Table/Drawn.antt =====
-- An operation is drawn as often as its frequency says.
use longan_chkout.Base.{
  ℕ, zero, suc, ◌+◌, ◌%◌, ◌<◌, ◌≡◌, refl, ◌∙◌, ap, true, false, some, List, [], ◌∷◌, arith, ◌==◌,
  if◌then◌else◌, ◌⊎◌, inl, inr,
}
use longan_chkout.Base.Count.{count}
use longan_chkout.Base.Lists.{length, get_elem?, get_elem?-inside}
use native.Mathlib.Nat.{mod-lt}
use longan_chkout.Fsstress.Table.{OpDesc, write_freq, copies, make_freq_table, drawn_op}

pub total_freq : ℕ → List OpDesc → ℕ
total_freq op [] = 0
total_freq op (p ∷ l) = (if p.op == op then p.freq else 0) + total_freq op l

count-copies :
    (n op x : ℕ) (l : List ℕ) → count op (copies n x l) ≡ (if x == op then n else 0) + count op l
unfolding count copies
count-copies zero op x l = ground arith
count-copies (suc n) op x l = ground (arith, count-copies n op x l)

pub count-make_freq_table :
    (op : ℕ) (l : List OpDesc) → count op (make_freq_table l) ≡ total_freq op l
unfolding count total_freq make_freq_table
count-make_freq_table op [] = refl
count-make_freq_table op (p ∷ l) =
    count-copies p.freq op p.op (make_freq_table l)
    ∙ ap (λ n. (if p.op == op then p.freq else 0) + n) (count-make_freq_table op l)

-- The rows stand in the order of the enumeration, from `i` on.
unfoldable pub IsOrdered : ℕ → List OpDesc → Type 0
IsOrdered i [] = Unit {0}
IsOrdered i (p ∷ l) = (p.op ≡ i) × IsOrdered (i + 1) l

copies-elem :
    (n op i : ℕ) (l : List ℕ) (x : ℕ)
    → get_elem? (copies n op l) i ≡ some x
    → ((x ≡ op) × (0 < n)) ⊎ ((j : ℕ) × (get_elem? l j ≡ some x))
unfolding copies get_elem?
copies-elem zero op i l x e = inr (i, e)
copies-elem (suc n) op zero l x e = inl (ground (arith, e), omega arith)
copies-elem (suc n) op (suc i) l x e = elim (copies-elem n op i l x e) [
  | inl h ↦ inl (h.0, omega arith)
  | inr h ↦ inr h
]

-- Each entry of the table is for a row with a frequency above 0.
table-elem :
    (l : List OpDesc) (k i x : ℕ)
    → IsOrdered k l
    → get_elem? (make_freq_table l) i ≡ some x
    → (j : ℕ) × (p : OpDesc) × (k + j ≡ x) × (get_elem? l j ≡ some p) × (0 < p.freq)
unfolding make_freq_table IsOrdered get_elem?
table-elem [] k i x o e = absurd (ground (arith, e))
table-elem (p ∷ l) k i x o e = elim (copies-elem p.freq p.op i (make_freq_table l) x e) [
  | inl h ↦ (zero, p, omega (arith, h.0, o.0), refl, h.1)
  | inr h ↦ later (table-elem l (k + 1) h.0 x o.1 h.1)
]
  where
    later :
        (j : ℕ) × (q : OpDesc) × (k + 1 + j ≡ x) × (get_elem? l j ≡ some q) × (0 < q.freq)
        → (j : ℕ) × (q : OpDesc) × (k + j ≡ x) × (get_elem? (p ∷ l) j ≡ some q) × (0 < q.freq)
    later w = (suc w.0, w.1, omega (arith, w.2), w.3, w.4)

pub drawn_op-freq :
    (r : ℕ) (l : List OpDesc)
    → IsOrdered 0 l
    → 0 < length (make_freq_table l)
    → (p : OpDesc) × (j : ℕ) × (drawn_op r l ≡ some p) × (get_elem? l j ≡ some p) × (0 < p.freq)
unfolding drawn_op
drawn_op-freq r l o some_ops =
    drawn
      (get_elem?-inside (make_freq_table l) (r % length (make_freq_table l)) (mod-lt r some_ops))
  where
    at : ℕ
    at = r % length (make_freq_table l)

    full : (length (make_freq_table l) == 0) ≡ false
    full = ground (arith, some_ops)

    drawn :
        (x : ℕ) × (get_elem? (make_freq_table l) at ≡ some x)
        → (p : OpDesc) × (j : ℕ) × (drawn_op r l ≡ some p) × (get_elem? l j ≡ some p) × (0 < p.freq)
    drawn w = named (table-elem l 0 at w.0 o w.1)
      where
        named :
            (j : ℕ) × (p : OpDesc) × (0 + j ≡ w.0) × (get_elem? l j ≡ some p) × (0 < p.freq)
            → (p : OpDesc) × (j : ℕ) × (drawn_op r l ≡ some p)
              × (get_elem? l j ≡ some p)
              × (0 < p.freq)
        named v = (v.1, v.0, rw (full, w.1) (ap (λ i. get_elem? l i) at_op ∙ v.3), v.3, v.4)
          where
            at_op : w.0 ≡ v.0
            at_op = omega (arith, v.2)

write_freq-IsOrdered : (k : ℕ) (l : List OpDesc) → IsOrdered k l → IsOrdered k (write_freq l)
unfolding IsOrdered write_freq
write_freq-IsOrdered k [] o = o
write_freq-IsOrdered k (p ∷ l) o = (ground (arith, o.0), write_freq-IsOrdered (k + 1) l o.1)

-- What keeps a frequency writes.
write_freq-elem :
    (l : List OpDesc) (j : ℕ) (p : OpDesc)
    → get_elem? (write_freq l) j ≡ some p
    → 0 < p.freq
    → p.iswrite ≡ true
unfolding get_elem? write_freq
write_freq-elem [] j p e f = ground (arith, e)
write_freq-elem (q ∷ l) zero p e f = ground (arith, e, f)
write_freq-elem (q ∷ l) (suc j) p e f = write_freq-elem l j p e f

-- Behind `write_freq`, in a table that is in the order of the enumeration, with a frequency left
-- above 0, each random number draws an operation, one that writes and has a frequency above 0.
pub drawn_op-write_freq :
    (r : ℕ) (l : List OpDesc)
    → IsOrdered 0 l
    → 0 < length (make_freq_table (write_freq l))
    → (p : OpDesc) × (drawn_op r (write_freq l) ≡ some p) × (p.iswrite ≡ true) × (0 < p.freq)
drawn_op-write_freq r l o some_ops = (w.0, w.2, write_freq-elem l w.1 w.0 w.3 w.4, w.4)
  where
    w :
        (p : OpDesc) × (j : ℕ) × (drawn_op r (write_freq l) ≡ some p)
        × (get_elem? (write_freq l) j ≡ some p)
        × (0 < p.freq)
    w = drawn_op-freq r (write_freq l) (write_freq-IsOrdered 0 l o) some_ops
