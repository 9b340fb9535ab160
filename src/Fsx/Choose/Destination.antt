-- ===== src/Fsx/Choose/Destination.antt =====
-- The searches for a destination: what they find, and when they end.
use native.Mathlib.Nat.{mod-le, mul-mod_right, div-add-mod}
use longan_chkout.Base.{
  ℕ, zero, suc, ◌+◌, ◌/◌, ◌%◌, ◌^◌, ◌≤◌, ◌<◌, ◌≡◌, ◌≢◌, refl, ap, ◌∙◌, subst, true, false, arith,
  ◌⊎◌, inl, inr, Bool-cases, Option, none, some, align_down,
}
use longan_chkout.Fsx.Kernel.{Apart}
use longan_chkout.Fsx.State.{Config}
use longan_chkout.Fsx.Choose.{trim_off, clashes, draw_dest, pick_dest, pick_dedupe}

-- A destination that is not drawn again: apart from the source, and inside the limit.
pub record IsFree (offset size limit dest : ℕ) : Type 0 where
  pub apart : Apart offset size dest
  pub inside : dest + size ≤ limit

clashes-IsFree :
    (offset size limit dest : ℕ)
    → dest < 2 ^ 32
    → size < 2 ^ 32
    → clashes offset size limit dest ≡ false
    → IsFree offset size limit dest
unfolding clashes
clashes-IsFree offset size limit dest h l e = record {
  apart = grind (arith, e);
  inside = ground (arith, e);
}

draw_dest-small :
    (c : Config) (bdy limit d : ℕ) → c.random d < 2 ^ 31 → draw_dest c bdy limit d < 2 ^ 31
unfolding draw_dest
draw_dest-small c bdy limit d h = ground (arith, mod-le (c.random d) limit)

draw_dest-aligned : (c : Config) (bdy limit d : ℕ) → draw_dest c bdy limit d % bdy ≡ 0
unfolding draw_dest
draw_dest-aligned c bdy limit d = aligned (trim_off (c.random d) limit)
  where
    aligned : (n : ℕ) → align_down n bdy % bdy ≡ 0
    aligned n = ap (λ x. x % bdy) (omega (arith, div-add-mod n bdy)) ∙ mul-mod_right bdy (n / bdy)

-- With random numbers and a size that fit, a destination that the search of clone and copy finds is
-- apart from the source, ends within the limit, and is a multiple of the boundary.
pub pick_dest_sound :
    (c : Config) (bdy limit offset size fuel d dest d' : ℕ)
    → ((n : ℕ) → c.random n < 2 ^ 31)
    → size < 2 ^ 32
    → pick_dest c bdy limit offset size fuel d ≡ some (dest, d')
    → IsFree offset size limit dest × (dest % bdy ≡ 0)
unfolding pick_dest
pick_dest_sound c bdy limit offset size zero d dest d' r h e = cc
pick_dest_sound c bdy limit offset size (suc fuel) d dest d' r h e =
    elim (Bool-cases (clashes offset size limit (draw_dest c bdy limit d))) [
      | inl again ↦ pick_dest_sound c bdy limit offset size fuel (d + 1) dest d' r h (rw again at e)
      | inr free ↦
          subst (λ x. IsFree offset size limit x × (x % bdy ≡ 0)) (found (rw free at e))
            (
              clashes-IsFree offset size limit (draw_dest c bdy limit d)
                  (omega (arith, draw_dest-small c bdy limit d (r d))) h free,
              draw_dest-aligned c bdy limit d,
            )
    ]
  where
    found :
        ◌≡◌ {A = Option (ℕ × ℕ)} (some (draw_dest c bdy limit d, d + 1)) (some (dest, d'))
        → draw_dest c bdy limit d ≡ dest
    found q = cc

-- The search of clone and copy ends within its fuel if one of the numbers it can draw gives a
-- destination that does not clash.
pub pick_dest_ends :
    (c : Config) (bdy limit offset size fuel d i : ℕ)
    → i < fuel
    → clashes offset size limit (draw_dest c bdy limit (d + i)) ≡ false
    → pick_dest c bdy limit offset size fuel d ≢ none
unfolding pick_dest
pick_dest_ends c bdy limit offset size zero d i l e = absurd (omega arith)
pick_dest_ends c bdy limit offset size (suc fuel) d zero l e = rw (free) (λ q. cc)
  where
    free : clashes offset size limit (draw_dest c bdy limit d) ≡ false
    free = subst (λ n. clashes offset size limit (draw_dest c bdy limit n) ≡ false) (z d) e
      where
        z : (x : ℕ) → x + 0 ≡ x
        z x = omega arith
pick_dest_ends c bdy limit offset size (suc fuel) d (suc i) l e =
    elim (Bool-cases (clashes offset size limit (draw_dest c bdy limit d))) [
      | inl again ↦ rw again (
          pick_dest_ends c bdy limit offset size fuel (d + 1) i (omega arith)
            (subst (λ n. clashes offset size limit (draw_dest c bdy limit n) ≡ false) (sh d i) e))
      | inr free ↦ rw free (λ q. cc)
    ]
  where
    sh : (x y : ℕ) → x + suc y ≡ x + 1 + y
    sh x y = omega arith

-- With random numbers and a size that fit, the search of clone and copy does not end on any fuel if
-- the offset is smaller than the size and the limit is smaller than the offset and twice the size.
pub pick_dest_hangs :
    (c : Config) (bdy limit offset size fuel d : ℕ)
    → ((n : ℕ) → c.random n < 2 ^ 31)
    → size < 2 ^ 32
    → offset < size
    → limit < offset + size + size
    → pick_dest c bdy limit offset size fuel d ≡ none
unfolding pick_dest
pick_dest_hangs c bdy limit offset size zero d r h a b = refl
pick_dest_hangs c bdy limit offset size (suc fuel) d r h a b =
    rw (stuck) (pick_dest_hangs c bdy limit offset size fuel (d + 1) r h a b)
  where
    taken : (e : clashes offset size limit (draw_dest c bdy limit d) ≡ false) → ⊥
    taken e = no_room (
        clashes-IsFree offset size limit (draw_dest c bdy limit d)
          (omega (arith, draw_dest-small c bdy limit d (r d))) h e)
      where
        no_room : IsFree offset size limit (draw_dest c bdy limit d) → ⊥
        no_room f = omega (arith, f.apart, f.inside, a, b)

    stuck : clashes offset size limit (draw_dest c bdy limit d) ≡ true
    stuck = elim (Bool-cases (clashes offset size limit (draw_dest c bdy limit d))) [
      | inl e ↦ e
      | inr e ↦ absurd (taken e)
    ]

-- With random numbers and a size that fit, the search of dedupe draws at most as many numbers as it
-- has tries, and gives the size 0, or the size it was given with an aligned destination that is
-- apart from the source and ends within the limit.
pub pick_dedupe_sound :
    (c : Config) (limit offset size tries last d : ℕ)
    → ((n : ℕ) → c.random n < 2 ^ 31)
    → size < 2 ^ 32
    → let (dest, n, d') = pick_dedupe c limit offset size tries last d in
      ((n ≡ 0) ⊎ ((n ≡ size) × IsFree offset size limit dest × (dest % c.block_size ≡ 0)))
      × (d' ≤ d + tries)
unfolding pick_dedupe
pick_dedupe_sound c limit offset size zero last d r h = (inl refl, omega arith)
pick_dedupe_sound c limit offset size (suc tries) last d r h =
    elim (Bool-cases (clashes offset size limit (draw_dest c c.block_size limit d))) [
      | inl again ↦
          let ih =
            pick_dedupe_sound c limit offset size tries (draw_dest c c.block_size limit d) (d + 1) r
              h in
          rw again (ih.0, omega (arith, ih.1))
      | inr free ↦ rw free (
        inr (
          refl,
          clashes-IsFree offset size limit (draw_dest c c.block_size limit d)
              (omega (arith, draw_dest-small c c.block_size limit d (r d))) h free,
          draw_dest-aligned c c.block_size limit d,
        ),
        omega arith,
      )
    ]
