-- ===== src/Fsx/Choose/Fit.antt =====
-- When the arguments of an operation fit it, and what trimming makes of them.
use native.Mathlib.Nat.{mod-le, mod-lt}
use longan_chkout.Base.{
  ℕ, ◌+◌, ◌%◌, ◌^◌, ◌≤◌, ◌<◌, ◌≡◌, refl, Bool, true, false, arith, if◌then◌else◌, Option, none,
  some,
}
use longan_chkout.Fsx.Kernel.{Apart}
use longan_chkout.Fsx.State.{
  Op, op_truncate, op_clone_range, op_dedupe_range, op_copy_range, Config,
}
use longan_chkout.Fsx.Choose.{Call, trim_off, trim_len, with_dest, with_close}
use longan_chkout.Fsx.Transfer.{trim_direct}

-- What `test` sees to in the arguments of a call, beyond what it trims when it runs the call.
abbrev pub Drawn : Config → ℕ → Op → ℕ → ℕ → ℕ → Type 0
Drawn c file_size op_truncate off len off2 = len ≤ c.maxfilelen
Drawn c file_size op_clone_range off len off2 =
    0 < len
    → (off + len ≤ file_size)
      × (off2 + len ≤ c.maxfilelen)
      × (off % c.block_size ≡ 0)
      × (len % c.block_size ≡ 0)
      × (off2 % c.block_size ≡ 0)
      × Apart off len off2
Drawn c file_size op_dedupe_range off len off2 =
    0 < len
    → (off + len ≤ file_size)
      × (off2 + len ≤ file_size)
      × (off % c.block_size ≡ 0)
      × (len % c.block_size ≡ 0)
      × (off2 % c.block_size ≡ 0)
      × Apart off len off2
Drawn c file_size op_copy_range off len off2 =
    0 < len → (off + len ≤ file_size) × (off2 + len ≤ c.maxfilelen) × Apart off len off2
Drawn c file_size op off len off2 = Unit {0}

pub trim_off-le_size : (off size : ℕ) → trim_off off size ≤ size
unfolding trim_off
trim_off-le_size off size = ground (arith, mod-lt off {m = size})

pub trim_off-le : (off size : ℕ) → trim_off off size ≤ off
unfolding trim_off
trim_off-le off size = ground (arith, mod-le off size)

-- A trimmed range lies inside.
pub trim_len-inside :
    (off len size : ℕ)
    → off ≤ size
    → size < 2 ^ 31
    → len < 2 ^ 31
    → off + trim_len off len size ≤ size
unfolding trim_len
trim_len-inside off len size h a b = ground arith

pub trim_len-le :
    (off len size : ℕ)
    → off ≤ size
    → size < 2 ^ 64
    → off < 2 ^ 31
    → len < 2 ^ 31
    → trim_len off len size ≤ len
unfolding trim_len
trim_len-le off len size h a b d = ground arith

-- What `main` and the C library see to: `random` gives 31 bits, and lengths are an `int`.
pub record IsDrawable (c : Config) : Type 0 where
  pub random_small : (n : ℕ) → c.random n < 2 ^ 31
  pub oplen_small : c.maxoplen < 2 ^ 31
  pub filelen_small : c.maxfilelen < 2 ^ 31
  pub filelen_pos : 0 < c.maxfilelen
  -- With `-s 1` a truncation goes to a length of an operation.
  pub style_fits : c.style ≡ true → c.maxoplen ≤ c.maxfilelen

-- A call that `test` may make on a file of `file_size` bytes.
pub record IsFit (c : Config) (file_size : ℕ) (call : Call) : Type 0 where
  pub small_offset : call.offset < 2 ^ 31
  pub small_size : call.size < 2 ^ 31
  pub drawn : Drawn c file_size call.op call.offset call.size call.offset2

abbrev pub Fits : Config → ℕ → Option (Call × ℕ) → Type 0
Fits c file_size none = Unit {0}
Fits c file_size (some (call, d)) = IsFit c file_size call

pub with_dest-Fits :
    (c : Config) (file_size : ℕ) (op : Op) (offset size : ℕ) (o : Option (ℕ × ℕ))
    → ((dest d : ℕ)
        → o ≡ some (dest, d)
        → IsFit c file_size
            (record { op = op; offset = offset; size = size; offset2 = dest; keep = false }))
    → Fits c file_size (with_dest op offset size o)
unfolding with_dest
with_dest-Fits c file_size op offset size none h = tt
with_dest-Fits c file_size op offset size (some (dest, d)) h = h dest d refl

pub Fits-if :
    (c : Config) (file_size : ℕ) (b : Bool) (x y : Option (Call × ℕ))
    → (b ≡ true → Fits c file_size x)
    → (b ≡ false → Fits c file_size y)
    → Fits c file_size (if b then x else y)
Fits-if c file_size true x y h k = h refl
Fits-if c file_size false x y h k = k refl

abbrev pub FitsAll : Config → ℕ → Option (Call × ℕ × Bool) → Type 0
FitsAll c file_size none = Unit {0}
FitsAll c file_size (some (call, d, close)) = IsFit c file_size call

pub with_close-FitsAll :
    (c : Config) (file_size : ℕ) (close : Bool) (o : Option (Call × ℕ))
    → Fits c file_size o
    → FitsAll c file_size (with_close close o)
unfolding with_close
with_close-FitsAll c file_size close none h = tt
with_close-FitsAll c file_size close (some (call, d)) h = h

pub trim_direct-le : (o : Bool) (bdy len : ℕ) → trim_direct o bdy len ≤ len
unfolding trim_direct
trim_direct-le o bdy len = ground arith
