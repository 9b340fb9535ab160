-- ===== src/Fsstress/Table.antt =====
-- fsstress.c: the table of operations with their frequencies, and the draw of an operation.
pub mod Drawn
use longan_chkout.Base.{
  ℕ, zero, suc, ◌+◌, ◌%◌, Bool, true, false, Option, none, some, List, [], ◌∷◌, ◌++◌, map, ◌==◌,
  if◌then◌else◌,
}
use longan_chkout.Base.Lists.{length, get_elem?}
use longan_chkout.Base.Maybe.{◌>>=◌}
use Prim.Native.String.{String}
use text.Mathlib.Text.{◌==◌ as ◌===◌}

-- `opdesc_t` without the function; `op` is the value of the enumeration `opty_t`.
pub record OpDesc : Type 0 where
  pub op : ℕ
  pub name : String
  pub freq : ℕ
  pub iswrite : Bool

-- A row of the table.
abbrev pub row : ℕ → String → ℕ → Bool → OpDesc
row op name freq iswrite = record { op = op; name = name; freq = freq; iswrite = iswrite }

abbrev pub ops : List OpDesc
ops =
    row 0 "afsync" 0 true
    ∷ row 1 "allocsp" 1 true
    ∷ row 2 "aread" 1 false
    ∷ row 3 "attr_remove" 0 true
    ∷ row 4 "attr_set" 0 true
    ∷ row 5 "awrite" 1 true
    ∷ row 6 "bulkstat" 1 false
    ∷ row 7 "bulkstat1" 1 false
    ∷ row 8 "chown" 3 true
    ∷ row 9 "clonerange" 4 true
    ∷ row 10 "copyrange" 4 true
    ∷ row 11 "creat" 4 true
    ∷ row 12 "deduperange" 4 true
    ∷ row 13 "dread" 4 false
    ∷ row 14 "dwrite" 4 true
    ∷ row 15 "fallocate" 1 true
    ∷ row 16 "fdatasync" 1 true
    ∷ row 17 "fiemap" 1 true
    ∷ row 18 "freesp" 1 true
    ∷ row 19 "fsync" 1 true
    ∷ row 20 "getattr" 1 false
    ∷ row 21 "getdents" 1 false
    ∷ row 22 "getfattr" 1 false
    ∷ row 23 "link" 1 true
    ∷ row 24 "listfattr" 1 false
    ∷ row 25 "mkdir" 2 true
    ∷ row 26 "mknod" 2 true
    ∷ row 27 "mread" 2 false
    ∷ row 28 "mwrite" 2 true
    ∷ row 29 "punch" 1 true
    ∷ row 30 "zero" 1 true
    ∷ row 31 "collapse" 1 true
    ∷ row 32 "insert" 1 true
    ∷ row 33 "read" 1 false
    ∷ row 34 "readlink" 1 false
    ∷ row 35 "readv" 1 false
    ∷ row 36 "removefattr" 1 true
    ∷ row 37 "rename" 2 true
    ∷ row 38 "rnoreplace" 2 true
    ∷ row 39 "rexchange" 2 true
    ∷ row 40 "rwhiteout" 2 true
    ∷ row 41 "resvsp" 1 true
    ∷ row 42 "rmdir" 1 true
    ∷ row 43 "setattr" 0 true
    ∷ row 44 "setfattr" 2 true
    ∷ row 45 "setxattr" 1 true
    ∷ row 46 "splice" 1 true
    ∷ row 47 "stat" 1 false
    ∷ row 48 "symlink" 2 true
    ∷ row 49 "sync" 1 true
    ∷ row 50 "truncate" 2 true
    ∷ row 51 "unlink" 1 true
    ∷ row 52 "unresvsp" 1 true
    ∷ row 53 "write" 4 true
    ∷ row 54 "writev" 4 true
    ∷ []

-- Without the operations that do not write.
unfoldable pub write_freq : List OpDesc → List OpDesc
write_freq [] = []
write_freq (p ∷ l) = (if p.iswrite then p else record p { freq = 0 }) ∷ write_freq l

unfoldable pub zero_freq : List OpDesc → List OpDesc
zero_freq [] = []
zero_freq (p ∷ l) = record p { freq = 0 } ∷ zero_freq l

-- The first operation of the name gets the frequency, which is what `atoi` makes of a number
-- without a sign: `none` is the exit without one.
unfoldable pub process_freq : String → ℕ → List OpDesc → Option (List OpDesc)
process_freq name n [] = none
process_freq name n (p ∷ l) =
    if name === p.name
    then some (record p { freq = n } ∷ l)
    else process_freq name n l >>= λ rest. some (p ∷ rest)

unfoldable pub copies : ℕ → ℕ → List ℕ → List ℕ
copies zero op l = l
copies (suc n) op l = op ∷ copies n op l

unfoldable pub make_freq_table : List OpDesc → List ℕ
unfolding copies
make_freq_table [] = []
make_freq_table (p ∷ l) = copies p.freq p.op (make_freq_table l)

-- The operation that `doproc` calls, and nothing where it divides by zero.
unfoldable pub drawn_op : ℕ → List OpDesc → Option OpDesc
unfolding make_freq_table length get_elem?
drawn_op r l =
    let table = make_freq_table l in
    if length table == 0 then none else get_elem? table (r % length table) >>= λ op. get_elem? l op
