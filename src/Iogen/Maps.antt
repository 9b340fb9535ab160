-- ===== src/Iogen/Maps.antt =====
-- iogen.c: the tables that give the words of the command line their values, and the files that
-- `parse_cmdline` admits.
use Prim.Native.String.{String}
use text.Mathlib.Text.{◌==◌ as ◌===◌}
use longan_chkout.Base.{
  ℕ, zero, suc, Bool, true, false, List, [], ◌∷◌, ◌++◌, Option, none, some, ◌==◌, if◌then◌else◌,
}
use longan_chkout.Base.Maybe.{◌>>=◌}
use longan_chkout.Base.Lists.{length}
use longan_chkout.Iogen.{
  OffsetMode, random, sequential, reverse, Syscall, Call, read, write, pread, pwrite, resvsp,
  unresvsp, readv, writev, mmapr, mmapw, fsync2, fdatasync, Flag,
}

-- `struct strmap`, with what `m_value` and `m_flags` stand for.
pub record Named {ℓ} (V : Type ℓ) : Type ℓ where
  pub m_string : String
  pub m_value : V

-- `str_lookup`: the entry that it points at, and those behind it.
unfoldable pub str_lookup {ℓ} :
    {V : Type ℓ} → List (Named V) → String → Option (Named V × List (Named V))
str_lookup [] str = none
str_lookup (mp ∷ map) str = if mp.m_string === str then some (mp, map) else str_lookup map str

-- `value_to_string`, for values of `int`.
unfoldable pub value_to_string : List (Named ℕ) → ℕ → Option String
value_to_string [] val = none
value_to_string (mp ∷ map) val =
    if mp.m_value == val then some mp.m_string else value_to_string map val

-- `str_to_value`, with the value of the last entry of the table.
unfoldable pub str_to_value {ℓ} : {V : Type ℓ} → V → List (Named V) → String → V
str_to_value last [] str = last
str_to_value last (mp ∷ map) str =
    if mp.m_string === str then mp.m_value else str_to_value last map str

abbrev map_entry : String → Call → Bool → Named Syscall
map_entry name call is_write = record {
  m_string = name;
  m_value = record { call = call; is_write = is_write };
}

-- `Syscall_Map`
unfoldable pub syscall_map : List (Named Syscall)
syscall_map =
    map_entry "read" read false
    ∷ map_entry "write" write true
    ∷ map_entry "pread" pread false
    ∷ map_entry "pwrite" pwrite true
    ∷ map_entry "resvsp" resvsp true
    ∷ map_entry "unresvsp" unresvsp true
    ∷ map_entry "reserve" resvsp true
    ∷ map_entry "unreserve" unresvsp true
    ∷ map_entry "readv" readv false
    ∷ map_entry "writev" writev true
    ∷ map_entry "mmread" mmapr false
    ∷ map_entry "mmwrite" mmapw true
    ∷ map_entry "fsync2" fsync2 true
    ∷ map_entry "fdatasync" fdatasync true
    ∷ []

-- `Omode_Map`
unfoldable pub omode_map : List (Named OffsetMode)
omode_map =
    record { m_string = "random"; m_value = random }
    ∷ record { m_string = "sequential"; m_value = sequential }
    ∷ record { m_string = "reverse"; m_value = reverse }
    ∷ []

-- `Flag_Map`; `o_sync` and `o_direct` are the platform's.
unfoldable pub flag_map : ℕ → ℕ → List (Named Flag)
flag_map o_sync o_direct =
    record { m_string = "buffered"; m_value = record { value = 0; is_raw = false } }
    ∷ record { m_string = "sync"; m_value = record { value = o_sync; is_raw = false } }
    ∷ record { m_string = "direct"; m_value = record { value = o_direct; is_raw = true } }
    ∷ []

-- The `do` loop of `-s` for one word, behind the entry that was found: every later entry of the
-- same name.
unfoldable pub more_named {ℓ} : {V : Type ℓ} → ℕ → List (Named V) → String → List V
unfolding str_lookup
more_named zero map str = []
more_named (suc n) map str = elim (str_lookup map str) [
  | none ↦ []
  | some found ↦ found.0.m_value ∷ more_named n found.1 str
]

-- The words of `-s` and of `-f`; `none` where one is not in the table.
unfoldable pub parse_syscalls : List String → Option (List Syscall)
unfolding str_lookup more_named syscall_map length
parse_syscalls [] = some []
parse_syscalls (cp ∷ words) = do
  found ← str_lookup syscall_map cp
  rest ← parse_syscalls words
  some ((found.0.m_value ∷ more_named (length found.1) found.1 cp) ++ rest)

unfoldable pub parse_flags : ℕ → ℕ → List String → Option (List Flag)
unfolding str_lookup flag_map
parse_flags o_sync o_direct [] = some []
parse_flags o_sync o_direct (cp ∷ words) = do
  found ← str_lookup (flag_map o_sync o_direct) cp
  rest ← parse_flags o_sync o_direct words
  some (found.0.m_value ∷ rest)
