-- ===== src/Iogen/Words.antt =====
-- iogen.c: what the words of `-s` select.
use Prim.Native.String.{String}
use text.Mathlib.Text.{◌==◌ as ◌===◌}
use text.Mathlib.TextEquality.{eq_iff}
use longan_chkout.Base.{
  ℕ, zero, suc, ◌≡◌, refl, sym, ap, subst, Bool, true, false, List, [], ◌∷◌, ◌++◌, none, some,
  arith,
}
use longan_chkout.Base.Chain.{every_of_bind, every_of_some, every_of_if}
use longan_chkout.Base.Lists.{length, Every}
use longan_chkout.Iogen.{
  Call, read, write, pread, pwrite, resvsp, unresvsp, readv, writev, mmapr, mmapw, fsync2,
  fdatasync, Syscall,
}
use longan_chkout.Iogen.Maps.{Named, str_lookup, more_named, syscall_map, parse_syscalls}

-- No entry has the name of an earlier one.
IsDistinct {ℓ} : {V : Type ℓ} → List (Named V) → Type ℓ
IsDistinct [] = Unit
IsDistinct (mp ∷ map) = (str_lookup map mp.m_string ≡ none) × IsDistinct map

syscall_map-IsDistinct : IsDistinct syscall_map
unfolding IsDistinct syscall_map str_lookup
syscall_map-IsDistinct = (
  refl,
  (
    refl,
    (
      refl,
      (refl, (refl, (refl, (refl, (refl, (refl, (refl, (refl, (refl, (refl, (refl, tt))))))))))),
    ),
  ),
)

-- Behind the entry of a name there is no other.
str_lookup-once {ℓ} :
    {V : Type ℓ} (map : List (Named V)) (str : String) (found : Named V × List (Named V))
    → IsDistinct map
    → str_lookup map str ≡ some found
    → str_lookup found.1 str ≡ none
unfolding str_lookup IsDistinct
str_lookup-once [] str found distinct e = absurd (ground (arith, e))
str_lookup-once (mp ∷ map) str found distinct e =
    every_of_if (λ found. str_lookup found.1 str ≡ none) (mp.m_string === str) (mp, map)
      (str_lookup map str) found
      (λ same. subst (λ s. str_lookup map s ≡ none) ((eq_iff mp.m_string str).0 same) distinct.0)
      (str_lookup-once map str found distinct.1) e

-- A property of all entries holds of the one that is found.
str_lookup-Every {ℓ μ} :
    {V : Type ℓ} (P : V → Type μ) (map : List (Named V)) (str : String)
    (found : Named V × List (Named V))
    → Every (λ mp. P mp.m_value) map
    → str_lookup map str ≡ some found
    → P found.0.m_value
unfolding str_lookup Every
str_lookup-Every P [] str found every e = absurd (ground (arith, e))
str_lookup-Every P (mp ∷ map) str found every e =
    every_of_if (λ found. P found.0.m_value) (mp.m_string === str) (mp, map) (str_lookup map str)
      found (λ _. every.0) (str_lookup-Every P map str found every.1) e

-- A call needs write access to the file just where it writes.
unfoldable pub is_writer : Call → Bool
is_writer write = true
is_writer pwrite = true
is_writer resvsp = true
is_writer unresvsp = true
is_writer writev = true
is_writer mmapw = true
is_writer fsync2 = true
is_writer fdatasync = true
is_writer read = false
is_writer pread = false
is_writer readv = false
is_writer mmapr = false

syscall_map-writers : Every (λ mp. mp.m_value.is_write ≡ is_writer mp.m_value.call) syscall_map
unfolding Every syscall_map is_writer
syscall_map-writers = (
  refl,
  (
    refl,
    (
      refl,
      (refl, (refl, (refl, (refl, (refl, (refl, (refl, (refl, (refl, (refl, (refl, tt))))))))))),
    ),
  ),
)

-- A word gives one call.
more_named-once :
    (cp : String) (found : Named Syscall × List (Named Syscall)) (n : ℕ)
    → str_lookup syscall_map cp ≡ some found
    → more_named n found.1 cp ≡ []
unfolding more_named
more_named-once cp found zero e = refl
more_named-once cp found (suc n) e =
    ground (arith, str_lookup-once syscall_map cp found syscall_map-IsDistinct e)

-- The calls are one for each word, and each has the flag of a writer if it is one.
pub record IsSelected (words : List String) (calls : List Syscall) : Type 0 where
  pub size : length calls ≡ length words
  pub writers : Every (λ sc. sc.is_write ≡ is_writer sc.call) calls

-- If the words of `-s` are accepted, there is one call for each of them, and a call has the flag
-- for writing just if it changes the file or the disk.
pub parse_syscalls-IsSelected :
    (words : List String) (calls : List Syscall)
    → parse_syscalls words ≡ some calls
    → IsSelected words calls
unfolding parse_syscalls Every length
parse_syscalls-IsSelected [] calls e =
    every_of_some (IsSelected []) (record { size = refl; writers = tt }) calls e
parse_syscalls-IsSelected (cp ∷ words) calls e =
    every_of_bind (str_lookup syscall_map cp) P calls e (λ found first e.
      every_of_bind (parse_syscalls words) P calls e (λ rest then_rest.
        every_of_some P (one found first rest (parse_syscalls-IsSelected words rest then_rest))
          calls))
  where
    P : List Syscall → Type 0
    P = IsSelected (cp ∷ words)

    one :
        (found : Named Syscall × List (Named Syscall))
        → str_lookup syscall_map cp ≡ some found
        → (rest : List Syscall) → IsSelected words rest
        → P ((found.0.m_value ∷ more_named (length found.1) found.1 cp) ++ rest)
    one found first rest selected =
        subst (λ more. P ((found.0.m_value ∷ more) ++ rest))
          (sym (more_named-once cp found (length found.1) first))
          (record {
            size = ap suc selected.size;
            writers = (
              str_lookup-Every (λ sc. sc.is_write ≡ is_writer sc.call) syscall_map cp found
                  syscall_map-writers first,
              selected.writers,
            );
          })
