-- ===== src/Strings.antt =====
-- kernel/utils/string.c: the memory and string functions, over byte memory. A `char` is unsigned on
-- aarch64. A loop that runs up to a terminating null byte takes fuel, and `none` says that the fuel
-- ran out.
pub mod Move
pub mod Compare
pub mod Scan
pub mod Number
mod Examples
use kernalite.Base.{
  ℕ, zero, suc, ◌+◌, ◌-◌, ◌*◌, Bool, true, false, ◌&&◌, ◌||◌, Option, none, some, ◌==◌, ltb, leb,
  if◌then◌else◌, u8, u64,
}
use kernalite.Base.Int.{ℤ, pos, sub_ℕ}
use kernalite.Memory.{Mem, store, load8}

-- `while (size--) *d_ptr++ = *s_ptr++;`
pub copy_forward : ℕ → ℕ → ℕ → Mem → Mem
copy_forward d_ptr s_ptr zero m = m
copy_forward d_ptr s_ptr (suc size) m =
    copy_forward (d_ptr + 1) (s_ptr + 1) size (store m d_ptr (m s_ptr))

-- `while (size--) *--d_ptr = *--s_ptr;`
pub copy_backward : ℕ → ℕ → ℕ → Mem → Mem
copy_backward d_ptr s_ptr zero m = m
copy_backward d_ptr s_ptr (suc size) m =
    copy_backward (d_ptr - 1) (s_ptr - 1) size (store m (d_ptr - 1) (m (s_ptr - 1)))

unfoldable pub memcpy : ℕ → ℕ → ℕ → Mem → ℕ × Mem
memcpy dest src size m = (dest, copy_forward dest src size m)

unfoldable pub memmove : ℕ → ℕ → ℕ → Mem → ℕ × Mem
memmove dest src size m =
    if ltb dest src
    then (dest, copy_forward dest src size m)
    else if ltb src dest
    then (dest, copy_backward (dest + size) (src + size) size m)
    else (dest, m)

pub set_loop : ℕ → ℕ → ℕ → Mem → Mem
set_loop ptr val zero m = m
set_loop ptr val (suc size) m = set_loop (ptr + 1) val size (store m ptr (u8 val))

unfoldable pub memset : ℕ → ℕ → ℕ → Mem → ℕ × Mem
memset s_ptr val size m = (s_ptr, set_loop s_ptr val size m)

unfoldable pub memcmp : ℕ → ℕ → ℕ → Mem → ℤ
memcmp ptr1 ptr2 zero m = pos 0
memcmp ptr1 ptr2 (suc size) m =
    let rest = memcmp (ptr1 + 1) (ptr2 + 1) size m in
    if load8 m ptr1 == load8 m ptr2 then rest else sub_ℕ (load8 m ptr1) (load8 m ptr2)

unfoldable pub memchr : ℕ → ℕ → ℕ → Mem → ℕ
memchr ptr chr zero m = 0
memchr ptr chr (suc size) m =
    let rest = memchr (ptr + 1) chr size m in if load8 m ptr == u8 chr then ptr else rest

unfoldable pub strchr : ℕ → ℕ → ℕ → Mem → Option ℕ
strchr zero str chr m = none
strchr (suc fuel) str chr m =
    let rest = strchr fuel (str + 1) chr m in
    if load8 m str == u8 chr then some str else if load8 m str == 0 then some 0 else rest

-- The loop of `strrchr`; `last` is 0 for NULL.
unfoldable pub strrchr_loop : ℕ → ℕ → ℕ → ℕ → Mem → Option ℕ
strrchr_loop zero str chr last m = none
strrchr_loop (suc fuel) str chr last m =
    let last' = if load8 m str == u8 chr then str else last in
    let rest = strrchr_loop fuel (str + 1) chr last' m in
    if load8 m str == 0 then some last' else rest

unfoldable pub strrchr : ℕ → ℕ → ℕ → Mem → Option ℕ
unfolding strrchr_loop
strrchr fuel str chr m = strrchr_loop fuel str chr 0 m

unfoldable pub strlen_loop : ℕ → ℕ → ℕ → Mem → Option ℕ
strlen_loop zero str len m = none
strlen_loop (suc fuel) str len m =
    let rest = strlen_loop fuel str (len + 1) m in
    if load8 m (str + len) == 0 then some len else rest

unfoldable pub strlen : ℕ → ℕ → Mem → Option ℕ
unfolding strlen_loop
strlen fuel str m = strlen_loop fuel str 0 m

-- The loop at `len`, with `rounds` left before `maxlen`.
unfoldable pub strnlen_loop : ℕ → ℕ → ℕ → Mem → ℕ
strnlen_loop zero str len m = len
strnlen_loop (suc rounds) str len m =
    let rest = strnlen_loop rounds str (len + 1) m in if load8 m (str + len) == 0 then len else rest

unfoldable pub strnlen : ℕ → ℕ → Mem → ℕ
unfolding strnlen_loop
strnlen str maxlen m = strnlen_loop maxlen str 0 m

-- The value of a digit; `none` where the loop of `strtoul` breaks on any other character.
unfoldable pub digit_value : ℕ → Option ℕ
digit_value chr =
    if leb b'0' chr && leb chr b'9'
    then some (chr - b'0')
    else if leb b'a' chr && leb chr b'f'
    then some (chr - b'a' + 10)
    else if leb b'A' chr && leb chr b'F'
    then some (chr - b'A' + 10)
    else none

-- The loop of `strtoul` at `nptr`: the value, and the final pointer that goes to `*endptr`.
unfoldable pub strtoul_loop : ℕ → ℕ → ℕ → ℕ → Mem → Option (ℕ × ℕ)
strtoul_loop zero nptr base res m = none
strtoul_loop (suc fuel) nptr base res m =
    let next =
      λ (value : ℕ). strtoul_loop fuel (nptr + 1) base (u64 (u64 (res * base) + value)) m in
    if load8 m nptr == 0 then some (res, nptr) else (elim (digit_value (load8 m nptr)) [
      | none ↦ some (res, nptr)
      | some value ↦ if leb base value then some (res, nptr) else next value
    ])

-- The base is not negative.
unfoldable pub strtoul : ℕ → ℕ → ℕ → Mem → Option (ℕ × ℕ)
unfolding strtoul_loop
strtoul fuel nptr base m =
    if (base == 0 || base == 16)
      && (load8 m nptr == b'0')
      && (load8 m (nptr + 1) == b'x' || load8 m (nptr + 1) == b'X')
    then strtoul_loop fuel (nptr + 2) 16 0 m
    else strtoul_loop fuel nptr (if base == 0 then 10 else base) 0 m
