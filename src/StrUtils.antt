-- ===== src/StrUtils.antt =====
-- src/dbpub.cpp: the string helpers of class TSTRUTILS. A `char *` is `none` for NULL. A function
-- that works in place returns what the buffer holds afterwards, and a pointer into the buffer is
-- its offset.
pub mod Trim
mod Tests
use dbsqlapi.Prelude.{
  ℕ, zero, suc, ◌+◌, Bool, true, false, ◌||◌, Option, none, some, [], ◌∷◌, CStr, ◌==◌,
  if◌then◌else◌, length, get_or, take, drop,
}

-- The bytes that the loops from the right drop.
pub is_blank : ℕ → Bool
is_blank c = (c == b' ') || ((c == b'\t') || (c == b'\n'))

pub str_dup : Option CStr → Option CStr
str_dup none = none
str_dup (some s) = some s

-- What the pointer variable holds after the call.
pub free_dup : Option CStr → Option CStr
free_dup none = none
free_dup (some s) = none

-- The loop `for(;pstr;)` from the left, as the number of steps that the pointer makes. The NUL
-- is no space, so it ends the loop at the latest.
pub ltrim_steps : CStr → ℕ
ltrim_steps [] = 0
ltrim_steps (c ∷ s) = if c == b' ' then suc (ltrim_steps s) else 0

pub ltrim : Option CStr → Option ℕ
unfolding ltrim_steps
ltrim none = none
ltrim (some s) = some (ltrim_steps s)

-- The loop from the right: `n` is `len + 1`, and so is the result.
pub rtrim_len : CStr → ℕ → ℕ
rtrim_len s zero = zero
rtrim_len s (suc n) = if is_blank (get_or s n 0) then rtrim_len s n else suc n

-- `str` is read without a test for NULL.
pub rtrim : CStr → CStr
unfolding rtrim_len
rtrim s = take (rtrim_len s (length s)) s

-- The buffer afterwards, and the offset of the pointer that is returned. The NUL is written only
-- if the loop from the right made a step.
pub trim : Option CStr → Option (CStr × ℕ)
unfolding rtrim_len ltrim_steps
trim none = none
trim (some s) =
    let len = rtrim_len s (length s) in
    let trimmed_right = if len == length s then false else true in
    let str = if trimmed_right then take len s else s in some (str, ltrim_steps str)

-- The text that a caller reads at the pointer that `trim` returns.
abbrev pub text_at : CStr × ℕ → CStr
text_at (s, k) = drop k s
