-- ===== src/Klibc/Memory.antt =====
-- The functions on bytes and strings: `memcpy`, `memset`, `memcmp`, `strlen`, `strcmp`, `strncmp`,
-- `strcpy`, `strncpy`, `strcat`, `strncat`, `strchr` and `strrchr`.
use mathlib.Core.Option
use mazuki_os.Base.{
  ℕ, zero, suc, ◌+◌, ◌-◌, not, ◌&&◌, Option, none, some, List, [], ◌∷◌, ltb, ◌==◌, if◌then◌else◌, ℤ,
  pos, negsuc,
}

-- `u1 - u2` of two bytes, as an `int`.
abbrev pub byte_diff : ℕ → ℕ → ℤ
byte_diff a b = if ltb a b then negsuc (b - a - 1) else pos (a - b)

unfoldable pub memcpy : List ℕ → List ℕ → ℕ → Option (List ℕ)
memcpy dst src zero = some dst
memcpy [] src (suc n) = none
memcpy (d ∷ dst) [] (suc n) = none
memcpy (d ∷ dst) (s ∷ src) (suc n) = Option.map (λ r. s ∷ r) (memcpy dst src n)

-- `value` is the byte that the cast leaves.
unfoldable pub memset : List ℕ → ℕ → ℕ → Option (List ℕ)
memset dst value zero = some dst
memset [] value (suc n) = none
memset (d ∷ dst) value (suc n) = Option.map (λ r. value ∷ r) (memset dst value n)

unfoldable pub memcmp : List ℕ → List ℕ → ℕ → Option ℤ
memcmp p1 p2 zero = some (pos 0)
memcmp [] p2 (suc n) = none
memcmp (a ∷ p1) [] (suc n) = none
memcmp (a ∷ p1) (b ∷ p2) (suc n) =
    let rest = memcmp p1 p2 n in if a == b then rest else some (byte_diff a b)

unfoldable pub strlen : List ℕ → Option ℕ
strlen [] = none
strlen (c ∷ s) = if c == 0 then some 0 else Option.map suc (strlen s)

unfoldable pub strcmp : List ℕ → List ℕ → Option ℤ
strcmp [] b = none
strcmp (c ∷ a) [] = none
strcmp (c ∷ a) (d ∷ b) =
    let rest = strcmp a b in
    if not (c == 0) && not (d == 0) && c == d then rest else some (byte_diff c d)

unfoldable pub strncmp : List ℕ → List ℕ → ℕ → Option ℤ
strncmp s1 s2 zero = some (pos 0)
strncmp [] s2 (suc n) = none
strncmp (u1 ∷ s1) [] (suc n) = none
strncmp (u1 ∷ s1) (u2 ∷ s2) (suc n) =
    let rest = strncmp s1 s2 n in
    if not (u1 == u2) then some (byte_diff u1 u2) else if u1 == 0 then some (pos 0) else rest

unfoldable pub strcpy : List ℕ → List ℕ → Option (List ℕ)
strcpy dst [] = none
strcpy [] (c ∷ src) = none
strcpy (d ∷ dst) (c ∷ src) =
    if c == 0 then some (0 ∷ dst) else Option.map (λ r. c ∷ r) (strcpy dst src)

-- Once the source has ended the second loop fills the rest with zeros.
unfoldable pub strncpy : List ℕ → List ℕ → ℕ → Option (List ℕ)
unfolding memset
strncpy dst src zero = some dst
strncpy dst [] (suc n) = none
strncpy [] (c ∷ src) (suc n) = none
strncpy (d ∷ dst) (c ∷ src) (suc n) =
    let copied = strncpy dst src n in
    if c == 0 then memset (d ∷ dst) 0 (suc n) else Option.map (λ r. c ∷ r) copied

-- `while (*p) p++`, then the copy from there on.
unfoldable pub strcat : List ℕ → List ℕ → Option (List ℕ)
unfolding strcpy
strcat [] src = none
strcat (d ∷ dst) src =
    let further = strcat dst src in
    if d == 0 then strcpy (d ∷ dst) src else Option.map (λ r. d ∷ r) further

-- The copying loop of `strncat`.
unfoldable pub append_upto : List ℕ → List ℕ → ℕ → Option (List ℕ)
append_upto [] src n = none
append_upto (d ∷ dst) src zero = some (0 ∷ dst)
append_upto (d ∷ dst) [] (suc n) = none
append_upto (d ∷ dst) (c ∷ src) (suc n) =
    if c == 0 then some (0 ∷ dst) else Option.map (λ r. c ∷ r) (append_upto dst src n)

unfoldable pub strncat : List ℕ → List ℕ → ℕ → Option (List ℕ)
unfolding append_upto
strncat [] src n = none
strncat (d ∷ dst) src n =
    let further = strncat dst src n in
    if d == 0 then append_upto (d ∷ dst) src n else Option.map (λ r. d ∷ r) further

-- The offset of the byte found, or NULL; `c` is the byte that the cast leaves.
unfoldable pub strchr : List ℕ → ℕ → Option (Option ℕ)
strchr [] c = none
strchr (x ∷ s) c =
    let rest = Option.map (Option.map suc) (strchr s c) in
    if x == 0
    then some (if c == 0 then some 0 else none)
    else if x == c
    then some (some 0)
    else rest

-- The loop of `strrchr` at offset `i`, with the last match so far.
unfoldable pub last_match : List ℕ → ℕ → ℕ → Option ℕ → Option (Option ℕ)
last_match [] c i last = none
last_match (x ∷ s) c i last =
    let rest = last_match s c (i + 1) (if x == c then some i else last) in
    if x == 0 then some (if c == 0 then some i else last) else rest

unfoldable pub strrchr : List ℕ → ℕ → Option (Option ℕ)
unfolding last_match
strrchr s c = last_match s c 0 none
