-- ===== src/Tokens.antt =====
-- `strtok` with the delimiter " ", which src/dummy_MQTT.c splits messages with.
pub mod Words
use jam_tboard.Common.{ℕ, Option, none, some, List, [], ◌∷◌, ◌==◌, if◌then◌else◌, Bytes}

abbrev pub space : ℕ
space = 32

unfoldable pub skip_spaces : Bytes → Bytes
skip_spaces [] = []
skip_spaces (c ∷ s) = let rest = skip_spaces s in if c == space then rest else c ∷ s

-- The bytes before the next space, and what follows that space.
unfoldable pub until_space : Bytes → Bytes × Bytes
until_space [] = ([], [])
until_space (c ∷ s) =
    let (word, rest) = until_space s in if c == space then ([], s) else (c ∷ word, rest)

abbrev pub token : Bytes → Option Bytes × Bytes
token [] = (none, [])
token (c ∷ s) = (some (until_space (c ∷ s)).0, (until_space (c ∷ s)).1)

-- The token, and where the next call goes on; `none` is NULL.
unfoldable pub strtok : Bytes → Option Bytes × Bytes
strtok s = token (skip_spaces s)
