-- ===== src/Tokens/Words.antt =====
-- What `strtok` makes of words that are joined by single spaces.
use jam_tboard.Common.{◌≡◌, refl, ap, false, some, [], ◌∷◌, ◌++◌, ◌==◌, Bytes}
use jam_tboard.Tokens.{space, skip_spaces, until_space, strtok}

-- No byte is a space.
abbrev pub Spaceless : Bytes → Type 0
Spaceless [] = Unit {0}
Spaceless (c ∷ s) = ((c == space) ≡ false) × Spaceless s

-- A word has at least one byte.
abbrev pub IsWord : Bytes → Type 0
IsWord [] = ⊥
IsWord (c ∷ s) = Spaceless (c ∷ s)

until_space-append : (w rest : Bytes) → Spaceless w → until_space (w ++ space ∷ rest) ≡ (w, rest)
unfolding until_space
until_space-append [] rest free = refl
until_space-append (c ∷ w) rest (ne, free) = rw (ne, until_space-append w rest free) refl

until_space_all : (w : Bytes) → Spaceless w → until_space w ≡ (w, [])
unfolding until_space
until_space_all [] free = refl
until_space_all (c ∷ w) (ne, free) = rw (ne, until_space_all w free) refl

-- A space after the word is eaten with it.
pub strtok-append : (w rest : Bytes) → IsWord w → strtok (w ++ space ∷ rest) ≡ (some w, rest)
unfolding strtok skip_spaces
strtok-append [] rest free = absurd free
strtok-append (c ∷ w) rest free =
    rw (free.0) (ap (λ u. (some u.0, u.1)) (until_space-append (c ∷ w) rest free))

pub strtok_last : (w : Bytes) → IsWord w → strtok w ≡ (some w, [])
unfolding strtok skip_spaces
strtok_last [] free = absurd free
strtok_last (c ∷ w) free = rw (free.0) (ap (λ u. (some u.0, u.1)) (until_space_all (c ∷ w) free))
