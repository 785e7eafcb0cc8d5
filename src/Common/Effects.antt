-- ===== src/Common/Effects.antt =====
-- Code that changes a state `S` and may throw: what was changed before the throw stays changed.
use multi_agent_brain.Common.Results.{Result, ok, err}
use Prim.Native.String.{String}

abbrev pub Program : Type 0 → Type 0 → Type 0 → Type 0
Program S E A = S → S × Result E A

-- Code behind an interface throws messages.
abbrev pub Effect : Type 0 → Type 0 → Type 0
Effect W A = Program W String A

module _ {S E A B : Type 0} where
  abbrev pub and_then : (A → Program S E B) → S × Result E A → S × Result E B
  and_then next (s, err thrown) = (s, err thrown)
  and_then next (s, ok a) = next a s

  infixl 5 ◌>>=◌ ◌>>◌
  abbrev pub ◌>>=◌ : Program S E A → (A → Program S E B) → Program S E B
  ◌>>=◌ m next s = and_then next (m s)

  abbrev pub ◌>>◌ : Program S E A → Program S E B → Program S E B
  m >> next = m >>= λ _. next

module _ {S E A : Type 0} where
  abbrev pub pure : A → Program S E A
  pure a s = (s, ok a)

  abbrev pub throw : E → Program S E A
  throw e s = (s, err e)
