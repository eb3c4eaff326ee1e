-- ===== src/Outcome.antt =====
-- How runs end: what holds where they return, one command after the other.
use sqlite3_ruby.Base.{◌≡◌, ◌⊎◌, refl, inl, inr}
use sqlite3_ruby.Values.{Exception}
use sqlite3_ruby.Machine.{
  World, Run, M, Settles, Returns, ok, raise, fault, out_of_fuel, and_then, final,
}

-- A run that returns or raises, by its outcome.
pub Settles-cases :
    {A : Type 0} (m : Run A)
    → Settles m
    → ((a : A) × (m ≡ ok a (final m))) ⊎ ((e : Exception) × (m ≡ raise e (final m)))
Settles-cases (ok a v) h = inl (a, refl)
Settles-cases (raise e v) h = inr (e, refl)
Settles-cases (fault v) h = absurd h
Settles-cases (out_of_fuel v) h = absurd h

-- What holds of the state at the end holds where the run returns.
pub Settles-with :
    {A : Type 0} (P : World → Type 0) (m : Run A) → Settles m → P (final m) → Returns (λ a g. P g) m
Settles-with P (ok a v) h p = p
Settles-with P (raise e v) h p = tt
Settles-with P (fault v) h p = absurd h
Settles-with P (out_of_fuel v) h p = absurd h

pub Returns-then :
    {A B : Type 0} (P : A → World → Type 0) (Q : B → World → Type 0) (m : Run A) (k : A → M B)
    → Returns P m
    → ((a : A) (v : World) → P a v → Returns Q (k a v))
    → Returns Q (and_then m k)
Returns-then P Q (ok a v) k h rest = rest a v h
Returns-then P Q (raise e v) k h rest = tt
Returns-then P Q (fault v) k h rest = absurd h
Returns-then P Q (out_of_fuel v) k h rest = absurd h

-- One command and the next return or raise.
pub bind-Settles :
    {A B : Type 0} (m : Run A) (k : A → M B)
    → Settles m
    → ((a : A) (v : World) → Settles (k a v))
    → Settles (and_then m k)
bind-Settles (ok a v) k h rest = rest a v
bind-Settles (raise e v) k h rest = tt
bind-Settles (fault v) k h rest = absurd h
bind-Settles (out_of_fuel v) k h rest = absurd h

-- What holds at the end is forgotten.
pub forget : {A : Type 0} (P : World → Type 0) (m : Run A) → Returns (λ _ g. P g) m → Settles m
forget P (ok a v) h = tt
forget P (raise e v) h = tt
forget P (fault v) h = h
forget P (out_of_fuel v) h = h
