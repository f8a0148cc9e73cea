-- ===== src/Shell/Expand/Attempts.antt =====
-- Postconditions of attempts.
use tcad_webapp.Shell.Macro.{
  overrun, past_end, unassigned, null_pointer, bad_parse, out_of_fuel, Attempt, done, fault, ◌>>=◌,
}

-- Where the attempt comes back.
abbrev pub AllDone : {A : Type 0} → (A → Type 0) → Attempt A → Type 0
AllDone P (done a) = P a
AllDone P (fault e) = Unit

-- So where the attempt comes back, and its fuel lasts.
abbrev pub Ends : {A : Type 0} → (A → Type 0) → Attempt A → Type 0
Ends P (done a) = P a
Ends P (fault out_of_fuel) = ⊥
Ends P (fault e) = Unit

pub Ends-AllDone : {A : Type 0} (P : A → Type 0) (m : Attempt A) → Ends P m → AllDone P m
Ends-AllDone P (done a) h = h
Ends-AllDone P (fault e) h = tt

pub Ends-weaken :
    {A : Type 0} (P : A → Type 0) (Q : A → Type 0) (m : Attempt A)
    → Ends P m
    → ((a : A) → P a → Q a)
    → Ends Q m
Ends-weaken P Q (done a) h q = q a h
Ends-weaken P Q (fault out_of_fuel) h q = absurd h
Ends-weaken P Q (fault overrun) h q = tt
Ends-weaken P Q (fault past_end) h q = tt
Ends-weaken P Q (fault unassigned) h q = tt
Ends-weaken P Q (fault null_pointer) h q = tt
Ends-weaken P Q (fault bad_parse) h q = tt

pub Ends-bind :
    {A B : Type 0} (P : A → Type 0) (Q : B → Type 0) (m : Attempt A) (k : A → Attempt B)
    → Ends P m
    → ((a : A) → P a → Ends Q (k a))
    → Ends Q (m >>= k)
Ends-bind P Q (done a) k h q = q a h
Ends-bind P Q (fault out_of_fuel) k h q = absurd h
Ends-bind P Q (fault overrun) k h q = tt
Ends-bind P Q (fault past_end) k h q = tt
Ends-bind P Q (fault unassigned) k h q = tt
Ends-bind P Q (fault null_pointer) k h q = tt
Ends-bind P Q (fault bad_parse) k h q = tt
