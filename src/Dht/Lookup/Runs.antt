-- ===== src/Dht/Lookup/Runs.antt =====
-- gossiper/dhtAPI.go: what each event of a lookup keeps holds after any events.
use peerster.Base.{List, [], ◌∷◌}
use peerster.Dht.Lookup.{Event, Lookup, Waiting, finished, run_lookup, waiting}
use peerster.Dto.Packet.{Outcome, fatal, nil_pointer, ok, ◌>>=◌}

-- The predicate holds of what a call gives, if it gives anything.
abbrev pub IfOk {ℓ κ} : {A : Type ℓ} → (A → Type κ) → Outcome A → Type κ
IfOk P (ok a) = P a
IfOk P (fatal e) = Unit
IfOk P nil_pointer = Unit

pub >>=-IfOk {ℓ κ ι η} :
    {A : Type ℓ} {B : Type κ} (P : A → Type ι) (Q : B → Type η) (o : Outcome A) (f : A → Outcome B)
    → ((a : A) → P a → IfOk Q (f a))
    → IfOk P o
    → IfOk Q (o >>= f)
>>=-IfOk P Q (ok a) f keeps h = keeps a h
>>=-IfOk P Q (fatal e) f keeps h = tt
>>=-IfOk P Q nil_pointer f keeps h = tt

pub run_lookup-keeps {κ} :
    {R : Type 0} (P : Lookup R → Type κ) (step : Event → Waiting → Outcome (Lookup R))
    → ((e : Event) (w : Waiting) → P (waiting w) → IfOk P (step e w))
    → (es : List Event) (l : Lookup R) → P l
    → IfOk P (run_lookup step es l)
unfolding run_lookup
run_lookup-keeps P step keeps [] l h = h
run_lookup-keeps P step keeps (e ∷ es) (finished r snsa phases) h = h
run_lookup-keeps P step keeps (e ∷ es) (waiting w) h =
    >>=-IfOk P P (step e w) (run_lookup step es) (run_lookup-keeps P step keeps es) (keeps e w h)
