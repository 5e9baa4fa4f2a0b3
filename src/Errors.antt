-- ===== src/Errors.antt =====
-- domain/errors/DomainError.ts, and what a call of the domain can end in. The message of an error,
-- text for people, is not modelled: its code is.
use dance_sync_back_end.Base.{
  ◌≡◌, refl, subst, ◌⊎◌, inl, inr, if◌then◌else◌, Bool, true, false, Option, none, some,
}

pub data DomainErrorCode : Type 0 where
  room_not_found room_full room_not_waiting room_not_battling battle_not_started : DomainErrorCode
  player_already_in_room player_not_in_room invalid_player not_enough_players : DomainErrorCode
  not_enough_dancers invalid_dancer players_not_ready song_not_selected : DomainErrorCode
  invalid_voter battle_finished room_not_finished not_host invalid_message : DomainErrorCode
  song_selection_in_progress song_selection_not_active not_challenge_participant : DomainErrorCode
  attempt_already_used not_song_chooser invalid_song : DomainErrorCode
  word_race_not_active word_round_not_open : DomainErrorCode

-- What a call throws: a DomainError with its code, a RangeError, or a plain Error. `out_of_fuel` marks
-- a loop of the model that ran out of fuel, which no call of the source corresponds to.
pub data Failure : Type 0 where
  domain_error : DomainErrorCode → Failure
  range_error : Failure
  plain_error : Failure
  out_of_fuel : Failure

pub data Result {ℓ} (A : Type ℓ) : Type ℓ where
  ok : A → Result A
  err : Failure → Result A

-- What comes after a call happens only if the call returns.
infixl 5 ◌>>=◌ ◌>>◌
abbrev pub ◌>>=◌ {ι κ} : {V : Type ι} {W : Type κ} → Result V → (V → Result W) → Result W
err failure >>= next = err failure
ok value >>= next = next value

abbrev pub ◌>>◌ {κ} : {W : Type κ} → Result (Unit {0}) → Result W → Result W
check >> next = check >>= λ _. next

-- `throw new DomainError(code, …)`
abbrev pub throw {ℓ} : {A : Type ℓ} → DomainErrorCode → Result A
throw code = err (domain_error code)

-- `if (test) throw new DomainError(code, …)`
abbrev pub throw_if : Bool → DomainErrorCode → Result (Unit {0})
throw_if true code = throw code
throw_if false code = ok tt

-- `if (test) throw new RangeError(…)`
abbrev pub range_error_if : Bool → Result (Unit {0})
range_error_if true = err range_error
range_error_if false = ok tt

-- The value of a loop that is given enough fuel.
abbrev pub from_loop {ℓ} : {A : Type ℓ} → Option A → Result A
from_loop none = err out_of_fuel
from_loop (some a) = ok a

abbrev pub is_ok {ℓ} : {A : Type ℓ} → Result A → Bool
is_ok (ok a) = true
is_ok (err e) = false

-- To split on the outcome of a call.
pub Result-cases {ℓ} :
    {A : Type ℓ} (m : Result A) → ((e : Failure) × (m ≡ err e)) ⊎ ((a : A) × (m ≡ ok a))
Result-cases (err e) = inl (e, refl)
Result-cases (ok a) = inr (a, refl)

-- `P` holds of the value, if the call returns one.
abbrev pub Ensures {ℓ κ} : {A : Type ℓ} → (A → Type κ) → Result A → Type κ
Ensures P (ok a) = P a
Ensures P (err e) = Unit

module _ {ℓ κ} {A : Type ℓ} (P : A → Type κ) where
  pub Ensures-throw_if :
      (test : Bool) (code : DomainErrorCode) (m : Result A)
      → (test ≡ false → Ensures P m)
      → Ensures P (throw_if test code >> m)
  Ensures-throw_if true code m h = tt
  Ensures-throw_if false code m h = h refl

  pub Ensures-bind {ι} :
      {B : Type ι} (m : Result B) (f : B → Result A)
      → ((b : B) → m ≡ ok b → Ensures P (f b))
      → Ensures P (m >>= f)
  Ensures-bind (ok b) f h = h b refl
  Ensures-bind (err e) f h = tt

  pub Ensures-ok : (m : Result A) {a : A} → Ensures P m → m ≡ ok a → P a
  Ensures-ok m {a} h e = subst (Ensures P) e h

  pub Ensures-if :
      (test : Bool) (m n : Result A)
      → (test ≡ true → Ensures P m)
      → (test ≡ false → Ensures P n)
      → Ensures P (if test then m else n)
  Ensures-if true m n h k = h refl
  Ensures-if false m n h k = k refl

  -- A match on a value that may be null.
  pub Ensures-elim {ι} :
      {B : Type ι} (o : Option B) (m : Result A) (f : B → Result A)
      → (o ≡ none → Ensures P m)
      → ((b : B) → o ≡ some b → Ensures P (f b))
      → Ensures P (elim o [ none ↦ m | some b ↦ f b ])
  Ensures-elim none m f h k = h refl
  Ensures-elim (some b) m f h k = k b refl

module _ {ℓ κ ι} {A : Type ℓ} (P : A → Type κ) (Q : A → Type ι) where
  pub Ensures-imp : (m : Result A) → ((a : A) → P a → Q a) → Ensures P m → Ensures Q m
  Ensures-imp (ok a) f h = f a h
  Ensures-imp (err e) f h = tt

-- The call returns or throws a DomainError, and nothing else.
abbrev pub IsExpected {ℓ} : {A : Type ℓ} → Result A → Type 0
IsExpected (ok a) = Unit
IsExpected (err (domain_error code)) = Unit
IsExpected (err range_error) = ⊥
IsExpected (err plain_error) = ⊥
IsExpected (err out_of_fuel) = ⊥

-- a check alone
pub IsExpected-check : (test : Bool) (code : DomainErrorCode) → IsExpected (throw_if test code)
IsExpected-check true code = tt
IsExpected-check false code = tt

module _ {ℓ} {A : Type ℓ} where
  pub IsExpected-bind {κ} :
      {B : Type κ} (m : Result B) (f : B → Result A)
      → IsExpected m
      → ((b : B) → IsExpected (f b))
      → IsExpected (m >>= f)
  IsExpected-bind (ok b) f h k = k b
  IsExpected-bind (err (domain_error code)) f h k = tt
  IsExpected-bind (err range_error) f h k = h
  IsExpected-bind (err plain_error) f h k = h
  IsExpected-bind (err out_of_fuel) f h k = h

  pub IsExpected-throw_if :
      (test : Bool) (code : DomainErrorCode) (m : Result A)
      → IsExpected m
      → IsExpected (throw_if test code >> m)
  IsExpected-throw_if true code m h = tt
  IsExpected-throw_if false code m h = h

  pub IsExpected-elim {κ} :
      {B : Type κ} (o : Option B) (code : DomainErrorCode) (f : B → Result A)
      → ((b : B) → IsExpected (f b))
      → IsExpected {A = A} (elim o [ none ↦ throw code | some b ↦ f b ])
  IsExpected-elim none code f h = tt
  IsExpected-elim (some b) code f h = h b
