-- ===== src/Config/Accepted.antt =====
-- What settings config/env.ts accepts, and what the battle relies on.
use dance_sync_back_end.Base.{
  ℕ, ◌<◌, ◌≡◌, ◌↔◌, ◌⊎◌, refl, sym, subst, Option, none, some, inl, inr, Bool-cases, nat_eq, length,
  Text, lookup, arith,
}
use dance_sync_back_end.Errors.{Result, ok, Ensures, Ensures-bind, Ensures-ok, ◌>>=◌}
use dance_sync_back_end.Model.{Setting, whole, fraction}
use dance_sync_back_end.Identity.{trim}
use dance_sync_back_end.Config.{
  NumberRule, non_negative, positive, non_negative_integer, positive_integer, Source, ReadsNumber,
  check_number, read_value, read_number, Env, load_env,
}

-- The numbers that a rule allows.
abbrev pub Meets : NumberRule → Setting → Type 0
Meets non_negative (whole n) = Unit
Meets non_negative (fraction n) = Unit
Meets positive (whole n) = 0 < n
Meets positive (fraction n) = Unit
Meets non_negative_integer (whole n) = Unit
Meets positive_integer (whole n) = 0 < n
Meets _ _ = ⊥

check_number-Meets :
    (rule : NumberRule) (parsed s : Setting)
    → check_number parsed rule ≡ ok s
    → Meets rule parsed × (s ≡ parsed)
unfolding check_number
check_number-Meets non_negative (whole n) s e = (tt, ground arith)
check_number-Meets non_negative (fraction n) s e = (tt, ground arith)
check_number-Meets positive (whole n) s e = (ground arith, ground arith)
check_number-Meets positive (fraction n) s e = (tt, ground arith)
check_number-Meets non_negative_integer (whole n) s e = (tt, ground arith)
check_number-Meets positive_integer (whole n) s e = (ground arith, ground arith)
check_number-Meets _ _ s e = absurd (ground arith)

Meets-check_number :
    (rule : NumberRule) (parsed : Setting)
    → Meets rule parsed
    → check_number parsed rule ≡ ok parsed
unfolding check_number
Meets-check_number non_negative (whole n) h = refl
Meets-check_number non_negative (fraction n) h = refl
Meets-check_number positive (whole n) h = ground arith
Meets-check_number positive (fraction n) h = refl
Meets-check_number non_negative_integer (whole n) h = refl
Meets-check_number positive_integer (whole n) h = ground arith
Meets-check_number _ _ h = absurd h

-- The text that the environment has for a name says nothing.
abbrev pub IsBlank : Option Text → Type 0
IsBlank none = Unit {0}
IsBlank (some raw) = length (trim raw) ≡ 0

abbrev pub IsRead : ReadsNumber → Option Text → ℕ → NumberRule → Setting → Type 0
IsRead number none fallback rule s = s ≡ whole fallback
IsRead number (some raw) fallback rule s =
    ((length (trim raw) ≡ 0) × (s ≡ whole fallback))
    ⊎ ((0 < length (trim raw)) × (s ≡ number raw) × Meets rule s)

read_value-IsRead :
    (number : ReadsNumber) (value : Option Text) (fallback : ℕ) (rule : NumberRule) (s : Setting)
    → read_value number value fallback rule ≡ ok s
    → IsRead number value fallback rule s
unfolding read_value
read_value-IsRead number none fallback rule s = λ e. ground arith
read_value-IsRead number (some raw) fallback rule s =
    elim (Bool-cases (nat_eq (length (trim raw)) 0)) [
      | inl blank ↦ rw blank λ e. inl (ground arith, ground arith)
      | inr full ↦ rw full λ e.
          let (m, same) = check_number-Meets rule (number raw) s e in
          inr (ground arith, same, subst (Meets rule) (sym same) m)
    ]

IsRead-read_value :
    (number : ReadsNumber) (value : Option Text) (fallback : ℕ) (rule : NumberRule) (s : Setting)
    → IsRead number value fallback rule s
    → read_value number value fallback rule ≡ ok s
unfolding read_value
IsRead-read_value number none fallback rule s e = ground arith
IsRead-read_value number (some raw) fallback rule s (inl (blank, same)) = ground arith
IsRead-read_value number (some raw) fallback rule s (inr (full, same, m)) =
    ground (arith, full, same, Meets-check_number rule (number raw) (subst (Meets rule) same m))

-- A setting is accepted exactly when its text is absent or blank, which gives the fallback, or is
-- read as a number that the rule of the setting allows, which gives this number.
pub read_number_iff :
    (number : ReadsNumber) (source : Source) (name : Text) (fallback : ℕ) (rule : NumberRule)
    (s : Setting)
    → (read_number number source name fallback rule ≡ ok s)
      ↔ IsRead number (lookup name source) fallback rule s
unfolding read_number
read_number_iff number source name fallback rule s =
    (read_value-IsRead number _ fallback rule s, IsRead-read_value number _ fallback rule s)

IsRead-Meets :
    (number : ReadsNumber) (value : Option Text) (fallback : ℕ) (rule : NumberRule) (s : Setting)
    → Meets rule (whole fallback)
    → IsRead number value fallback rule s
    → Meets rule s
IsRead-Meets number none fallback rule s h e = subst (Meets rule) (sym e) h
IsRead-Meets number (some raw) fallback rule s h (inl (_, e)) = subst (Meets rule) (sym e) h
IsRead-Meets number (some raw) fallback rule s h (inr (_, _, m)) = m

-- Every setting is one that its rule allows.
pub record IsConfig (e : Env) : Type 0 where
  pub port : Meets non_negative_integer e.port
  pub disconnect_grace : Meets non_negative e.disconnect_grace_ms
  pub pagehide_grace : Meets non_negative e.pagehide_grace_ms
  pub song_challenge : Meets positive e.song_challenge_ms
  pub song_choose : Meets positive e.song_choose_ms
  pub countdown : Meets non_negative e.battle_start_countdown_ms
  pub rounds : Meets non_negative_integer e.word_race_rounds
  pub window : Meets positive e.word_race_window_ms
  pub min_gap : Meets non_negative e.word_race_min_gap_ms
  pub vote_points : Meets positive_integer e.vote_points
  pub word_bonus_points : Meets positive_integer e.word_bonus_points
  pub fallback_duration : Meets positive e.word_race_fallback_duration_ms

module _ (number : ReadsNumber) (source : Source) where
  -- The next setting is read, and meets its rule.
  read_next {ℓ} :
      (P : Env → Type ℓ) (name : Text) (fallback : ℕ) (rule : NumberRule)
      (next : Setting → Result Env)
      → Meets rule (whole fallback)
      → ((s : Setting) → Meets rule s → Ensures P (next s))
      → Ensures P (read_number number source name fallback rule >>= next)
  read_next P name fallback rule next h k =
      Ensures-bind P (read_number number source name fallback rule) next λ s e. k s (
        IsRead-Meets number (lookup name source) fallback rule s h
          ((read_number_iff number source name fallback rule s).0 e))

  load_env-Ensures : Ensures IsConfig (load_env number source)
  unfolding load_env
  load_env-Ensures = read_next IsConfig _ 3000 non_negative_integer _ tt λ _ port.
      read_next IsConfig _ 15000 non_negative _ tt λ _ disconnect_grace.
        read_next IsConfig _ 3000 non_negative _ tt λ _ pagehide_grace.
          read_next IsConfig _ 15000 positive _ (omega arith) λ _ song_challenge.
            read_next IsConfig _ 20000 positive _ (omega arith) λ _ song_choose.
              read_next IsConfig _ 5000 non_negative _ tt λ _ countdown.
                read_next IsConfig _ 3 non_negative_integer _ tt λ _ rounds.
                  read_next IsConfig _ 10000 positive _ (omega arith) λ _ window.
                    read_next IsConfig _ 12000 non_negative _ tt λ _ min_gap.
                      read_next IsConfig _ 2 positive_integer _ (omega arith) λ _ vote_points.
                        read_next IsConfig _ 1 positive_integer _ (omega arith) λ _ word_bonus.
                          read_next IsConfig _ 90000 positive _ (omega arith) λ _ fallback. record {
                            port = port;
                            disconnect_grace = disconnect_grace;
                            pagehide_grace = pagehide_grace;
                            song_challenge = song_challenge;
                            song_choose = song_choose;
                            countdown = countdown;
                            rounds = rounds;
                            window = window;
                            min_gap = min_gap;
                            vote_points = vote_points;
                            word_bonus_points = word_bonus;
                            fallback_duration = fallback;
                          }

  -- When the environment is accepted, every setting is a number that its rule allows: finite and
  -- not negative, and where the rule says so positive or a whole number.
  pub load_env-IsConfig : (e : Env) → load_env number source ≡ ok e → IsConfig e
  load_env-IsConfig e h = Ensures-ok IsConfig (load_env number source) load_env-Ensures h
