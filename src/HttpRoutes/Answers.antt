-- ===== src/HttpRoutes/Answers.antt =====
-- The answers of routes.ts.
use dance_sync_back_end.Base.{
  ℕ, ◌+◌, ◌≤◌, ◌<◌, ◌≡◌, ◌⊎◌, refl, ◌∙◌, ◌==◌, Bool, true, false, ◌&&◌, Option, none, some, inl,
  inr, Bool-cases, Option-cases, Text, ltb, leb, eq_refl, arith,
}
use dance_sync_back_end.Errors.{
  ok, DomainErrorCode, domain_error, range_error, plain_error, out_of_fuel, room_not_found,
}
use dance_sync_back_end.Model.{Room, Setting, whole, fraction, negative, not_finite}
use dance_sync_back_end.Identity.{Unicode}
use dance_sync_back_end.RoomService.{has_player}
use dance_sync_back_end.RoomRepository.{find_by_code}
use dance_sync_back_end.SocketHandlers.Seats.{seat_key}
use dance_sync_back_end.SocketHandlers.Seats.Graces.{
  IsNoted, grace_end, earlier, schedule_grace-earlier,
}
use dance_sync_back_end.SocketHandlers.Hub.{Hub, Moment}
use dance_sync_back_end.HttpRoutes.{
  status_by_code, RouteError, thrown, from_middleware, status_number, client_error_status,
  middleware_answer, error_handler, ParsesJson, LeaveBody, pagehide, leave_for, leave_request,
  post_leave,
}

-- A number of 400 to 499.
abbrev pub IsClientStatus : Option Setting → Type 0
IsClientStatus (some (whole n)) = (400 ≤ n) × (n < 500)
IsClientStatus _ = ⊥

-- The error is the client's fault.
abbrev pub IsClientError : RouteError → Type 0
IsClientError (thrown (domain_error code)) = Unit
IsClientError (thrown _) = ⊥
IsClientError (from_middleware parse_failed status status_code) =
    (parse_failed ≡ true) ⊎ IsClientStatus (status_number status status_code)

code_status : (code : DomainErrorCode) → (400 ≤ status_by_code code) × (status_by_code code < 500)
unfolding status_by_code
code_status room_not_found = omega arith
code_status _ = omega arith

unless_status : {P : Type 0} → (false ≡ true) ⊎ P → P
unless_status (inl e) = absurd (ground arith)
unless_status (inr h) = h

outside : (n : ℕ) → (leb 400 n && ltb n 500) ≡ false → (false ≡ true) ⊎ ((400 ≤ n) × (n < 500)) → ⊥
outside n out (inl e) = cc
outside n out (inr h) = ground (arith, out, h.0, h.1)

middleware_status :
    (p : Bool) (s : Option Setting)
    → (((p ≡ true) ⊎ IsClientStatus s)
        × (400 ≤ (middleware_answer (client_error_status p s)).status)
        × ((middleware_answer (client_error_status p s)).status < 500))
      ⊎ (¬ ((p ≡ true) ⊎ IsClientStatus s)
          × ((middleware_answer (client_error_status p s)).status ≡ 500))
unfolding middleware_answer client_error_status
middleware_status true none = inl (inl refl, omega arith, omega arith)
middleware_status true (some (fraction n)) = inl (inl refl, omega arith, omega arith)
middleware_status true (some negative) = inl (inl refl, omega arith, omega arith)
middleware_status true (some not_finite) = inl (inl refl, omega arith, omega arith)
middleware_status true (some (whole n)) = inl (inl refl, ground arith, ground arith)
middleware_status false none = inr (λ h. unless_status h, refl)
middleware_status false (some (fraction n)) = inr (λ h. unless_status h, refl)
middleware_status false (some negative) = inr (λ h. unless_status h, refl)
middleware_status false (some not_finite) = inr (λ h. unless_status h, refl)
middleware_status false (some (whole n)) = elim (Bool-cases (leb 400 n && ltb n 500)) [
  | inl in_range ↦ rw in_range (inl (inr (ground arith, ground arith), ground arith, ground arith))
  | inr out ↦ rw out (inr (λ h. outside n out h, refl))
]

-- An error of the client is answered with a status of 400 to 499, and any other with 500.
pub error_handler_status :
    (e : RouteError)
    → (IsClientError e × (400 ≤ (error_handler e).status) × ((error_handler e).status < 500))
      ⊎ (¬ IsClientError e × ((error_handler e).status ≡ 500))
unfolding error_handler
error_handler_status (thrown (domain_error code)) =
    inl (tt, (code_status code).0, (code_status code).1)
error_handler_status (thrown range_error) = inr (λ h. h, refl)
error_handler_status (thrown plain_error) = inr (λ h. h, refl)
error_handler_status (thrown out_of_fuel) = inr (λ h. h, refl)
error_handler_status (from_middleware parse_failed status status_code) =
    middleware_status parse_failed (status_number status status_code)

-- The grace of the seat ends within `grace_ms` from now on, and sooner if it would have ended sooner.
abbrev pub EndsWithin : Option ℕ → Option ℕ → ℕ → Type 0
EndsWithin before after limit =
    (t : ℕ) × (after ≡ some t) × (t ≤ limit) × (t ≡ earlier before limit)

module _ (u : Unicode) (m : Moment) where
  -- A beacon that is acknowledged: the player is in the room, and is released from it soon.
  pub record IsGraceful (room_code player_id : Text) (grace_ms : ℕ) (hub after : Hub) : Type 0 where
    pub room : Room
    pub found : find_by_code u room_code hub.rooms ≡ some room
    pub member : has_player room.players player_id ≡ true
    pub ends :
        EndsWithin
          (grace_end hub.seats (seat_key u room_code player_id))
          (grace_end after.seats (seat_key u room_code player_id))
          (m.now + grace_ms)
    pub others :
        (k : Text)
        → (seat_key u room_code player_id == k) ≡ false
        → grace_end after.seats k ≡ grace_end hub.seats k
    pub rooms : after.rooms ≡ hub.rooms
    pub noted : IsNoted after.seats

  earlier-le : (before : Option ℕ) (b : ℕ) → earlier before b ≤ b
  earlier-le none b = omega arith
  earlier-le (some a) b = ground arith

  -- When the deadlines noted for the graces are those of the timers, a leave request of a hidden
  -- page that is answered with 202 is for a player who is in the room, and makes the grace of their
  -- seat end within the grace of the beacon, or sooner if it would have ended sooner; it changes no
  -- room and the grace of no other seat.
  pub post_leave-IsGraceful :
      (parse : ParsesJson) (grace_ms : ℕ) (code : Text) (body : LeaveBody) (hub : Hub)
      (room_code player_id : Text)
      → IsNoted hub.seats
      → leave_request u m parse code body ≡ ok (room_code, (player_id, pagehide))
      → (post_leave u m parse grace_ms code body hub).0.status ≡ 202
      → IsGraceful room_code player_id grace_ms hub (post_leave u m parse grace_ms code body hub).1
  unfolding post_leave error_handler status_by_code
  post_leave-IsGraceful parse grace_ms code body hub room_code player_id v e =
      rw e (elim (Option-cases (find_by_code u room_code hub.rooms)) [
        | inl f ↦ rw (f, leave_for) λ s. absurd (omega arith)
        | inr (room, f) ↦ elim (Bool-cases (has_player room.players player_id)) [
          | inr absent ↦ rw (f, absent, leave_for) λ s. absurd (omega arith)
          | inl present ↦
              rw (f, present, leave_for)
                λ s.
                  let (noted, ends) =
                    schedule_grace-earlier u room_code player_id grace_ms m.now hub.seats v in
                  let key = seat_key u room_code player_id in
                  record {
                    room = room;
                    found = f;
                    member = present;
                    ends = (
                      earlier (grace_end hub.seats key) (m.now + grace_ms),
                      ends key ∙ rw (eq_refl key) refl,
                      earlier-le (grace_end hub.seats key) (m.now + grace_ms),
                      refl,
                    );
                    others = λ k other. ends k ∙ rw other refl;
                    rooms = refl;
                    noted = noted;
                  }
        ]
      ])
